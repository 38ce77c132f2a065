-- ===== src/Server/Sfs.antt =====
-- Server/src/io/sfs.cpp and Server/src/io/directories.cpp: the scope of a client, and what it may
-- access. An `SFS` is the client that it refers to.
pub mod Access
pub mod Inside
pub mod Changes
use smc_server_client.Common.{
  ℕ, zero, suc, ◌+◌, Bool, true, false, not, ◌&&◌, ◌||◌, List, [], ◌∷◌, ◌++◌, Bytes, codes, length,
  text_eq, if◌then◌else◌,
}
use smc_server_client.Paths.{
  FilePath, path_of, name_path, ◌/path◌, lexically_normal, parent_path, filename, iterate, path_eq,
  generic_string, is_separator,
}
use smc_server_client.Protocol.Roles.{Role, user, admin, developer, no_role, other_role}
use smc_server_client.Protocol.Files.{FileType, no_file, file, directory}
use smc_server_client.Server.Handler.{Client}
use smc_server_client.Server.Disk.{Disk, holds, or_else}

pub record Directories : Type 0 where
  pub logs : FilePath
  pub strg : FilePath
  pub s_users : FilePath
  pub s_network : FilePath
  pub s_network_shared : FilePath

abbrev pub update_paths : Directories → Directories
update_paths dirs =
    let s_network = dirs.strg /path name_path (codes "network") in
    record dirs {
      s_users = dirs.strg /path name_path (codes "users");
      s_network = s_network;
      s_network_shared = s_network /path name_path (codes "shared");
    }

unfoldable pub set_logs : FilePath → Directories → Directories
set_logs path dirs = record dirs { logs = path }

unfoldable pub set_storage : FilePath → Directories → Directories
set_storage path dirs = update_paths (record dirs { strg = path })

-- The loop of `isInDirectory` over both iterators, the path's first.
unfoldable pub in_names : List Bytes → List Bytes → Bool
in_names path_it [] = true
in_names [] (d ∷ dir_it) = false
in_names (p ∷ path_it) (d ∷ dir_it) = text_eq p d && in_names path_it dir_it

-- A text without its last byte, if this is a separator.
unfoldable pub without_end : Bytes → Bytes
without_end [] = []
without_end (c ∷ []) = if is_separator c then [] else c ∷ []
without_end (c ∷ d ∷ text) = c ∷ without_end (d ∷ text)

unfoldable pub remove_end_backslash : FilePath → FilePath
unfolding without_end
remove_end_backslash path = path_of (without_end (generic_string path))

unfoldable pub is_same : FilePath → FilePath → Bool
unfolding remove_end_backslash
is_same first second =
    text_eq (generic_string (remove_end_backslash (lexically_normal first)))
      (generic_string (remove_end_backslash (lexically_normal second)))

abbrev pub scope : Directories → Role → FilePath → FilePath
scope dirs user path = dirs.s_network /path path
scope dirs admin path = dirs.strg /path path
scope dirs _ path = path

unfoldable pub absolute_from_user_scope : Directories → Client → FilePath → FilePath
absolute_from_user_scope dirs client path = scope dirs client.user.role path

module _ {D : Type 0} (os : Disk D) (dirs : Directories) (client : Client) (d : D) where
  unfoldable pub relative : FilePath → FilePath → FilePath
  relative path base = or_else path (os.relative path base d)

  abbrev pub relative_by : Role → FilePath → FilePath
  relative_by user path = relative path dirs.s_network
  relative_by admin path = relative path dirs.strg
  relative_by _ path = path

  unfoldable pub relative_to_user_scope : FilePath → FilePath
  relative_to_user_scope path = relative_by client.user.role path

  unfoldable pub real : FilePath → FilePath
  real path = or_else path (os.weakly_canonical (lexically_normal path) d)

  unfoldable pub is_in_directory : FilePath → FilePath → Bool
  unfolding in_names real
  is_in_directory path dir = in_names (iterate (real path)) (iterate (real dir))

  unfoldable pub is_in_upc_directory : FilePath → Bool
  is_in_upc_directory path =
      is_in_directory path (dirs.s_network /path path_of (codes "perso." ++ client.user.name))

  -- `canLexicallyAccess` calls itself through these; `access` is that call.
  module _ (access : FilePath → Bool) where
    abbrev pub exists_by : FilePath → Bool
    exists_by path = holds (os.exists path d) && access path

    abbrev pub is_directory_by : FilePath → Bool
    is_directory_by path = exists_by path && holds (os.is_directory path d)

    abbrev pub is_pud_directory_by : FilePath → Bool
    is_pud_directory_by path =
        is_in_directory path dirs.s_users
        && (not (path_eq path dirs.s_users) && is_directory_by path)

    abbrev pub is_uif_file_by : FilePath → Bool
    is_uif_file_by path =
        is_pud_directory_by (parent_path path) && text_eq (filename path) (codes ".uif")

    abbrev pub role_allows : Role → FilePath → Bool
    role_allows developer path = true
    role_allows admin path = is_in_directory path dirs.strg && not (is_uif_file_by path)
    role_allows user path =
        is_same path dirs.s_network
        || (is_in_upc_directory path || is_in_directory path dirs.s_network_shared)
    role_allows _ path = true

  -- `canLexicallyAccess` with a bound on its calls of itself.
  unfoldable pub access_within : ℕ → FilePath → Bool
  access_within zero path = false
  access_within (suc rounds) path =
      if client.is_logged
      then role_allows (access_within rounds) client.user.role (lexically_normal path)
      else false

  -- Each call of itself is on the parent of a normal path.
  unfoldable pub can_lexically_access : FilePath → Bool
  can_lexically_access path = access_within (suc (suc (length path.elements))) path

  unfoldable pub exists : FilePath → Bool
  exists path = exists_by can_lexically_access path

  unfoldable pub is_regular_file : FilePath → Bool
  unfolding exists
  is_regular_file path = exists path && holds (os.is_regular_file path d)

  unfoldable pub is_directory : FilePath → Bool
  unfolding exists
  is_directory path = exists path && holds (os.is_directory path d)

  unfoldable pub is_pud_directory : FilePath → Bool
  unfolding is_directory
  is_pud_directory path =
      is_in_directory path dirs.s_users && (not (path_eq path dirs.s_users) && is_directory path)

  unfoldable pub is_uif_file : FilePath → Bool
  unfolding is_pud_directory
  is_uif_file path = is_pud_directory (parent_path path) && text_eq (filename path) (codes ".uif")

  unfoldable pub accessible_files : List FilePath → List FilePath
  accessible_files [] = []
  accessible_files (entry ∷ entries) =
      let rest = accessible_files entries in
      if can_lexically_access entry then entry ∷ rest else rest

  unfoldable pub get_directory_file_list : FilePath → List FilePath
  unfolding is_directory accessible_files
  get_directory_file_list path =
      if is_directory path then accessible_files (os.entries path d) else []

  unfoldable pub get_file_type : FilePath → FileType
  unfolding is_directory is_regular_file
  get_file_type path =
      if is_regular_file path then file else if is_directory path then directory else no_file

  unfoldable pub get_file_size : FilePath → ℕ
  get_file_size path = or_else 0 (os.file_size path d)
