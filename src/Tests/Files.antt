-- ===== src/Tests/Files.antt =====
-- The disk and its access rules, on a disk that is a list of the files that exist.
use smc_server_client.Common.{
  ◌≤◌, true, false, Bool, ◌||◌, none, some, List, [], ◌∷◌, ◌++◌, Bytes, codes, length, text_eq,
  if◌then◌else◌, ◌≡◌, ◌↔◌, refl, ap, arith, inl, Commutes,
}
use smc_server_client.Wire.{
  Analyzer, extract_string, extract_buffer, extract_int, extract_loop, take_buffer, copy_loop,
}
use smc_server_client.Wire.PathFields.{extract_path}
use smc_server_client.Paths.{
  FilePath, no_path, path_of, is_absolute, is_empty, path_eq, ◌/path◌, parent_path, iterate,
  lexically_normal, generic_string, root_name_size, split_names, skip_separators, normal_names,
  onto, join_names, append_names,
}
use smc_server_client.Paths.Normal.{length-lexically_normal}
use smc_server_client.Network.Stream.{pipe}
use smc_server_client.Protocol.Request.{io_copy_file}
use smc_server_client.Protocol.Response.{invalid_permissions}
use smc_server_client.Protocol.Roles.{user}
use smc_server_client.Server.Reply.{new_response}
use smc_server_client.Server.Handler.{Client, Session, Rh}
use smc_server_client.Server.Disk.{Disk, ok, failed}
use smc_server_client.Server.Sfs.{
  Directories, set_storage, absolute_from_user_scope, in_names, real, is_in_directory,
  is_in_upc_directory, is_same, remove_end_backslash, without_end, access_within,
  can_lexically_access, role_allows,
}
use smc_server_client.Server.Sfs.Inside.{is_in_directory_iff}
use smc_server_client.Server.Sfs.Access.{NoRootOfUsers, can_lexically_access-ends}
use smc_server_client.Server.Sfs.Changes.{Work, report, copy, move, rename, report_invalid_name}
use smc_server_client.Server.Sfs.Changes.Refused.{Forbidden, copy_move-refused, rename-refused}
use smc_server_client.Server.Io.{
  Outside, run_create_directory, run_create_file, run_delete_file, run_set_file_name,
}
use smc_server_client.Server.Io.Refused.{run_io-forbidden}
use smc_server_client.Server.IoContent.{run_get_file_content, run_set_file_content}
use smc_server_client.Server.IoContent.Unchecked.{as_client, run_file_content-any_client}
use smc_server_client.Server.FileServer.{process_request}
use smc_server_client.Server.FileServer.Unlogged.{process_request-unlogged}
use smc_server_client.Tests.Sessions.{bob, stranger, no_command}

abbrev is_there : FilePath → List FilePath → Bool
is_there p [] = false
is_there p (q ∷ d) = path_eq p q || is_there p d

abbrev without : FilePath → List FilePath → List FilePath
without p [] = []
without p (q ∷ d) = if path_eq p q then without p d else q ∷ without p d

-- No links, no errors; a path without names is nothing.
abbrev toy : Disk (List FilePath)
toy = record {
  no_error = [];
  exists = λ p d. ok (is_there p d);
  is_regular_file = λ p d. ok true;
  is_directory = λ p d. ok true;
  file_size = λ p d. ok 0;
  weakly_canonical = λ p d. ok (if is_empty p.elements then no_path else p);
  relative = λ p base d. ok p;
  entries = λ p d. d;
  create_directories = λ p d. (ok true, p ∷ d);
  rename = λ p q d. (ok tt, q ∷ without p d);
  copy = λ p q d. (ok tt, q ∷ d);
  remove_all = λ p d. (ok 1, without p d);
  read_file = λ p d. if is_there p d then ok [] else failed (codes "not found");
  open_output = λ p d. (ok tt, p ∷ d);
  write_output = λ p content d. d;
}

abbrev drive : List Bytes → FilePath
drive names = record { root_name = codes "C:"; has_root = true; elements = names }

abbrev storage : Directories
storage = record {
  logs = drive (codes "logs" ∷ []);
  strg = drive (codes "srv" ∷ []);
  s_users = drive (codes "srv" ∷ codes "users" ∷ []);
  s_network = drive (codes "srv" ∷ codes "network" ∷ []);
  s_network_shared = drive (codes "srv" ∷ codes "network" ∷ codes "shared" ∷ []);
}

-- The directories that `setStorage` makes of a path.
storage_set : set_storage (drive (codes "srv" ∷ [])) storage ≡ storage
unfolding set_storage ◌/path◌ is_absolute append_names
storage_set = refl

-- A user who is logged in, a file of the server that is not the user's, and one that is shared.
abbrev member : Client
member = record stranger { is_logged = true; user = record bob { role = user } }

abbrev secret : FilePath
secret = drive (codes "srv" ∷ codes "users" ∷ codes "ann" ∷ codes ".uif" ∷ [])

abbrev shared_file : FilePath
shared_file = drive (codes "srv" ∷ codes "network" ∷ codes "shared" ∷ codes "a.txt" ∷ [])

abbrev files : List FilePath
files = secret ∷ shared_file ∷ []

secret_closed : Forbidden toy storage member files secret
unfolding can_lexically_access access_within is_same remove_end_backslash is_in_directory
    is_in_upc_directory real in_names lexically_normal normal_names onto generic_string join_names
    path_of root_name_size split_names skip_separators ◌/path◌ is_absolute append_names iterate
    text_eq without_end
secret_closed = refl

shared_open : can_lexically_access toy storage member files shared_file ≡ true
unfolding can_lexically_access access_within is_same remove_end_backslash is_in_directory
    is_in_upc_directory real in_names lexically_normal normal_names onto generic_string join_names
    path_of root_name_size split_names skip_separators ◌/path◌ is_absolute append_names iterate
    text_eq without_end
shared_open = refl

abbrev work : Work (List FilePath)
work = record { disk = files; response = new_response }

copy_move-refused_example :
    (copy toy storage member secret (parent_path shared_file) work
      ≡ (none, report invalid_permissions [] work))
    × (move toy storage member secret (parent_path shared_file) work
        ≡ (none, report invalid_permissions [] work))
copy_move-refused_example =
    copy_move-refused toy storage member secret (parent_path shared_file) work (inl secret_closed)

rename-refused_example :
    ((rename toy storage member secret (codes "mine") work).0 ≡ none)
    × ((rename toy storage member secret (codes "mine") work).1
        ≡ report invalid_permissions [] (report_invalid_name (codes "mine") work))
rename-refused_example =
    rename-refused toy storage member secret (codes "mine") work (inl secret_closed)

is_in_directory_iff_example :
    (is_in_directory toy storage member files shared_file storage.s_network ≡ true) ↔ (
      (rest : List Bytes) × (iterate (real toy storage member files shared_file)
        ≡ iterate (real toy storage member files storage.s_network) ++ rest))
is_in_directory_iff_example =
    is_in_directory_iff toy storage member files shared_file storage.s_network

no_names : (names : List Bytes) → length names ≤ 0 → is_empty names ≡ true
no_names [] h = refl
no_names (name ∷ names) h = absurd (omega arith)

apart : NoRootOfUsers toy storage member files
unfolding is_in_directory real in_names iterate lexically_normal normal_names onto text_eq
apart p e =
    let shut =
      no_names (lexically_normal p).elements
        (omega (arith, length-lexically_normal p, ap length e)) in
    rw shut refl

can_lexically_access-ends_example :
    (can_lexically_access toy storage member files secret
      ≡ role_allows toy storage member files
          (can_lexically_access toy storage member files)
          user
          (lexically_normal secret))
    × (access_within toy storage member files 9 secret
        ≡ can_lexically_access toy storage member files secret)
can_lexically_access-ends_example =
    can_lexically_access-ends toy storage member files apart secret 9 (omega arith)

-- Two paths, each behind its size.
abbrev two_paths : Bytes
two_paths = 1 ∷ 0 ∷ 97 ∷ 1 ∷ 0 ∷ 98 ∷ []

abbrev asked : Session (Outside Bytes (List FilePath))
asked = record {
  client = stranger;
  users = [];
  socket = record { wire = []; disk = files };
  slept = 0;
  restart = none;
  commands = [];
}

process_request-unlogged_example :
    (process_request pipe toy storage 1000 no_command io_copy_file two_paths asked).socket.disk
    ≡ files
process_request-unlogged_example =
    process_request-unlogged pipe toy storage 1000 no_command two_paths asked refl io_copy_file

-- A handler whose request has the path `C:/srv/users/ann/.uif`.
abbrev secret_bytes : Bytes
secret_bytes = codes "C:/srv/users/ann/.uif"

abbrev handler : Rh (Outside Bytes (List FilePath))
handler = record {
  session = record asked { client = member };
  request = record { bytes = 21 ∷ 0 ∷ secret_bytes; cursor = 0; last_error = [] };
  response = new_response;
  response_sent = false;
}

abbrev behind_path : Analyzer
behind_path = record handler.request { cursor = 23 }

secret_read : extract_path handler.request ≡ (some secret, behind_path)
unfolding extract_path extract_string extract_buffer extract_int extract_loop take_buffer copy_loop
    path_of root_name_size split_names skip_separators
secret_read = refl

secret_target_closed :
    Forbidden toy storage member files (absolute_from_user_scope storage member secret)
unfolding can_lexically_access access_within is_same remove_end_backslash is_in_directory
    is_in_upc_directory real in_names lexically_normal normal_names onto generic_string join_names
    path_of root_name_size split_names skip_separators ◌/path◌ is_absolute append_names iterate
    text_eq without_end absolute_from_user_scope
secret_target_closed = refl

run_io-forbidden_example :
    ((run_create_directory toy storage handler).1.session ≡ handler.session)
    × ((run_create_file toy storage handler).1.session ≡ handler.session)
    × ((run_delete_file toy storage handler).1.session ≡ handler.session)
    × ((run_set_file_name toy storage handler).1.session ≡ handler.session)
run_io-forbidden_example =
    run_io-forbidden toy storage handler secret behind_path secret_read secret_target_closed

secret_absolute : is_absolute secret ≡ true
unfolding is_absolute
secret_absolute = refl

run_file_content-any_client_example :
    Commutes (as_client stranger) (run_get_file_content pipe toy storage 1000) handler
    × Commutes (as_client stranger) (run_set_file_content pipe toy storage 1000) handler
run_file_content-any_client_example =
    run_file_content-any_client pipe toy storage 1000 stranger handler secret behind_path
      secret_read secret_absolute
