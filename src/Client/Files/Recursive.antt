-- ===== src/Client/Files/Recursive.antt =====
-- The files that a recursive listing finds.
use smc_server_client.Common.{
  ℕ, zero, suc, ◌≤◌, ◌<◌, some, List, [], ◌∷◌, ◌++◌, Bytes, Fallible, ◌>>=◌, pure, Yields,
  bind-Yields, refl, arith,
}
use Prim.Native.Nat.{max}
use smc_server_client.Paths.{FilePath, path_of, ◌/path◌}
use smc_server_client.Protocol.Files.{FileInfo, no_file, file, directory}
use smc_server_client.Client.Files.{add_infos, add_content_of}

-- The entries of a directory: files with their sizes, directories with their own entries, and what is
-- neither.
pub data Entries : Type 0 where
  nil : Entries
  leaf : Bytes → ℕ → Entries → Entries
  folder : Bytes → Entries → Entries → Entries
  other : Bytes → Entries → Entries

abbrev pub infos : Entries → List FileInfo
infos nil = []
infos (leaf name size es) = record { name = name; type = file; size = size } ∷ infos es
infos (folder name content es) = record { name = name; type = directory; size = 0 } ∷ infos es
infos (other name es) = record { name = name; type = no_file; size = 0 } ∷ infos es

abbrev pub depth : Entries → ℕ
depth nil = 0
depth (leaf name size es) = depth es
depth (folder name content es) = max (suc (depth content)) (depth es)
depth (other name es) = depth es

-- Every file below a path, with its own path, in the order of the listings.
abbrev pub files_below : FilePath → Entries → List FilePath
files_below path nil = []
files_below path (leaf name size es) = (path /path path_of name) ∷ files_below path es
files_below path (folder name content es) =
    files_below (path /path path_of name) content ++ files_below path es
files_below path (other name es) = files_below path es

module _ {S : Type 0} (list : FilePath → Fallible S (List FileInfo)) where
  -- The server lists every directory below a path, whenever it is asked.
  abbrev pub IsListed : FilePath → Entries → Type 0
  IsListed path nil = Unit
  IsListed path (leaf name size es) = IsListed path es
  IsListed path (folder name content es) =
      Yields (list (path /path path_of name)) (some (infos content))
      × IsListed (path /path path_of name) content
      × IsListed path es
  IsListed path (other name es) = IsListed path es

  add_infos-files :
      (rounds : ℕ) (es : Entries) (path : FilePath)
      → depth es ≤ rounds
      → IsListed path es
      → Yields
          (add_infos list (add_content_of list rounds) path (infos es))
          (some (files_below path es))
  unfolding add_infos add_content_of
  add_infos-files rounds nil path deep listed = λ s. refl
  add_infos-files rounds (leaf name size es) path deep listed =
      let target = path /path path_of name in
      bind-Yields (pure (target ∷ []))
        (λ found. add_infos list (add_content_of list rounds) path (infos es) >>= λ more.
          pure (found ++ more))
        (λ s. refl)
        (bind-Yields (add_infos list (add_content_of list rounds) path (infos es))
          (λ more. pure ((target ∷ []) ++ more)) (add_infos-files rounds es path deep listed)
          (λ s. refl))
  add_infos-files rounds (other name es) path deep listed =
      bind-Yields (pure [])
        (λ found. add_infos list (add_content_of list rounds) path (infos es) >>= λ more.
          pure (found ++ more))
        (λ s. refl)
        (bind-Yields (add_infos list (add_content_of list rounds) path (infos es))
          (λ more. pure ([] ++ more)) (add_infos-files rounds es path deep listed) (λ s. refl))
  add_infos-files zero (folder name content es) path deep listed = absurd (omega arith)
  add_infos-files (suc rounds) (folder name content es) path deep listed =
      let target = path /path path_of name in
      let rest = add_infos list (add_content_of list (suc rounds)) path (infos es) in
      let below = files_below target content in
      bind-Yields (add_content_of list (suc rounds) target)
        (λ found. rest >>= λ more. pure (found ++ more))
        (bind-Yields (list target)
          (λ found. add_infos list (add_content_of list rounds) target found) listed.0
          (add_infos-files rounds content target (omega arith) listed.1))
        (bind-Yields rest (λ more. pure (below ++ more))
          (add_infos-files (suc rounds) es path (omega arith) listed.2) (λ s. refl))

  -- A recursive listing of a directory tree finds exactly its files, each under its own path, in the
  -- order of the listings, with as many rounds as the tree is deep and one more, and more rounds
  -- change nothing: the server has to list every directory of the tree whenever it is asked.
  pub add_content_of-files :
      (rounds : ℕ) (es : Entries) (path : FilePath)
      → depth es < rounds
      → Yields (list path) (some (infos es))
      → IsListed path es
      → Yields (add_content_of list rounds path) (some (files_below path es))
  unfolding add_content_of
  add_content_of-files zero es path deep here listed = absurd (omega arith)
  add_content_of-files (suc rounds) es path deep here listed =
      bind-Yields (list path) (λ found. add_infos list (add_content_of list rounds) path found) here
        (add_infos-files rounds es path (omega arith) listed)
