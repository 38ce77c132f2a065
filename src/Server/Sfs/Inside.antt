-- ===== src/Server/Sfs/Inside.antt =====
-- What it is for a path to be in a directory.
use smc_server_client.Common.{
  true, List, [], ◌∷◌, ◌++◌, Bytes, text_eq, text_eq_iff, ◌≡◌, ◌↔◌, refl, arith,
}
use smc_server_client.Paths.{FilePath, iterate}
use smc_server_client.Server.Handler.{Client}
use smc_server_client.Server.Disk.{Disk}
use smc_server_client.Server.Sfs.{Directories, in_names, is_in_directory, real}

in_names→rest :
    (path dir : List Bytes) → in_names path dir ≡ true → (rest : List Bytes) × (path ≡ dir ++ rest)
unfolding in_names
in_names→rest path [] h = (path, refl)
in_names→rest [] (d ∷ dir) h = cc
in_names→rest (p ∷ path) (d ∷ dir) h =
    let same : text_eq p d ≡ true = ground arith in
    let later : in_names path dir ≡ true = ground arith in
    let (rest, e) = in_names→rest path dir later in
    let e0 = (text_eq_iff p d).0 same in (rest, ground (arith, e0, e))

in_names-append : (dir rest : List Bytes) → in_names (dir ++ rest) dir ≡ true
unfolding in_names
in_names-append [] rest = ground arith
in_names-append (d ∷ dir) rest = rw ((text_eq_iff d d).1 refl) (in_names-append dir rest)

-- `isInDirectory` holds exactly when the real path is the real directory with further names behind it,
-- the directory itself included: what the loop over the two iterators compares is a prefix.
pub is_in_directory_iff :
    {D : Type 0} (os : Disk D) (dirs : Directories) (client : Client) (d : D) (path dir : FilePath)
    → (is_in_directory os dirs client d path dir ≡ true) ↔ (
        (rest : List Bytes) × (iterate (real os dirs client d path)
          ≡ iterate (real os dirs client d dir) ++ rest))
unfolding is_in_directory
is_in_directory_iff os dirs client d path dir = (
  in_names→rest (iterate (real os dirs client d path)) (iterate (real os dirs client d dir)),
  λ (rest, e). rw e (in_names-append (iterate (real os dirs client d dir)) rest),
)
