-- ===== src/Server/Io/Refused.antt =====
-- The handlers of files at a path that the client may not access.
use smc_server_client.Common.{
  false, none, some, [], Bytes, codes, Fallible, ◌>>=◌, ◌>>◌, pure, bind-some, bind-none,
  bind-Keeps, Bool-cases, inl, inr, ◌≡◌, refl, ap, sym, subst, ◌∙◌, ◌%◌, ◌^◌,
}
use smc_server_client.Wire.{Analyzer, extract_string, insert_int}
use smc_server_client.Wire.PathFields.{extract_path}
use smc_server_client.Paths.{FilePath}
use smc_server_client.Protocol.Response.{invalid_permissions, io_file_not_exists}
use smc_server_client.Server.Handler.{Client, Session, Rh}
use smc_server_client.Server.Requests.{extracting}
use smc_server_client.Server.Disk.{Disk, holds}
use smc_server_client.Server.Sfs.{Directories, absolute_from_user_scope, exists}
use smc_server_client.Server.Sfs.Changes.{
  Work, report, check_path_already_exist, check_path_not_exist, rename,
}
use smc_server_client.Server.Sfs.Changes.Refused.{Forbidden}
use smc_server_client.Server.FileWork.{
  create_directory, create_file, delete_file, check_named, or_missing, does_not_exist,
}
use smc_server_client.Server.Io.{
  Outside, disk_of, work_of, with_work, on_disk, inserting, extract_abs_path, run_create_directory,
  run_create_file, run_delete_file, run_set_file_name,
}

module _ {D : Type 0} (os : Disk D) (dirs : Directories) (client : Client) (path : FilePath)
    (w : Work D) (closed : Forbidden os dirs client w.disk path) where
  not_there : exists os dirs client w.disk path ≡ false
  unfolding exists
  not_there = elim (Bool-cases (holds (os.exists path w.disk))) [
    | inl there ↦ rw (there, closed) refl
    | inr absent ↦ rw absent refl
  ]

  check_path_already_exist-refused :
      check_path_already_exist os dirs client path w ≡ (none, report invalid_permissions [] w)
  unfolding check_path_already_exist
  check_path_already_exist-refused = rw (not_there, closed) refl

  check_path_not_exist-refused :
      check_path_not_exist os dirs client path w ≡ (none, report io_file_not_exists [] w)
  unfolding check_path_not_exist
  check_path_not_exist-refused = rw not_there refl

  check_named-refused : check_named os dirs client path w ≡ (
    none,
    report io_file_not_exists
        (does_not_exist (codes "file ") path)
        (report io_file_not_exists [] w),
  )
  unfolding check_named
  check_named-refused = ap (or_missing path) check_path_not_exist-refused

module _ {W D : Type 0} (os : Disk D) (dirs : Directories) (h : Rh (Outside W D)) (path : FilePath)
    (request : Analyzer) (reads : extract_path h.request ≡ (some path, request)) where
  abbrev target : FilePath
  target = absolute_from_user_scope dirs h.session.client path

  abbrev read : Rh (Outside W D)
  read = record h { request = request }

  pub extract_abs_path-reads : extract_abs_path {W = W} os dirs h ≡ (some target, read)
  unfolding extract_abs_path
  extract_abs_path-reads = rw reads refl

  module _ (closed : Forbidden os dirs h.session.client (disk_of h) target) where
    -- A check that fails and leaves the disk leaves the session, and nothing behind it is done.
    stops :
        {A B : Type 0} (check : Fallible (Work D) A) (rest : A → Fallible (Rh (Outside W D)) B)
        (g : Rh (Outside W D)) (w : Work D)
        → check (work_of g) ≡ (none, w)
        → w.disk ≡ disk_of g
        → ((on_disk check >>= rest) g).1.session ≡ g.session
    stops check rest g w refused same =
        ap (λ t. t.1.session)
          (bind-none (on_disk check) rest (ap (λ t. (t.0, with_work {W = W} t.1 g)) refused))
        ∙ ap (λ d. record g.session { socket = record g.session.socket { disk = d } }) same

    reaches :
        {B : Type 0} (f : FilePath → Fallible (Rh (Outside W D)) B)
        → (f target read).1.session ≡ h.session
        → ((extract_abs_path os dirs >>= f) h).1.session ≡ h.session
    reaches f e =
        ap (λ t. t.1.session) (bind-some (extract_abs_path os dirs) f extract_abs_path-reads) ∙ e

    -- The request to make a directory, to make a file, to delete or to rename at a path that the client
    -- may not access changes nothing of the session, the disk included.
    pub run_io-forbidden :
        ((run_create_directory os dirs h).1.session ≡ h.session)
        × ((run_create_file os dirs h).1.session ≡ h.session)
        × ((run_delete_file os dirs h).1.session ≡ h.session)
        × ((run_set_file_name os dirs h).1.session ≡ h.session)
    unfolding run_create_directory run_create_file run_delete_file run_set_file_name
    run_io-forbidden =
        let client = h.session.client in
        let made = check_path_already_exist-refused os dirs client target (work_of h) closed in
        let gone = check_path_not_exist-refused os dirs client target (work_of h) closed in
        let renames : Bytes → Fallible (Rh (Outside W D)) Unit = λ new_name.
          on_disk (check_named os dirs client target)
          >> (on_disk (rename os dirs client target new_name) >> pure tt) in
        (
          reaches
              (λ p.
                on_disk (check_path_already_exist os dirs client p)
                >> on_disk (create_directory os p))
              (stops (check_path_already_exist os dirs client target)
                (λ _. on_disk (create_directory os target)) read
                (report invalid_permissions [] (work_of h)) made refl),
          reaches
              (λ p.
                on_disk (check_path_already_exist os dirs client p) >> on_disk (create_file os p))
              (stops (check_path_already_exist os dirs client target)
                (λ _. on_disk (create_file os target)) read
                (report invalid_permissions [] (work_of h)) made refl),
          reaches
              (λ p.
                on_disk (check_path_not_exist os dirs client p)
                >> (on_disk (delete_file os p) >>= λ removed.
                    inserting (insert_int 4 (removed % 2 ^ 32))))
              (stops (check_path_not_exist os dirs client target)
                (λ _. on_disk (delete_file os target) >>= λ removed.
                  inserting (insert_int 4 (removed % 2 ^ 32)))
                read (report io_file_not_exists [] (work_of h)) gone refl),
          reaches
              (λ p. extracting (extract_string 2) >>= λ new_name.
                on_disk (check_named os dirs client p)
                >> (on_disk (rename os dirs client p new_name) >> pure tt))
              (bind-Keeps (λ (g : Rh (Outside W D)). g.session ≡ h.session)
                (extracting (extract_string 2)) renames (λ g e. e)
                (λ new_name g e.
                  let there : Forbidden os dirs client (disk_of g) target =
                    subst
                      (λ (t : Session (Outside W D)). Forbidden os dirs client t.socket.disk target)
                      (sym e) closed in
                  stops (check_named os dirs client target)
                    (λ _. on_disk (rename os dirs client target new_name) >> pure tt) g
                    (report io_file_not_exists (does_not_exist (codes "file ") target)
                      (report io_file_not_exists [] (work_of g)))
                    (check_named-refused os dirs client target (work_of g) there) refl
                  ∙ e)
                read refl),
        )
