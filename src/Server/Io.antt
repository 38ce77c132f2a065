-- ===== src/Server/Io.antt =====
-- Server/src/network/request/handlers/io_*.cpp: the `_run` of the handlers of files, without the two
-- that transfer the content of a file, and RequestAnalyzer.
pub mod Refused
use smc_server_client.Common.{
  ℕ, ◌%◌, ◌^◌, Bool, true, false, not, Option, none, some, List, [], ◌∷◌, ◌++◌, Bytes, codes,
  if◌then◌else◌, Fallible, ◌>>=◌, ◌>>◌, pure, continue,
}
use smc_server_client.Wire.{extract_string, insert_int, insert_bool, insert_buffer}
use smc_server_client.Wire.PathFields.{extract_path, insert_path}
use smc_server_client.Paths.{FilePath, parent_path, filename, string}
use smc_server_client.Network.{Transport}
use smc_server_client.Protocol.Response.{
  ResponseError, io_create_dir_error, io_create_file_error, io_delete_error, io_file_not_exists,
  io_path_not_directory,
}
use smc_server_client.Protocol.Files.{FileInfo, FileType, no_file, file, directory, file_type_code}
use smc_server_client.Bfl.{new_encoder, encode}
use smc_server_client.Server.Reply.{ResponseBuilder, insert, build_error}
use smc_server_client.Server.Handler.{Client, Session, Rh, send_response}
use smc_server_client.Server.Requests.{extracting, extract_or_error}
use smc_server_client.Server.Disk.{Disk, Answer, failed, ok, holds}
use smc_server_client.Server.Sfs.{
  Directories, absolute_from_user_scope, relative_to_user_scope, real, exists, is_directory,
  get_directory_file_list, get_file_type, get_file_size,
}
use smc_server_client.Server.Sfs.Changes.{
  Work, report, refuse, answered, quoted, check_path_already_exist, check_path_not_exist, rename,
  move, copy,
}
use smc_server_client.Server.FileWork.{
  does_not_exist, create_directory, create_file, delete_file, get_file_list, check_directory,
  check_named,
}

-- What is outside the program: the connection of the session, and the disk.
pub record Outside (W D : Type 0) : Type 0 where
  pub wire : W
  pub disk : D

abbrev pub on_wire : {W D : Type 0} → Transport W → Transport (Outside W D)
on_wire net = record {
  read = λ n o. let (r, w) = net.read n o.wire in (r, record o { wire = w });
  write = λ bytes o. let (r, w) = net.write bytes o.wire in (r, record o { wire = w });
}

module _ {W D : Type 0} where
  abbrev pub disk_of : Rh (Outside W D) → D
  disk_of h = h.session.socket.disk

  abbrev pub work_of : Rh (Outside W D) → Work D
  work_of h = record { disk = h.session.socket.disk; response = h.response }

  abbrev pub with_work : Work D → Rh (Outside W D) → Rh (Outside W D)
  with_work w h = record h {
    response = w.response;
    session = record h.session { socket = record h.session.socket { disk = w.disk } };
  }

  -- An operation of the SFS, or of the disk, with the handler's response.
  abbrev pub on_disk : {A : Type 0} → Fallible (Work D) A → Fallible (Rh (Outside W D)) A
  on_disk m h = let (r, w) = m (work_of h) in (r, with_work w h)

  -- An insertion into the response.
  abbrev pub inserting : (Bytes → Bytes) → Fallible (Rh (Outside W D)) Unit
  inserting f h = (some tt, record h { response = insert f h.response })

module _ {W D : Type 0} (os : Disk D) (dirs : Directories) where
  -- `extractAbsPath`.
  unfoldable pub extract_abs_path : Fallible (Rh (Outside W D)) FilePath
  extract_abs_path h =
      let (r, h') = extract_or_error (extracting extract_path h) in
      continue (λ path. pure (absolute_from_user_scope dirs h.session.client path)) (r, h')

  unfoldable pub run_create_directory : Fallible (Rh (Outside W D)) Unit
  run_create_directory h =
      let client = h.session.client in
      (extract_abs_path >>= λ path.
      on_disk (check_path_already_exist os dirs client path) >> on_disk (create_directory os path))
        h

  unfoldable pub run_create_file : Fallible (Rh (Outside W D)) Unit
  run_create_file h =
      let client = h.session.client in
      (extract_abs_path >>= λ path.
      on_disk (check_path_already_exist os dirs client path) >> on_disk (create_file os path))
        h

  -- `file_count_t` has four bytes.
  unfoldable pub run_delete_file : Fallible (Rh (Outside W D)) Unit
  run_delete_file h =
      let client = h.session.client in
      (extract_abs_path >>= λ path.
      on_disk (check_path_not_exist os dirs client path)
      >> (on_disk (delete_file os path) >>= λ removed. inserting (insert_int 4 (removed % 2 ^ 32))))
        h

  unfoldable pub run_file_exists : Fallible (Rh (Outside W D)) Unit
  run_file_exists = extract_abs_path >>= λ path h.
      inserting (insert_bool (exists os dirs h.session.client (disk_of h) path)) h

  unfoldable pub run_get_file_type : Fallible (Rh (Outside W D)) Unit
  run_get_file_type = extract_abs_path >>= λ path h.
      inserting
        (insert_int 1 (file_type_code (get_file_type os dirs h.session.client (disk_of h) path))) h

  -- The size is inserted behind an error too.
  unfoldable pub run_get_file_size : Fallible (Rh (Outside W D)) Unit
  run_get_file_size = extract_abs_path >>= λ path h.
      let client = h.session.client in
      let absent =
        with_work (report io_file_not_exists (does_not_exist (codes "file ") path) (work_of h)) h in
      if exists os dirs client (disk_of h) path
      then inserting (insert_int 8 (get_file_size os dirs client (disk_of h) path)) h
      else inserting (insert_int 8 0) absent

  unfoldable pub run_get_real_path : Fallible (Rh (Outside W D)) Unit
  run_get_real_path = extract_abs_path >>= λ path h.
      let client = h.session.client in
      let d = disk_of h in
      if exists os dirs client d path
      then inserting
          (insert_path (relative_to_user_scope os dirs client d (real os dirs client d path))) h
      else on_disk (refuse io_file_not_exists (does_not_exist (codes "path ") path)) h

  unfoldable pub run_get_dir_content : Fallible (Rh (Outside W D)) Unit
  run_get_dir_content h =
      let client = h.session.client in
      let insert_list : FilePath → Fallible (Rh (Outside W D)) Unit = λ path g.
        let files =
          get_file_list os (disk_of g) (get_directory_file_list os dirs client (disk_of g) path) in
        inserting (insert_buffer 4 (encode (new_encoder files)).1.bfl) g in
      (extract_abs_path >>= λ path.
      on_disk (check_path_not_exist os dirs client path)
      >> (on_disk (check_directory os dirs client path) >> insert_list path))
        h

  unfoldable pub run_set_file_name : Fallible (Rh (Outside W D)) Unit
  run_set_file_name h =
      let client = h.session.client in
      (extract_abs_path >>= λ path. extracting (extract_string 2) >>= λ new_name.
      on_disk (check_named os dirs client path)
      >> (on_disk (rename os dirs client path new_name) >> pure tt))
        h

  -- `_run` of a copy and a move, which send their answer themselves.
  unfoldable pub run_copy_or_move :
      Transport (Outside W D)
      → (FilePath → FilePath → Fallible (Work D) Unit)
      → Fallible (Rh (Outside W D)) Unit
  run_copy_or_move net operation h =
      let scoped = absolute_from_user_scope dirs h.session.client in
      let answer : Fallible (Rh (Outside W D)) Unit = λ g. (some tt, (send_response net g).1) in
      (extracting extract_path >>= λ input_path. extracting extract_path >>= λ output_path.
      on_disk (operation (scoped input_path) (scoped output_path)) >> answer)
        h

  abbrev pub run_copy_file : Transport (Outside W D) → Fallible (Rh (Outside W D)) Unit
  run_copy_file net h = run_copy_or_move net (copy os dirs h.session.client) h

  abbrev pub run_move_file : Transport (Outside W D) → Fallible (Rh (Outside W D)) Unit
  run_move_file net h = run_copy_or_move net (move os dirs h.session.client) h
