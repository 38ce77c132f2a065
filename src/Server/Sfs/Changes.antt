-- ===== src/Server/Sfs/Changes.antt =====
-- Server/src/io/sfs.cpp: what checks a path for a response, and `rename`, `move` and `copy`. Every
-- caller hands its response over, so that `response` is never null. `fs::exists` of the directory that
-- a copy or a move goes to is taken not to throw.
pub mod Refused
use smc_server_client.Common.{
  Bool, true, false, not, ◌&&◌, ◌||◌, Option, none, some, [], ◌∷◌, ◌++◌, Bytes, codes,
  if◌then◌else◌, Fallible, ◌>>=◌, ◌>>◌, pure,
}
use smc_server_client.Paths.{
  FilePath, path_of, name_path, ◌/path◌, lexically_normal, parent_path, filename, string,
}
use smc_server_client.Protocol.Response.{
  ResponseError, invalid_permissions, io_invalid_file_name, io_rename_error, io_move_error,
  io_copy_error, io_create_dir_error, io_file_already_exists, io_file_not_exists,
}
use smc_server_client.Server.Names.{is_valid_name}
use smc_server_client.Server.Reply.{ResponseBuilder, build_error}
use smc_server_client.Server.Handler.{Client}
use smc_server_client.Server.Disk.{Disk, Answer, failed, ok, holds}
use smc_server_client.Server.Sfs.{Directories, can_lexically_access, exists}

-- What an operation works on: the disk and the response.
pub record Work (D : Type 0) : Type 0 where
  pub disk : D
  pub response : ResponseBuilder

abbrev pub quoted : FilePath → Bytes
quoted p = b'"' ∷ (string p ++ (b'"' ∷ []))

-- `buildError` with its infos, and a `return false`.
module _ {D : Type 0} where
  abbrev pub report : ResponseError → Bytes → Work D → Work D
  report id precision_msg w = record w { response = build_error id precision_msg w.response }

  abbrev pub refuse : {A : Type 0} → ResponseError → Bytes → Fallible (Work D) A
  refuse id precision_msg w = (none, report id precision_msg w)

  -- A function of the file system that may answer by an error code; the message is that of the code.
  abbrev pub answered :
      {A : Type 0} → (D → Answer A × D) → ResponseError → Bytes → Fallible (Work D) A
  answered f id message w =
      let (r, d) = f w.disk in
      elim r [
        | failed text ↦ refuse id (message ++ text) (record w { disk = d })
        | ok v ↦ (some v, record w { disk = d })
      ]

  -- The name is checked for the response only: whatever it is, the renaming goes on.
  abbrev pub report_invalid_name : Bytes → Work D → Work D
  report_invalid_name new_name w =
      if is_valid_name new_name
      then w
      else report io_invalid_file_name (codes "invalid file name: " ++ new_name) w

  -- `create_directories` where the directory is not there.
  abbrev pub make_directories : Disk D → FilePath → D → Answer Bool × D
  make_directories os path d =
      if holds (os.exists path d) then (ok false, d) else os.create_directories path d

abbrev pub target_in : FilePath → FilePath → FilePath
target_in input_path output_path =
    lexically_normal output_path /path name_path (filename input_path)

abbrev pub transfer_message : Bytes → FilePath → FilePath → Bytes
transfer_message verb input_path target_path =
    codes "error while "
    ++ (verb
        ++ (codes " file "
            ++ (quoted input_path ++ (codes " to " ++ (quoted target_path ++ codes ": ")))))

module _ {D : Type 0} (os : Disk D) (dirs : Directories) (client : Client) where
  unfoldable pub check_path_already_exist : FilePath → Fallible (Work D) Unit
  check_path_already_exist path w =
      if exists os dirs client w.disk path
      then refuse io_file_already_exists [] w
      else if not (can_lexically_access os dirs client w.disk path)
      then refuse invalid_permissions [] w
      else (some tt, w)

  unfoldable pub check_path_not_exist : FilePath → Fallible (Work D) Unit
  check_path_not_exist path w =
      if not (exists os dirs client w.disk path)
      then refuse io_file_not_exists [] w
      else if not (can_lexically_access os dirs client w.disk path)
      then refuse invalid_permissions [] w
      else (some tt, w)

  unfoldable pub check_rename : FilePath → FilePath → Fallible (Work D) Unit
  check_rename path target_path w =
      if (not (can_lexically_access os dirs client w.disk path)
          || not (can_lexically_access os dirs client w.disk (parent_path path)))
        || not (can_lexically_access os dirs client w.disk target_path)
      then refuse invalid_permissions [] w
      else (some tt, w)

  unfoldable pub rename : FilePath → Bytes → Fallible (Work D) Unit
  unfolding check_rename
  rename path new_name w =
      let target_path = parent_path path /path path_of new_name in
      (check_rename path target_path
          >> answered (os.rename path target_path) io_rename_error
              (codes "error while renaming file: "))
        (report_invalid_name new_name w)

  unfoldable pub check_copy_or_move : FilePath → FilePath → Fallible (Work D) Unit
  check_copy_or_move input_path target_path w =
      if not (can_lexically_access os dirs client w.disk input_path)
        || not (can_lexically_access os dirs client w.disk target_path)
      then refuse invalid_permissions [] w
      else if not (exists os dirs client w.disk input_path)
      then refuse io_file_not_exists
          (codes "the file " ++ (quoted input_path ++ codes " does not exist")) w
      else (some tt, w)

  unfoldable pub begin_copy_or_move : FilePath → FilePath → Fallible (Work D) Unit
  unfolding check_copy_or_move
  begin_copy_or_move input_path target_path =
      check_copy_or_move input_path target_path
      >> (answered (make_directories os (parent_path target_path)) io_create_dir_error (
            codes "error while creating directories "
            ++ (quoted (parent_path target_path) ++ codes ": "))
          >> pure tt)

  unfoldable pub move : FilePath → FilePath → Fallible (Work D) Unit
  unfolding begin_copy_or_move
  move input_path output_path =
      let target_path = target_in input_path output_path in
      begin_copy_or_move input_path target_path
      >> answered (os.rename input_path target_path) io_move_error
          (transfer_message (codes "moving") input_path target_path)

  unfoldable pub copy : FilePath → FilePath → Fallible (Work D) Unit
  unfolding begin_copy_or_move
  copy input_path output_path =
      let target_path = target_in input_path output_path in
      begin_copy_or_move input_path target_path
      >> answered (os.copy input_path target_path) io_copy_error
          (transfer_message (codes "copying") input_path target_path)
