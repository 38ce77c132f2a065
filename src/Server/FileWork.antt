-- ===== src/Server/FileWork.antt =====
-- Server/src/network/request/handlers/io_*.cpp: what the handlers do to the disk and to the response
-- once their request is read.
use smc_server_client.Common.{
  ℕ, Bool, true, false, Option, none, some, List, [], ◌∷◌, ◌++◌, Bytes, codes, if◌then◌else◌,
  Fallible,
}
use smc_server_client.Paths.{FilePath, parent_path, filename}
use smc_server_client.Protocol.Response.{
  io_create_dir_error, io_create_file_error, io_delete_error, io_file_not_exists,
  io_path_not_directory,
}
use smc_server_client.Protocol.Files.{FileInfo, no_file, file, directory}
use smc_server_client.Server.Handler.{Client}
use smc_server_client.Server.Disk.{Disk, Answer, failed, ok}
use smc_server_client.Server.Sfs.{Directories, is_directory}
use smc_server_client.Server.Sfs.Changes.{Work, refuse, answered, quoted, check_path_not_exist}

abbrev pub does_not_exist : Bytes → FilePath → Bytes
does_not_exist kind path = codes "the " ++ (kind ++ (quoted path ++ codes " does not exists"))

module _ {D : Type 0} (os : Disk D) where
  unfoldable pub create_directory : FilePath → Fallible (Work D) Unit
  create_directory path w =
      let (r, d) = os.create_directories path w.disk in
      let refused = λ (message : Bytes).
        refuse {A = Unit {0}} io_create_dir_error
          (codes "error while creating directory " ++ (quoted path ++ (codes ": " ++ message)))
          (record w { disk = d }) in
      elim r [
        | failed message ↦ refused message
        | ok made ↦ if made then (some tt, record w { disk = d }) else refused os.no_error
      ]

  -- The directories are made or not; the stream then tells.
  unfoldable pub create_file : FilePath → Fallible (Work D) Unit
  create_file path w =
      answered (os.open_output path) io_create_file_error
        (codes "error while creating file " ++ (quoted path ++ codes ": "))
        (record w { disk = (os.create_directories (parent_path path) w.disk).1 })

  unfoldable pub delete_file : FilePath → Fallible (Work D) ℕ
  delete_file path =
      answered (os.remove_all path) io_delete_error
        (codes "error while removing file " ++ (quoted path ++ codes ": "))

  -- Where a call throws, the file is left out of the list.
  abbrev pub file_info : FilePath → D → Answer Bool → Option FileInfo
  file_info path d (failed message) = none
  file_info path d (ok true) = elim (os.file_size path d) [
    | failed message ↦ none
    | ok size ↦ some (record { name = filename path; type = file; size = size })
  ]
  file_info path d (ok false) = elim (os.is_directory path d) [
    | failed message ↦ none
    | ok is_dir ↦
        some
          (record { name = filename path; type = if is_dir then directory else no_file; size = 0 })
  ]

  unfoldable pub get_file_list : D → List FilePath → List FileInfo
  get_file_list d [] = []
  get_file_list d (path ∷ paths) =
      let rest = get_file_list d paths in
      elim (file_info path d (os.is_regular_file path d)) [ none ↦ rest | some info ↦ info ∷ rest ]

abbrev pub or_missing :
    {D : Type 0} → FilePath → Option (Unit {0}) × Work D → Option (Unit {0}) × Work D
or_missing path (some v, w) = (some v, w)
or_missing path (none, w) = refuse io_file_not_exists (does_not_exist (codes "file ") path) w

module _ {D : Type 0} (os : Disk D) (dirs : Directories) where
  unfoldable pub check_directory : Client → FilePath → Fallible (Work D) Unit
  check_directory client path w =
      if is_directory os dirs client w.disk path
      then (some tt, w)
      else refuse io_path_not_directory
          (codes "the path " ++ (quoted path ++ codes " isn't a directory")) w

  -- An error of the check gives way to the one that the file does not exist.
  unfoldable pub check_named : Client → FilePath → Fallible (Work D) Unit
  check_named client path w = or_missing path (check_path_not_exist os dirs client path w)
