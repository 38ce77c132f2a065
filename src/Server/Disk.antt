-- ===== src/Server/Disk.antt =====
-- The file system that the server runs on, a parameter: the functions of std::filesystem and the file
-- streams that it calls, on a state of the disk. `failed` is an error code with its message.
use smc_server_client.Common.{ℕ, Bool, false, List, Bytes}
use smc_server_client.Paths.{FilePath}

pub data Answer (A : Type 0) : Type 0 where
  failed : Bytes → Answer A
  ok : A → Answer A

abbrev pub holds : Answer Bool → Bool
holds (failed message) = false
holds (ok b) = b

abbrev pub or_else : {A : Type 0} → A → Answer A → A
or_else default (failed message) = default
or_else default (ok v) = v

pub record Disk (D : Type 0) : Type 0 where
  -- The message of an error code that is clear.
  pub no_error : Bytes
  pub exists : FilePath → D → Answer Bool
  pub is_regular_file : FilePath → D → Answer Bool
  pub is_directory : FilePath → D → Answer Bool
  pub file_size : FilePath → D → Answer ℕ
  pub weakly_canonical : FilePath → D → Answer FilePath
  pub relative : FilePath → FilePath → D → Answer FilePath
  -- The files that `directory_iterator` gives, up to an error.
  pub entries : FilePath → D → List FilePath
  pub create_directories : FilePath → D → Answer Bool × D
  pub rename : FilePath → FilePath → D → Answer Unit × D
  -- With `recursive` and `overwrite_existing`.
  pub copy : FilePath → FilePath → D → Answer Unit × D
  pub remove_all : FilePath → D → Answer ℕ × D
  -- An input stream on the whole file.
  pub read_file : FilePath → D → Answer Bytes
  -- An output stream, which empties the file or makes it.
  pub open_output : FilePath → D → Answer Unit × D
  -- What an open output stream has written when it is closed.
  pub write_output : FilePath → Bytes → D → D
