-- ===== src/Protocol/Files.antt =====
-- Shared/include/Shared/io/file_type.hpp, file_info.hpp and Shared/src/io/file_type.cpp.
use smc_server_client.Common.{ℕ, Bytes, codes, ◌==◌, if◌then◌else◌, Bool, leb}

pub data FileType : Type 0 where
  no_file file directory : FileType
  other_file : ℕ → FileType

unfoldable pub file_type_code : FileType → ℕ
file_type_code no_file = 0
file_type_code file = 1
file_type_code directory = 2
file_type_code (other_file n) = n

unfoldable pub file_type_of_code : ℕ → FileType
file_type_of_code n =
    if n == 0 then no_file else if n == 1 then file else if n == 2 then directory else other_file n

unfoldable pub file_type_name : FileType → Bytes
file_type_name no_file = codes "NONE"
file_type_name file = codes "FILE"
file_type_name directory = codes "DIRECTORY"
file_type_name (other_file n) = codes "UNKNOWN"

-- `isValid` lets a code through that the enumeration does not name.
unfoldable pub is_valid : FileType → Bool
unfolding file_type_code
is_valid id = leb (file_type_code id) 3

pub record FileInfo : Type 0 where
  pub name : Bytes
  pub type : FileType
  pub size : ℕ
