-- ===== src/Bfl.antt =====
-- Server/src/network/bfl/encoder.cpp and src/network/bfl/decoder.cpp: the buffered file list, by
-- which a directory listing travels. `none` of the encoder is a copy past the end of its buffer,
-- which is undefined behaviour; `none` of the decoder is its `false`.
pub mod Encode
pub mod Decode
pub mod RoundTrip
use smc_server_client.Common.{
  ℕ, zero, suc, ◌+◌, ◌*◌, ◌%◌, ◌^◌, Bool, true, false, Option, none, some, List, [], ◌∷◌, ◌++◌,
  Bytes, length, take, drop, resize, ltb, if◌then◌else◌, Fallible, ◌>>=◌, ◌>>◌, pure, fail,
}
use smc_server_client.Wire.{size_range}
use smc_server_client.Wire.Digits.{le_bytes, le_value}
use smc_server_client.Protocol.Files.{FileInfo, FileType, file_type_code, file_type_of_code}

pub record Encoder : Type 0 where
  pub files : List FileInfo
  pub bfl : Bytes
  pub current_offset : ℕ

abbrev pub new_encoder : List FileInfo → Encoder
new_encoder files = record { files = files; bfl = []; current_offset = 0 }

-- `memcpy` of some bytes to the offset, and the step of the offset behind them.
unfoldable pub push_bytes : Bytes → Fallible Encoder Unit
push_bytes bytes e =
    let next = e.current_offset + length bytes in
    if ltb (length e.bfl) next then (none, e) else (
      some tt,
      record e {
        bfl = take e.current_offset e.bfl ++ (bytes ++ drop next e.bfl);
        current_offset = next % size_range;
      },
    )

unfoldable pub resize_bfl : ℕ → Fallible Encoder Unit
resize_bfl size e = (some tt, record e { bfl = resize (size % size_range) e.bfl })

unfoldable pub push_file_count : Fallible Encoder Unit
push_file_count e =
    (resize_bfl (e.current_offset + 4) >> push_bytes (le_bytes 4 (length e.files % 2 ^ 32))) e

-- `getFileSizeInBuffer`.
abbrev pub file_size_in_buffer : FileInfo → ℕ
file_size_in_buffer file = (1 + 8 + 2 + length file.name) % size_range

unfoldable pub final_size : ℕ → List FileInfo → ℕ
final_size size [] = size
final_size size (file ∷ files) = final_size ((size + file_size_in_buffer file) % size_range) files

unfoldable pub alloc_memory_for_files : Fallible Encoder Unit
alloc_memory_for_files e = resize_bfl (e.current_offset + final_size 0 e.files) e

unfoldable pub push_file : FileInfo → Fallible Encoder Unit
push_file file =
    push_bytes (le_bytes 1 (file_type_code file.type))
    >> (push_bytes (le_bytes 8 file.size)
        >> (push_bytes (le_bytes 2 (length file.name % 2 ^ 16)) >> push_bytes file.name))

unfoldable pub push_files : List FileInfo → Fallible Encoder Unit
push_files [] = pure tt
push_files (file ∷ files) = push_file file >> push_files files

unfoldable pub encode : Fallible Encoder Unit
encode e = (push_file_count >> (alloc_memory_for_files >> push_files e.files)) e

pub record Decoder : Type 0 where
  pub bfl : Bytes
  pub files : List FileInfo
  pub file_count : ℕ
  pub current_offset : ℕ

-- The field `files` is `data` of the source, here and above.
-- `setBFL` on a fresh decoder.
abbrev pub new_decoder : Bytes → Decoder
new_decoder bfl = record { bfl = bfl; files = []; file_count = 0; current_offset = 0 }

-- The check of the size, then `memcpy` from the offset, and the step of the offset behind it.
unfoldable pub pull_bytes : ℕ → Fallible Decoder Bytes
pull_bytes size d =
    let next = (d.current_offset + size) % size_range in
    if ltb (length d.bfl) next
    then (none, d)
    else (some (take size (drop d.current_offset d.bfl)), record d { current_offset = next })

-- `getFileCount` checks the size without the offset, which is 0 when it runs.
unfoldable pub get_file_count : Fallible Decoder Unit
get_file_count d = if ltb (length d.bfl) 4 then (none, d) else (
  some tt,
  record d {
    file_count = le_value 4 (drop d.current_offset d.bfl);
    current_offset = (d.current_offset + 4) % size_range;
  },
)

-- `getFileType`, `getFileSize` and the size in `getFileName`.
unfoldable pub get_number : ℕ → Fallible Decoder ℕ
get_number width = do bytes ← pull_bytes width; pure (le_value width bytes)

unfoldable pub get_file_name : Fallible Decoder Bytes
get_file_name = do name_size ← get_number 2; pull_bytes name_size

unfoldable pub push_back : FileInfo → Fallible Decoder Unit
push_back file d = (some tt, record d { files = d.files ++ (file ∷ []) })

unfoldable pub decode_file : Fallible Decoder Unit
decode_file = do
  type ← get_number 1
  size ← get_number 8
  name ← get_file_name
  push_back (record { name = name; type = file_type_of_code type; size = size })

unfoldable pub decode_files : ℕ → Fallible Decoder Unit
decode_files zero = pure tt
decode_files (suc n) = decode_file >> decode_files n

unfoldable pub decode : Fallible Decoder Unit
decode d = (get_file_count >>= λ _ d'. decode_files d'.file_count d') d
