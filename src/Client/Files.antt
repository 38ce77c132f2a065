-- ===== src/Client/Files.antt =====
-- src/network/request/handlers: the requests about files, and util/get_dir_content_recursively.cpp. A
-- setter of the source is an argument, and a getter is the result.
pub mod Recursive
use smc_server_client.Common.{
  ℕ, zero, suc, Bool, true, false, not, ◌&&◌, Option, none, some, List, [], ◌∷◌, ◌++◌, Bytes,
  if◌then◌else◌, Fallible, ◌>>=◌, ◌>>◌, pure, fail,
}
use smc_server_client.Wire.{extract_int, extract_bool, extract_buffer, insert_int, insert_string}
use smc_server_client.Wire.PathFields.{extract_path, insert_path}
use smc_server_client.Paths.{FilePath, path_of, ◌/path◌}
use smc_server_client.Network.{Transport}
use smc_server_client.Protocol.Request.{RequestId, io_get_dir_content}
use smc_server_client.Protocol.Files.{
  FileInfo, FileType, no_file, file, directory, other_file, file_type_of_code, is_valid,
}
use smc_server_client.Bfl.{new_decoder, decode}
use smc_server_client.Transfer.{Sizes, calc_buffer_count}
use smc_server_client.Client.Handler.{
  ClientRh, new_request, inserting, reading, send_request, check_response,
}

module _ {S : Type 0} (net : Transport S) where
  -- `sendRequest() && checkResponse()`.
  abbrev pub exchange : Fallible (ClientRh S) Unit
  exchange = send_request net >> check_response net

  -- A copy and a move.
  unfoldable pub request_two_paths : FilePath → FilePath → Fallible (ClientRh S) Unit
  request_two_paths input_path output_path =
      inserting (insert_path input_path) >> (inserting (insert_path output_path) >> exchange)

  -- The making of a file and of a directory.
  unfoldable pub request_create : FilePath → Fallible (ClientRh S) Unit
  request_create path = inserting (insert_path path) >> exchange

  unfoldable pub request_delete : FilePath → Fallible (ClientRh S) ℕ
  request_delete path = inserting (insert_path path) >> (exchange >> reading (extract_int 4))

  unfoldable pub request_exists : FilePath → Fallible (ClientRh S) Bool
  request_exists path = inserting (insert_path path) >> (exchange >> reading extract_bool)

  -- The buffer is decoded by the decoder of the handler; `none` is its `false`.
  unfoldable pub decode_list : Bytes → Fallible (ClientRh S) (List FileInfo)
  decode_list bfl h = elim (decode (new_decoder bfl)).0 [
    | none ↦ (none, h)
    | some v ↦ (some (decode (new_decoder bfl)).1.files, h)
  ]

  unfoldable pub request_dir_content : FilePath → Fallible (ClientRh S) (List FileInfo)
  unfolding decode_list
  request_dir_content path =
      inserting (insert_path path)
      >> (exchange >> (reading (extract_buffer 4) >>= λ bfl. decode_list bfl))

  unfoldable pub request_file_size : FilePath → Fallible (ClientRh S) ℕ
  request_file_size path = inserting (insert_path path) >> (exchange >> reading (extract_int 8))

  unfoldable pub extract_file_type : Fallible (ClientRh S) FileType
  extract_file_type = reading (extract_int 1) >>= λ byte.
      if is_valid (file_type_of_code byte) then pure (file_type_of_code byte) else fail

  unfoldable pub request_file_type : FilePath → Fallible (ClientRh S) FileType
  unfolding extract_file_type
  request_file_type path = inserting (insert_path path) >> (exchange >> extract_file_type)

  unfoldable pub request_real_path : FilePath → Fallible (ClientRh S) FilePath
  request_real_path input_path =
      inserting (insert_path input_path) >> (exchange >> reading extract_path)

  unfoldable pub request_file_name : FilePath → Bytes → Fallible (ClientRh S) Unit
  request_file_name path new_name =
      inserting (insert_path path) >> (inserting (insert_string 2 new_name) >> exchange)

  -- The start of a download, with the sizes that the loop then uses.
  unfoldable pub request_download : ℕ → FilePath → Fallible (ClientRh S) Sizes
  request_download buffer_size path =
      inserting (λ b. insert_int 4 buffer_size (insert_path path b))
      >> (exchange
          >> (reading (extract_int 8) >>= λ size. reading (extract_int 8) >>= λ buffer_count.
              pure (record {
                file_size = size;
                buffer_size = buffer_size;
                buffer_count = buffer_count;
              })))

  -- The start of an upload.
  unfoldable pub request_upload : ℕ → ℕ → FilePath → Fallible (ClientRh S) Sizes
  request_upload buffer_size size path =
      let buffer_count = calc_buffer_count size buffer_size in
      inserting (λ b.
        insert_int 8 buffer_count
          (insert_int 4 buffer_size (insert_int 8 size (insert_path path b))))
      >> (exchange
          >> pure
              (record { file_size = size; buffer_size = buffer_size; buffer_count = buffer_count }))

  -- One listing: a new handler on the socket, run once.
  unfoldable pub list_directory : FilePath → Fallible S (List FileInfo)
  list_directory path s =
      let (r, h) = request_dir_content path (new_request io_get_dir_content s) in (r, h.socket)

abbrev pub is_directory_type : FileType → Bool
is_directory_type directory = true
is_directory_type _ = false

abbrev pub is_file_type : FileType → Bool
is_file_type file = true
is_file_type _ = false

-- `GetDirContentRecursively`: `list` is the listing of one directory. The rounds bound the depth of the
-- directories; where they run out nothing is found.
module _ {S : Type 0} (list : FilePath → Fallible S (List FileInfo)) where
  -- The files of a listing, in its order; `later` adds the content of a directory.
  pub add_infos :
      (FilePath → Fallible S (List FilePath))
      → FilePath
      → List FileInfo
      → Fallible S (List FilePath)
  add_infos later path [] = pure []
  add_infos later path (info ∷ infos) =
      let target = path /path path_of info.name in
      let one : Fallible S (List FilePath) =
        if is_directory_type info.type
        then later target
        else pure (if is_file_type info.type then target ∷ [] else []) in
      one >>= λ found. add_infos later path infos >>= λ more. pure (found ++ more)

  pub add_content_of : ℕ → FilePath → Fallible S (List FilePath)
  add_content_of zero path = fail
  add_content_of (suc rounds) path =
      list path >>= λ infos. add_infos (add_content_of rounds) path infos
