-- ===== src/Server/IoContent.antt =====
-- Server/src/network/request/handlers/io_get_file_content.cpp and io_set_file_content.cpp: the `_run`
-- of both, around the loops of Transfer.
pub mod Unchecked
use smc_server_client.Common.{
  ℕ, Bool, true, false, Option, none, some, [], ◌∷◌, ◌++◌, Bytes, codes, length, if◌then◌else◌,
  Fallible, ◌>>=◌, ◌>>◌, pure,
}
use smc_server_client.Text.{to_string}
use smc_server_client.Wire.{Extract, extract_int, insert_int}
use smc_server_client.Paths.{FilePath, parent_path, string}
use smc_server_client.Network.{Transport}
use smc_server_client.Protocol.Response.{io_invalid_buffer_size, io_open_file_error}
use smc_server_client.Transfer.{
  Sizes, calc_buffer_count, check_buffer_size, transmit_data, receive_data,
}
use smc_server_client.Server.Handler.{Rh, send_response}
use smc_server_client.Server.Requests.{extracting}
use smc_server_client.Server.Disk.{Disk, Answer, failed, ok}
use smc_server_client.Server.Sfs.{Directories}
use smc_server_client.Server.Sfs.Changes.{Work, refuse, answered, quoted}
use smc_server_client.Server.Io.{Outside, on_wire, disk_of, on_disk, inserting, extract_abs_path}

abbrev pub invalid_buffer_size : ℕ → ℕ → Bytes
invalid_buffer_size max_buffer_size buffer_size =
    codes "invalid buffer size: "
    ++ (to_string buffer_size
        ++ (codes " (minimum is 1, maximum is " ++ (to_string max_buffer_size ++ codes ")")))

abbrev pub cannot_open : FilePath → Bytes
cannot_open path = codes "cannot open file " ++ (quoted path ++ codes ": ")

-- `extractFileSize`, `extractBufferSize` and `extractBufferCount`.
unfoldable pub extract_sizes : Extract Sizes
extract_sizes = do
  file_size ← extract_int 8
  buffer_size ← extract_int 4
  buffer_count ← extract_int 8
  pure (record { file_size = file_size; buffer_size = buffer_size; buffer_count = buffer_count })

module _ {D : Type 0} where
  unfoldable pub require_buffer_size : ℕ → ℕ → Fallible (Work D) Unit
  require_buffer_size max_buffer_size buffer_size w =
      if check_buffer_size max_buffer_size buffer_size
      then (some tt, w)
      else refuse io_invalid_buffer_size (invalid_buffer_size max_buffer_size buffer_size) w

  unfoldable pub open_input : Disk D → FilePath → Fallible (Work D) Bytes
  open_input os path w =
      answered (λ d. (os.read_file path d, d)) io_open_file_error (cannot_open path) w

  -- The directories are made or not; the stream then tells.
  unfoldable pub open_output : Disk D → FilePath → Fallible (Work D) Unit
  open_output os path w =
      answered (os.open_output path) io_open_file_error (cannot_open path)
        (record w { disk = (os.create_directories (parent_path path) w.disk).1 })

module _ {W D : Type 0} (net : Transport W) (os : Disk D) (dirs : Directories)
    (max_buffer_size : ℕ) where
  -- `sendResponse` and `transmitData`, behind the sizes in the response.
  unfoldable pub transmit_content : ℕ → Bytes → Fallible (Rh (Outside W D)) Unit
  transmit_content buffer_size content h =
      let sizes : Sizes = record {
        file_size = length content;
        buffer_size = buffer_size;
        buffer_count = calc_buffer_count (length content) buffer_size;
      } in
      let (sent, g) = send_response (on_wire net) h in
      let (all, o) = transmit_data (on_wire net) sizes content g.session.socket in
      if sent then (some tt, record g { session = record g.session { socket = o } }) else (none, g)

  unfoldable pub send_file : ℕ → Bytes → Fallible (Rh (Outside W D)) Unit
  unfolding transmit_content
  send_file buffer_size content =
      inserting (insert_int 8 (length content))
      >> (inserting (insert_int 8 (calc_buffer_count (length content) buffer_size))
          >> transmit_content buffer_size content)

  unfoldable pub get_file_content : FilePath → ℕ → Fallible (Rh (Outside W D)) Unit
  unfolding send_file
  get_file_content path buffer_size =
      on_disk (require_buffer_size max_buffer_size buffer_size)
      >> (on_disk (open_input os path) >>= send_file buffer_size)

  unfoldable pub run_get_file_content : Fallible (Rh (Outside W D)) Unit
  unfolding get_file_content
  run_get_file_content =
      extract_abs_path os dirs >>= λ path. extracting (extract_int 4) >>= get_file_content path

  -- `sendResponse` and `transmitData`; what was received is in the file when it is closed.
  unfoldable pub receive_content : FilePath → Sizes → Fallible (Rh (Outside W D)) Unit
  receive_content path sizes h =
      let (sent, g) = send_response (on_wire net) h in
      let (all, content, o) = receive_data (on_wire net) sizes g.session.socket in
      if sent
      then (
        some tt,
        record g {
          session = record g.session {
            socket = record o { disk = os.write_output path content o.disk };
          };
        },
      )
      else (none, g)

  unfoldable pub set_file_content : FilePath → Sizes → Fallible (Rh (Outside W D)) Unit
  unfolding receive_content
  set_file_content path sizes =
      on_disk (require_buffer_size max_buffer_size sizes.buffer_size)
      >> (on_disk (open_output os path) >> receive_content path sizes)

  unfoldable pub run_set_file_content : Fallible (Rh (Outside W D)) Unit
  unfolding set_file_content
  run_set_file_content =
      extract_abs_path os dirs >>= λ path. extracting extract_sizes >>= set_file_content path
