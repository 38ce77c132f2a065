-- ===== src/Transfer.antt =====
-- The file transfers: Server/src/network/request/handlers/io_get_file_content.cpp and
-- io_set_file_content.cpp, src/network/request/handlers/io_get_file_content.cpp and
-- io_set_file_content.cpp, and the loops of src/shell/commands/io_load/file_downloader.cpp and
-- file_uploader.cpp. A file that is read is the bytes behind its position; a file that is written is
-- the bytes written so far.
pub mod Chunks
pub mod Fetch
pub mod Push
use smc_server_client.Common.{
  ℕ, zero, suc, ◌+◌, ◌-◌, ◌/◌, ◌%◌, ◌^◌, Bool, true, false, not, ◌&&◌, Option, none, some, List, [],
  ◌∷◌, ◌++◌, Bytes, length, take, drop, replicate, resize, ltb, ◌==◌, if◌then◌else◌,
}
use smc_server_client.Network.{Transport, send_buffer, read_buffer}

-- `std::istream::read` over the whole buffer: past the end of the file the buffer keeps its bytes.
abbrev pub read_into : Bytes → Bytes → Bytes
read_into buffer file = take (length buffer) file ++ drop (length file) buffer

abbrev pub read_rest : Bytes → Bytes → Bytes
read_rest buffer file = drop (length buffer) file

-- `buffer_count - 1` on `network_buffer_count_t`.
abbrev pub last_index : ℕ → ℕ
last_index buffer_count = (buffer_count + 2 ^ 64 - 1) % 2 ^ 64

-- `file_size / buffer_size + 1`, by `openFile` and `calcBufferCount`.
unfoldable pub calc_buffer_count : ℕ → ℕ → ℕ
calc_buffer_count file_size buffer_size = (file_size / buffer_size + 1) % 2 ^ 64

-- `checkBufferSize`: true if the request goes on.
unfoldable pub check_buffer_size : ℕ → ℕ → Bool
check_buffer_size max_buffer_size buffer_size =
    not (buffer_size == 0) && not (ltb max_buffer_size buffer_size)

-- How a step ends. `fault` is undefined behaviour; `stuck` is a loop that ran out of rounds.
pub data Status : Type 0 where
  done failed fault stuck : Status

pub record Sizes : Type 0 where
  pub file_size : ℕ
  pub buffer_size : ℕ
  pub buffer_count : ℕ

-- The server's buffer before round `i`.
abbrev pub fit_last : Sizes → ℕ → Bytes → Bytes
fit_last z i buffer =
    if i == last_index z.buffer_count && not (z.file_size % z.buffer_size == 0)
    then resize (z.file_size % z.buffer_size) buffer
    else buffer

-- The client's buffer size for round `i`, a `network_buffer_t`; none where it divides by zero.
abbrev pub current_size : Sizes → ℕ → Option ℕ
current_size z i =
    if i == last_index z.buffer_count
    then (if z.buffer_size == 0 then none else some (z.file_size % z.buffer_size % 2 ^ 32))
    else some z.buffer_size

module _ {S : Type 0} (net : Transport S) where
  -- One round of the server's loop over the buffer that fits the round, and what comes behind it.
  pub transmit_round : (Bytes → Bytes → S → Bool × S) → Bytes → Bytes → S → Bool × S
  transmit_round later fitted file s =
      let filled = read_into fitted file in
      let (sent, s') = send_buffer net filled s in
      elim sent [ true ↦ later filled (read_rest fitted file) s' | false ↦ (false, s') ]

  -- `transmitData` of the server's download handler, from round `i` on.
  pub transmit_loop : ℕ → Sizes → ℕ → Bytes → Bytes → S → Bool × S
  transmit_loop zero z i buffer file s = (true, s)
  transmit_loop (suc rounds) z i buffer file s =
      transmit_round (transmit_loop rounds z (i + 1)) (fit_last z i buffer) file s

  unfoldable pub transmit_data : Sizes → Bytes → S → Bool × S
  unfolding transmit_loop transmit_round
  transmit_data z file s = transmit_loop z.buffer_count z 0 (replicate z.buffer_size 0) file s

  -- `transmitData` of the server's upload handler: `readBuffer` gives the buffer the size that it
  -- reads, and all of it is written. The result has the written file.
  pub receive_loop : ℕ → Bytes → S → Bool × Bytes × S
  receive_loop zero file s = (true, file, s)
  receive_loop (suc rounds) file s =
      let (r, s') = read_buffer net s in
      elim r [ none ↦ (false, file, s') | some buffer ↦ receive_loop rounds (file ++ buffer) s' ]

  unfoldable pub receive_data : Sizes → S → Bool × Bytes × S
  unfolding receive_loop
  receive_data z s = receive_loop z.buffer_count [] s

-- The client's handler of a download: `stream` is what was written to the output.
pub record Download : Type 0 where
  pub sizes : Sizes
  pub curr_idx : ℕ
  pub stream : Option Bytes

-- The client's handler of an upload: `stream` is what is left of the input.
pub record Upload : Type 0 where
  pub sizes : Sizes
  pub curr_idx : ℕ
  pub stream : Option Bytes

-- A loop goes on after a step that was done, and returns from any other.
abbrev pub resume : {H S : Type 0} → (H → S → Status × H × S) → Status × H × S → Status × H × S
resume later (done, h, s) = later h s
resume later (failed, h, s) = (failed, h, s)
resume later (fault, h, s) = (fault, h, s)
resume later (stuck, h, s) = (stuck, h, s)

module _ {S : Type 0} (net : Transport S) where
  -- `stream->write(buffer.data(), curr_buffer_size)` reads past a buffer that is too short.
  pub write_current : Option ℕ → Bytes → Bytes → Download → S → Status × Download × S
  write_current none out buffer d s = (fault, d, s)
  write_current (some size) out buffer d s = if ltb (length buffer) size then (fault, d, s) else (
    done,
    record d { stream = some (out ++ take size buffer); curr_idx = d.curr_idx + 1 },
    s,
  )

  pub download_available : Bytes → Download → S → Status × Download × S
  unfolding write_current
  download_available out d s =
      let (r, s') = read_buffer net s in
      elim r [
        | none ↦ (failed, d, s')
        | some buffer ↦ write_current (current_size d.sizes d.curr_idx) out buffer d s'
      ]

  unfoldable pub download_next_buffer : Download → S → Status × Download × S
  unfolding download_available
  download_next_buffer d s = elim d.stream [
    | none ↦ (failed, d, s)
    | some out ↦
        if ltb d.curr_idx d.sizes.buffer_count then download_available out d s else (failed, d, s)
  ]

  -- The loop of `downloadFile`, while the handler is available.
  pub download_loop : ℕ → Download → S → Status × Download × S
  download_loop zero d s =
      if ltb d.curr_idx d.sizes.buffer_count then (stuck, d, s) else (done, d, s)
  download_loop (suc rounds) d s =
      let more = resume (download_loop rounds) (download_next_buffer d s) in
      if ltb d.curr_idx d.sizes.buffer_count then more else (done, d, s)

  unfoldable pub download_file : Download → S → Status × Download × S
  unfolding download_loop
  download_file d s = download_loop d.sizes.buffer_count d s

  pub upload_current : Option ℕ → Bytes → Upload → S → Status × Upload × S
  upload_current none rest u s = (fault, u, s)
  upload_current (some size) rest u s =
      let buffer = replicate size 0 in
      let (sent, s') = send_buffer net (read_into buffer rest) s in
      elim sent [
        | true ↦ (
          done,
          record u { stream = some (read_rest buffer rest); curr_idx = u.curr_idx + 1 },
          s',
        )
        | false ↦ (failed, record u { stream = some (read_rest buffer rest) }, s')
      ]

  unfoldable pub upload_next_buffer : Upload → S → Status × Upload × S
  unfolding upload_current
  upload_next_buffer u s = elim u.stream [
    | none ↦ (failed, u, s)
    | some rest ↦
        if ltb u.curr_idx u.sizes.buffer_count
        then upload_current (current_size u.sizes u.curr_idx) rest u s
        else (failed, u, s)
  ]

  pub upload_loop : ℕ → Upload → S → Status × Upload × S
  upload_loop zero u s = if ltb u.curr_idx u.sizes.buffer_count then (stuck, u, s) else (done, u, s)
  upload_loop (suc rounds) u s =
      let more = resume (upload_loop rounds) (upload_next_buffer u s) in
      if ltb u.curr_idx u.sizes.buffer_count then more else (done, u, s)

  unfoldable pub upload_file : Upload → S → Status × Upload × S
  unfolding upload_loop
  upload_file u s = upload_loop u.sizes.buffer_count u s
