-- ===== src/Transfer/Push.antt =====
-- An upload: what the client sends is what the server writes.
use smc_server_client.Common.{
  ℕ, zero, suc, ◌+◌, ◌*◌, ◌^◌, ◌<◌, ◌≤◌, Bool, true, some, List, [], ◌∷◌, ◌++◌, Bytes, length, take,
  drop, replicate, ◌≡◌, refl, sym, ap, ap₂, ◌∙◌, arith, append-nil, append_assoc, length-take,
  length-drop, length-replicate, take_all, take-append-drop, drop_all, lt→ltb, le→ltb,
}
use smc_server_client.Network.{Transport, send_buffer, read_buffer}
use smc_server_client.Network.Stream.{IsStream}
use smc_server_client.Network.Delivery.{frame, send_buffer-pending, read_buffer-pending}
use smc_server_client.Transfer.{
  Sizes, Status, done, Upload, read_into, calc_buffer_count, current_size, upload_current,
  upload_next_buffer, upload_loop, upload_file, receive_loop, receive_data, resume,
}
use smc_server_client.Transfer.Chunks.{
  frames, Fits, calc_buffer_count-Fits, current_size-before, current_size-last, read_into-enough,
  length-read_into,
}

abbrev pub before_round : Sizes → ℕ → Bytes → Upload
before_round z i rest = record { sizes = z; curr_idx = i; stream = some rest }

-- The buffers of an upload when `rounds` full ones are left.
abbrev pieces : ℕ → ℕ → Bytes → List Bytes
pieces zero size file = file ∷ []
pieces (suc rounds) size file = take size file ∷ pieces rounds size (drop size file)

-- A fresh buffer that the file can fill holds the next bytes of it.
fresh_read :
    (size : ℕ) (file : Bytes)
    → size ≤ length file
    → read_into (replicate size 0) file ≡ take size file
fresh_read size file h =
    let sized : length (replicate {A = ℕ} size 0) ≡ size = length-replicate size 0 in
    read_into-enough (replicate size 0) file (omega arith) ∙ ap (λ n. take n file) sized

module _ {S : Type 0} {net : Transport S} {pending : S → Bytes} (up : IsStream net pending) where
  push_current :
      (z : Sizes) (i size : ℕ) (file : Bytes) (s : S)
      → size ≤ length file
      → size < 2 ^ 32
      → upload_current net (some size) file (before_round z i file) s
        ≡ (done, before_round z (i + 1) (drop size file), (send_buffer net (take size file) s).1)
  unfolding upload_current
  push_current z i size file s l small =
      let fresh : Bytes = replicate size 0 in
      let sized : length fresh ≡ size = length-replicate size 0 in
      let sent =
        send_buffer-pending up (read_into fresh file) s
          (omega (arith, length-read_into fresh file)) in
      rw (sent.0, upload_current)
        (ap₂ {C = Status × Upload × S}
          (λ t b. (done, before_round z (i + 1) t, (send_buffer net b s).1))
          (ap (λ n. drop n file) sized) (fresh_read size file l))

  receive_end : (out : Bytes) (s : S) → receive_loop net 0 out s ≡ (true, out, s)
  unfolding receive_loop
  receive_end out s = refl

  receive_step :
      (rounds : ℕ) (out buffer tail : Bytes) (s : S)
      → length buffer < 2 ^ 32
      → pending s ≡ frame buffer ++ tail
      → receive_loop net (suc rounds) out s
        ≡ receive_loop net rounds (out ++ buffer) (read_buffer net s).1
  unfolding receive_loop
  receive_step rounds out buffer tail s h p =
      rw ((read_buffer-pending up buffer tail s h p).0, receive_loop) refl

  push_buffer :
      (z : Sizes) (i size : ℕ) (file : Bytes) (s : S)
      → i < z.buffer_count
      → current_size z i ≡ some size
      → size ≤ length file
      → size < 2 ^ 32
      → upload_next_buffer net (before_round z i file) s
        ≡ (done, before_round z (i + 1) (drop size file), (send_buffer net (take size file) s).1)
  unfolding upload_next_buffer
  push_buffer z i size file s h c l small = rw (lt→ltb i z.buffer_count h) (
      ap (λ t. upload_current net t file (before_round z i file) s) c
      ∙ push_current z i size file s l small)

  push_end :
      (rounds : ℕ) (z : Sizes) (i : ℕ) (file : Bytes) (s : S)
      → z.buffer_count ≤ i
      → upload_loop net rounds (before_round z i file) s ≡ (done, before_round z i file, s)
  unfolding upload_loop
  push_end zero z i file s h = rw (le→ltb i z.buffer_count h) refl
  push_end (suc rounds) z i file s h = rw (le→ltb i z.buffer_count h) refl

  push_step :
      (rounds : ℕ) (z : Sizes) (i : ℕ) (file file' : Bytes) (s s' : S)
      → i < z.buffer_count
      → upload_next_buffer net (before_round z i file) s ≡ (done, before_round z (i + 1) file', s')
      → upload_loop net (suc rounds) (before_round z i file) s
        ≡ upload_loop net rounds (before_round z (i + 1) file') s'
  unfolding upload_loop
  push_step rounds z i file file' s s' h e =
      rw (lt→ltb i z.buffer_count h) (ap (resume (upload_loop net rounds)) e)

  module _ {z : Sizes} {last rest : ℕ} (f : Fits z last rest) where
    upload_loop-pieces :
        (rounds i : ℕ) (file : Bytes) (s : S)
        → i + rounds ≡ last
        → length file ≡ rounds * z.buffer_size + rest
        → (s' : S) × (upload_loop net (suc rounds) (before_round z i file) s
            ≡ (done, before_round z (last + 1) [], s'))
          × (pending s' ≡ pending s ++ frames (pieces rounds z.buffer_size file))
    upload_loop-pieces zero i file s e n =
        let at_last : i ≡ last = omega arith in
        let got =
          push_buffer z i rest file s (omega (arith, f.count_is))
            (ap (current_size z) at_last ∙ current_size-last f) (omega arith)
            (omega (arith, f.rest_lt, f.size_lt)) in
        let whole : take rest file ≡ file = take_all rest file (omega arith) in
        (
          (send_buffer net (take rest file) s).1,
          push_step 0 z i file _ s _ (omega (arith, f.count_is)) got
              ∙ push_end 0 z (i + 1) _ _ (omega (arith, f.count_is))
              ∙ ap₂ {C = Status × Upload × S}
                  (λ j t. (done, before_round z j t, (send_buffer net (take rest file) s).1))
                  (ap (λ j. j + 1) at_last) (drop_all rest file (omega arith)),
          (send_buffer-pending up (take rest file) s
                (omega (arith, length-take rest file, f.rest_lt, f.size_lt))).1
              ∙ ap (λ t. pending s ++ t) (ap frame whole ∙ sym (append-nil (frame file))),
        )
    upload_loop-pieces (suc rounds) i file s e n =
        let piece = take z.buffer_size file in
        let enough : z.buffer_size ≤ length file = omega arith in
        let got =
          push_buffer z i z.buffer_size file s (omega (arith, f.count_is))
            (current_size-before f i (omega arith)) enough f.size_lt in
        let later =
          upload_loop-pieces rounds (i + 1) (drop z.buffer_size file) (send_buffer net piece s).1
            (omega arith) (omega (arith, length-drop z.buffer_size file)) in
        (
          later.0,
          push_step (suc rounds) z i file _ s _ (omega (arith, f.count_is)) got ∙ later.1,
          later.2
              ∙ ap (λ t. t ++ frames (pieces rounds z.buffer_size (drop z.buffer_size file)))
                  (send_buffer-pending up piece s
                    (omega (arith, length-take z.buffer_size file, f.size_lt))).1
              ∙ append_assoc (pending s) (frame piece) _,
        )

    -- The server's loop writes the buffers one behind the other.
    receive_loop-pieces :
        (rounds : ℕ) (out file tail : Bytes) (s : S)
        → length file ≡ rounds * z.buffer_size + rest
        → pending s ≡ frames (pieces rounds z.buffer_size file) ++ tail
        → (s' : S) × (receive_loop net (suc rounds) out s ≡ (true, out ++ file, s'))
          × (pending s' ≡ tail)
    receive_loop-pieces zero out file tail s n p =
        let here = p ∙ ap (λ t. t ++ tail) (append-nil (frame file)) in
        let small : length file < 2 ^ 32 = omega (arith, f.rest_lt, f.size_lt) in
        (
          (read_buffer net s).1,
          receive_step 0 out file tail s small here
              ∙ receive_end (out ++ file) (read_buffer net s).1,
          (read_buffer-pending up file tail s small here).1,
        )
    receive_loop-pieces (suc rounds) out file tail s n p =
        let piece = take z.buffer_size file in
        let left = drop z.buffer_size file in
        let here =
          p ∙ append_assoc (frame piece) (frames (pieces rounds z.buffer_size left)) tail in
        let small : length piece < 2 ^ 32 =
          omega (arith, length-take z.buffer_size file, f.size_lt) in
        let later =
          receive_loop-pieces rounds (out ++ piece) left tail (read_buffer net s).1
            (omega (arith, length-drop z.buffer_size file))
            (read_buffer-pending up piece _ s small here).1 in
        (
          later.0,
          receive_step (suc rounds) out piece _ s small here
              ∙ later.1
              ∙ ap {B = Bool × Bytes × S} (λ t. (true, t, later.0))
                  (append_assoc out piece left
                    ∙ ap (λ t. out ++ t) (take-append-drop z.buffer_size file)),
          later.2,
        )

    upload_file-receive_data :
        (file : Bytes) (s : S)
        → length file ≡ z.file_size
        → pending s ≡ []
        → (sent got : S) × (upload_file net (before_round z 0 file) s
            ≡ (done, before_round z z.buffer_count [], sent))
          × (receive_data net z sent ≡ (true, file, got))
          × (pending got ≡ [])
    unfolding upload_file receive_data
    upload_file-receive_data file s n quiet =
        let sized : length file ≡ last * z.buffer_size + rest = omega (arith, f.size_is) in
        let count : suc last ≡ z.buffer_count = omega (arith, f.count_is) in
        let sent = upload_loop-pieces last 0 file s (omega arith) sized in
        let all = pieces last z.buffer_size file in
        let wire = sent.2 ∙ ap (λ t. t ++ frames all) quiet ∙ sym (append-nil (frames all)) in
        let got = receive_loop-pieces last [] file [] sent.0 sized wire in
        (
          sent.0,
          got.0,
          sym (ap (λ k. upload_loop net k (before_round z 0 file) s) count)
              ∙ sent.1
              ∙ ap {B = Status × Upload × S} (λ k. (done, before_round z k [], sent.0))
                  {x = last + 1} {y = z.buffer_count} (omega arith),
          sym (ap (λ k. receive_loop net k [] sent.0) count) ∙ got.1,
          got.2,
        )

  -- Over a connection that is up and quiet, the client sends all of a file, and the server's loop then
  -- writes exactly that file and leaves nothing in flight: for every positive buffer size of the
  -- protocol and every file of less than 2 ^ 64 - 1 bytes, with the buffer count of the client.
  pub upload_content :
      (file : Bytes) (buffer_size : ℕ) (s : S)
      → 0 < buffer_size
      → buffer_size < 2 ^ 32
      → length file + 1 < 2 ^ 64
      → pending s ≡ []
      → let z : Sizes = record {
        file_size = length file;
        buffer_size = buffer_size;
        buffer_count = calc_buffer_count (length file) buffer_size;
      } in
        (sent got : S) × (upload_file net (before_round z 0 file) s
          ≡ (done, before_round z z.buffer_count [], sent))
        × (receive_data net z sent ≡ (true, file, got))
        × (pending got ≡ [])
  upload_content file buffer_size s p l m quiet =
      upload_file-receive_data (calc_buffer_count-Fits (length file) buffer_size p l m) file s refl
        quiet
