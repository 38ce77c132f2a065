-- ===== src/Transfer/Fetch.antt =====
-- A download: what the server sends is what the client writes.
use smc_server_client.Common.{
  resize, length-resize, ℕ, zero, suc, ◌+◌, ◌*◌, ◌^◌, ◌<◌, ◌≤◌, true, some, [], ◌∷◌, ◌++◌, Bytes,
  length, take, replicate, ◌==◌, if◌then◌else◌, Bool-cases, ==_iff, inl, inr, ◌≡◌, refl, sym, ap,
  ap₂, ◌∙◌, arith, subst, append-nil, append_assoc, length-drop, length-replicate, take_all,
  take-append-drop, lt→ltb, le→ltb,
}
use smc_server_client.Network.{Transport, read_buffer}
use smc_server_client.Network.Stream.{IsStream}
use smc_server_client.Network.Delivery.{frame, read_buffer-pending}
use smc_server_client.Transfer.{
  Sizes, Status, transmit_loop, done, Download, read_into, read_rest, calc_buffer_count,
  current_size, transmit_data, download_available, download_next_buffer, download_loop,
  download_file, resume,
}
use smc_server_client.Transfer.Chunks.{
  frames, chunks, Fits, calc_buffer_count-Fits, current_size-before, current_size-last,
  read_into-enough, length-read_into, transmit_loop-chunks, length-fitted, rest-le-fitted,
}

abbrev pub at_round : Sizes → ℕ → Bytes → Download
at_round z i out = record { sizes = z; curr_idx = i; stream = some out }

-- A full buffer and what is behind it make up the file.
rejoin :
    (size : ℕ) (out buffer file : Bytes)
    → size ≡ length buffer
    → length buffer ≤ length file
    → (out ++ take size (read_into buffer file)) ++ read_rest buffer file ≡ out ++ file
rejoin size out buffer file e h =
    let filled = read_into buffer file in
    append_assoc out (take size filled) (read_rest buffer file)
    ∙ ap (λ t. out ++ (t ++ read_rest buffer file))
        (take_all size filled (omega (arith, length-read_into buffer file))
          ∙ read_into-enough buffer file h)
    ∙ ap (λ t. out ++ t) (take-append-drop (length buffer) file)

-- Of the last buffer just the rest of the file is used.
last_part :
    (rest : ℕ) (buffer file : Bytes)
    → length file ≡ rest
    → take rest (read_into (if rest == 0 then buffer else resize rest buffer) file) ≡ file
last_part rest buffer [] n =
    ap (λ k. take k (read_into (if rest == 0 then buffer else resize rest buffer) [])) (sym n)
last_part rest buffer (c ∷ file) n = elim (Bool-cases (rest == 0)) [
  | inl none_left ↦ absurd (omega (arith, (==_iff rest 0).0 none_left))
  | inr some_left ↦
      let fitted = resize rest buffer in
      let whole : read_into fitted (c ∷ file) ≡ c ∷ file =
        read_into-enough fitted (c ∷ file) (omega (arith, length-resize rest buffer))
        ∙ take_all (length fitted) (c ∷ file) (omega (arith, length-resize rest buffer)) in
      rw some_left (ap (take rest) whole ∙ take_all rest (c ∷ file) (omega arith))
]

module _ {S : Type 0} {net : Transport S} {pending : S → Bytes} (up : IsStream net pending) where
  next_buffer :
      (z : Sizes) (i size : ℕ) (out buffer tail : Bytes) (s : S)
      → i < z.buffer_count
      → current_size z i ≡ some size
      → size ≤ length buffer
      → length buffer < 2 ^ 32
      → pending s ≡ frame buffer ++ tail
      → download_next_buffer net (at_round z i out) s
        ≡ (done, at_round z (i + 1) (out ++ take size buffer), (read_buffer net s).1)
  unfolding download_next_buffer
  next_buffer z i size out buffer tail s h c l small e = rw (lt→ltb i z.buffer_count h) (
      rw ((read_buffer-pending up buffer tail s small e).0, download_available)
        (rw c (rw (le→ltb (length buffer) size l) refl)))

  -- The loop ends where the index reaches the count.
  loop_end :
      (rounds : ℕ) (z : Sizes) (i : ℕ) (out : Bytes) (s : S)
      → z.buffer_count ≤ i
      → download_loop net rounds (at_round z i out) s ≡ (done, at_round z i out, s)
  unfolding download_loop
  loop_end zero z i out s h = rw (le→ltb i z.buffer_count h) refl
  loop_end (suc rounds) z i out s h = rw (le→ltb i z.buffer_count h) refl

  loop_step :
      (rounds : ℕ) (z : Sizes) (i : ℕ) (out out' : Bytes) (s s' : S)
      → i < z.buffer_count
      → download_next_buffer net (at_round z i out) s ≡ (done, at_round z (i + 1) out', s')
      → download_loop net (suc rounds) (at_round z i out) s
        ≡ download_loop net rounds (at_round z (i + 1) out') s'
  unfolding download_loop
  loop_step rounds z i out out' s s' h e =
      rw (lt→ltb i z.buffer_count h) (ap (resume (download_loop net rounds)) e)

  module _ {z : Sizes} {last rest : ℕ} (f : Fits z last rest) where
    -- From round `i` on, over the buffers that the server sends.
    download_loop-chunks :
        (rounds i : ℕ) (out buffer file tail : Bytes) (s : S)
        → i + rounds ≡ last
        → length buffer ≡ z.buffer_size
        → length file ≡ rounds * z.buffer_size + rest
        → pending s ≡ frames (chunks rounds rest buffer file) ++ tail
        → (s' : S) × (download_loop net (suc rounds) (at_round z i out) s
            ≡ (done, at_round z (last + 1) (out ++ file), s'))
          × (pending s' ≡ tail)
    download_loop-chunks zero i out buffer file tail s e l n p =
        let filled = read_into (if rest == 0 then buffer else resize rest buffer) file in
        let fits : length filled < 2 ^ 32 = omega (
          arith,
          length-read_into (if rest == 0 then buffer else resize rest buffer) file,
          length-fitted f buffer l,
        ) in
        let here = p ∙ ap (λ t. t ++ tail) (append-nil (frame filled)) in
        let at_last : i ≡ last = omega arith in
        let got =
          next_buffer z i rest out filled tail s (omega (arith, f.count_is))
            (ap (current_size z) at_last ∙ current_size-last f)
            (omega (
              arith,
              length-read_into (if rest == 0 then buffer else resize rest buffer) file,
              rest-le-fitted f buffer,
            ))
            fits here in
        (
          (read_buffer net s).1,
          loop_step 0 z i out _ s _ (omega (arith, f.count_is)) got
              ∙ loop_end 0 z (i + 1) _ _ (omega (arith, f.count_is))
              ∙ ap₂ {C = Status × Download × S}
                  (λ j t. (done, at_round z j t, (read_buffer net s).1)) (ap (λ j. j + 1) at_last)
                  (ap (λ t. out ++ t) (last_part rest buffer file (omega arith))),
          (read_buffer-pending up filled tail s fits here).1,
        )
    download_loop-chunks (suc rounds) i out buffer file tail s e l n p =
        let filled = read_into buffer file in
        let here = p ∙ append_assoc (frame filled) _ tail in
        let got =
          next_buffer z i z.buffer_size out filled _ s (omega (arith, f.count_is))
            (current_size-before f i (omega arith)) (omega (arith, length-read_into buffer file))
            (omega (arith, length-read_into buffer file, f.size_lt)) here in
        let later =
          download_loop-chunks rounds (i + 1) _ filled (read_rest buffer file) tail
            (read_buffer net s).1 (omega arith) (length-read_into buffer file ∙ l)
            (omega (arith, length-drop (length buffer) file))
            (read_buffer-pending up filled _ s
              (omega (arith, length-read_into buffer file, f.size_lt)) here).1 in
        (
          later.0,
          loop_step (suc rounds) z i out _ s _ (omega (arith, f.count_is)) got
              ∙ later.1
              ∙ ap {B = Status × Download × S} (λ t. (done, at_round z (last + 1) t, later.0))
                  (rejoin z.buffer_size out buffer file (sym l) (omega arith)),
          later.2,
        )

    -- At any sizes that fit the file.
    pub download_file-transmit_data :
        (file : Bytes) (s : S)
        → length file ≡ z.file_size
        → pending s ≡ []
        → ((transmit_data net z file s).0 ≡ true)
          × ((s' : S) × (download_file net (at_round z 0 []) (transmit_data net z file s).1
                ≡ (done, at_round z z.buffer_count file, s'))
              × (pending s' ≡ []))
    unfolding transmit_data download_file
    download_file-transmit_data file s n quiet =
        let fresh : Bytes = replicate z.buffer_size 0 in
        let sized : length fresh ≡ z.buffer_size = length-replicate z.buffer_size 0 in
        let sent = transmit_loop-chunks up f last 0 fresh file s (omega arith) sized in
        let wire =
          sent.1
          ∙ ap (λ t. t ++ frames (chunks last rest fresh file)) quiet
          ∙ sym (append-nil (frames (chunks last rest fresh file))) in
        let got =
          download_loop-chunks last 0 [] fresh file []
            (transmit_loop net (suc last) z 0 fresh file s).1 (omega arith) sized
            (omega (arith, f.size_is)) wire in
        let whole =
          got.1
          ∙ ap {B = Status × Download × S} (λ k. (done, at_round z k file, got.0)) {x = last + 1}
              {y = suc last} (omega arith) in
        subst
          (λ k.
            ((transmit_loop net k z 0 fresh file s).0 ≡ true)
            × ((s' : S) × (download_loop net k (at_round z 0 [])
                    (transmit_loop net k z 0 fresh file s).1
                  ≡ (done, at_round z k file, s'))
                × (pending s' ≡ [])))
          {x = suc last} {y = z.buffer_count} (omega (arith, f.count_is))
          (sent.0, (got.0, whole, got.2))

  -- Over a connection that is up and quiet, the server sends all buffers of a file, and the download
  -- that the client then runs ends done, with exactly the file written and nothing left in flight:
  -- for every positive buffer size of the protocol and every file of less than 2 ^ 64 - 1 bytes, with
  -- the buffer count that the server computes.
  pub download_content :
      (file : Bytes) (buffer_size : ℕ) (s : S)
      → 0 < buffer_size
      → buffer_size < 2 ^ 32
      → length file + 1 < 2 ^ 64
      → pending s ≡ []
      → let z : Sizes = record {
        file_size = length file;
        buffer_size = buffer_size;
        buffer_count = calc_buffer_count (length file) buffer_size;
      } in
        ((transmit_data net z file s).0 ≡ true)
        × ((s' : S) × (download_file net (at_round z 0 []) (transmit_data net z file s).1
              ≡ (done, at_round z z.buffer_count file, s'))
            × (pending s' ≡ []))
  download_content file buffer_size s p l m quiet =
      download_file-transmit_data (calc_buffer_count-Fits (length file) buffer_size p l m) file s
        refl quiet
