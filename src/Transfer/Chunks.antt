-- ===== src/Transfer/Chunks.antt =====
-- The buffers of a transfer: how many there are, what they hold, and what sending them does.
use smc_server_client.Common.{
  ℕ, zero, suc, ◌+◌, ◌*◌, ◌/◌, ◌%◌, ◌^◌, ◌<◌, ◌≤◌, Bool, true, some, List, [], ◌∷◌, ◌++◌, Bytes,
  length, take, drop, resize, ◌==◌, if◌then◌else◌, Bool-cases, ==_iff, inl, inr, ◌≡◌, refl, sym, ap,
  ◌∙◌, arith, length-resize, append-nil, append_assoc, length-append, length-take, length-drop,
  drop_all,
}
use native.Mathlib.Nat.{mod-eq_of_lt, mod-lt, div-add-mod', div-le_self}
use smc_server_client.Network.{Transport, send_buffer}
use smc_server_client.Network.Stream.{IsStream}
use smc_server_client.Network.Delivery.{frame, send_buffer-pending}
use smc_server_client.Transfer.{
  Sizes, read_into, read_rest, last_index, calc_buffer_count, fit_last, current_size, transmit_loop,
  transmit_round,
}

abbrev pub frames : List Bytes → Bytes
frames [] = []
frames (b ∷ bs) = frame b ++ frames bs

-- What the sizes of a transfer satisfy: `last` is the index of the last buffer, and `rest` the
-- number of bytes of the file in it.
pub record Fits (z : Sizes) (last rest : ℕ) : Type 0 where
  pub size_pos : 0 < z.buffer_size
  pub size_lt : z.buffer_size < 2 ^ 32
  pub count_is : z.buffer_count ≡ last + 1
  pub count_lt : z.buffer_count < 2 ^ 64
  pub rest_is : z.file_size % z.buffer_size ≡ rest
  pub rest_lt : rest < z.buffer_size
  pub size_is : z.file_size ≡ last * z.buffer_size + rest

-- The count that both sides compute fits every file below 2 ^ 64 - 1 bytes.
pub calc_buffer_count-Fits :
    (file_size buffer_size : ℕ)
    → 0 < buffer_size
    → buffer_size < 2 ^ 32
    → file_size + 1 < 2 ^ 64
    → Fits
        (record {
          file_size = file_size;
          buffer_size = buffer_size;
          buffer_count = calc_buffer_count file_size buffer_size;
        })
        (file_size / buffer_size)
        (file_size % buffer_size)
unfolding calc_buffer_count
calc_buffer_count-Fits file_size buffer_size p l m =
    let quotient : file_size / buffer_size ≤ file_size = div-le_self file_size buffer_size in
    record {
      size_pos = p;
      size_lt = l;
      count_is = mod-eq_of_lt (omega arith);
      count_lt = mod-lt _ (omega arith);
      rest_is = refl;
      rest_lt = mod-lt file_size p;
      size_is = sym (div-add-mod' file_size buffer_size);
    }

module _ {z : Sizes} {last rest : ℕ} (f : Fits z last rest) where
  last_index-Fits : last_index z.buffer_count ≡ last
  last_index-Fits = omega (arith, f.count_is, f.count_lt)

  pub current_size-before : (i : ℕ) → i < last → current_size z i ≡ some z.buffer_size
  current_size-before i h = ground (arith, last_index-Fits)

  pub current_size-last : current_size z last ≡ some rest
  current_size-last =
      let kept : rest % 2 ^ 32 ≡ rest = mod-eq_of_lt (omega (arith, f.rest_lt, f.size_lt)) in
      ground (arith, last_index-Fits, f.rest_is, f.size_pos, kept)

  pub fit_last-before : (i : ℕ) (buffer : Bytes) → i < last → fit_last z i buffer ≡ buffer
  fit_last-before i buffer h = ground (arith, last_index-Fits)

  pub fit_last-last :
      (buffer : Bytes) → fit_last z last buffer ≡ (if rest == 0 then buffer else resize rest buffer)
  fit_last-last buffer = ground (arith, last_index-Fits, f.rest_is)

-- Where the file has enough bytes, a read fills the buffer with them.
pub read_into-enough :
    (buffer file : Bytes)
    → length buffer ≤ length file
    → read_into buffer file ≡ take (length buffer) file
read_into-enough buffer file h =
    ap (λ t. take (length buffer) file ++ t) (drop_all (length file) buffer h)
    ∙ append-nil (take (length buffer) file)

pub length-read_into : (buffer file : Bytes) → length (read_into buffer file) ≡ length buffer
length-read_into buffer file = omega (
  arith,
  length-append (take (length buffer) file) (drop (length file) buffer),
  length-take (length buffer) file,
  length-drop (length file) buffer,
)

module _ {z : Sizes} {last rest : ℕ} (f : Fits z last rest) where
  -- The last buffer holds the rest of the file, and is none that the wire refuses.
  pub length-fitted :
      (buffer : Bytes)
      → length buffer ≡ z.buffer_size
      → length (if rest == 0 then buffer else resize rest buffer) < 2 ^ 32
  length-fitted buffer l = elim (Bool-cases (rest == 0)) [
    | inl none_left ↦ rw none_left (omega (arith, f.size_lt))
    | inr some_left ↦ rw some_left (omega (arith, length-resize rest buffer, f.rest_lt, f.size_lt))
  ]

  pub rest-le-fitted :
      (buffer : Bytes) → rest ≤ length (if rest == 0 then buffer else resize rest buffer)
  rest-le-fitted buffer = elim (Bool-cases (rest == 0)) [
    | inl none_left ↦ rw none_left (omega (arith, (==_iff rest 0).0 none_left))
    | inr some_left ↦ rw some_left (omega (arith, length-resize rest buffer))
  ]

-- The buffers that the server sends for a download when `rounds` full ones are left. A file whose
-- size is a multiple of the buffer's ends with a buffer that holds what the one before it held.
abbrev pub chunks : ℕ → ℕ → Bytes → Bytes → List Bytes
chunks zero rest buffer file =
    read_into (if rest == 0 then buffer else resize rest buffer) file ∷ []
chunks (suc rounds) rest buffer file =
    read_into buffer file ∷ chunks rounds rest (read_into buffer file) (read_rest buffer file)

module _ {S : Type 0} {net : Transport S} {pending : S → Bytes} (up : IsStream net pending) where
  transmit_round-sent :
      (later : Bytes → Bytes → S → Bool × S) (fitted file : Bytes) (s : S)
      → length fitted < 2 ^ 32
      → transmit_round net later fitted file s
        ≡ later
            (read_into fitted file)
            (read_rest fitted file)
            (send_buffer net (read_into fitted file) s).1
  unfolding transmit_round
  transmit_round-sent later fitted file s h =
      rw
        (
          (send_buffer-pending up (read_into fitted file) s
              (omega (arith, length-read_into fitted file))).0,
          transmit_round,
        )
        refl

  pending-sent :
      (filled : Bytes) (s : S)
      → length filled < 2 ^ 32
      → pending (send_buffer net filled s).1 ≡ pending s ++ frame filled
  pending-sent filled s h = (send_buffer-pending up filled s h).1

  module _ {z : Sizes} {last rest : ℕ} (f : Fits z last rest) where
    pub transmit_loop-chunks :
        (rounds i : ℕ) (buffer file : Bytes) (s : S)
        → i + rounds ≡ last
        → length buffer ≡ z.buffer_size
        → ((transmit_loop net (suc rounds) z i buffer file s).0 ≡ true)
          × (pending (transmit_loop net (suc rounds) z i buffer file s).1
              ≡ pending s ++ frames (chunks rounds rest buffer file))
    unfolding transmit_loop
    transmit_loop-chunks zero i buffer file s e l =
        let fitted = if rest == 0 then buffer else resize rest buffer in
        let at_last : i ≡ last = omega arith in
        let small = length-fitted f buffer l in
        let step : transmit_loop net 1 z i buffer file s
            ≡ (true, (send_buffer net (read_into fitted file) s).1) =
          ap (λ t. transmit_round net (transmit_loop net 0 z (i + 1)) t file s)
            (ap (λ j. fit_last z j buffer) at_last ∙ fit_last-last f buffer)
          ∙ transmit_round-sent (transmit_loop net 0 z (i + 1)) fitted file s small in
        rw step (
          refl,
          pending-sent (read_into fitted file) s
                (omega (arith, length-read_into fitted file, small))
              ∙ ap (λ t. pending s ++ t) (sym (append-nil (frame (read_into fitted file)))),
        )
    transmit_loop-chunks (suc rounds) i buffer file s e l =
        let filled = read_into buffer file in
        let s' = (send_buffer net filled s).1 in
        let small : length filled < 2 ^ 32 =
          omega (arith, length-read_into buffer file, f.size_lt) in
        let later =
          transmit_loop-chunks rounds (i + 1) filled (read_rest buffer file) s' (omega arith)
            (length-read_into buffer file ∙ l) in
        let step : transmit_loop net (suc (suc rounds)) z i buffer file s
            ≡ transmit_loop net (suc rounds) z (i + 1) filled (read_rest buffer file) s' =
          ap (λ t. transmit_round net (transmit_loop net (suc rounds) z (i + 1)) t file s)
            (fit_last-before f i buffer (omega arith))
          ∙ transmit_round-sent (transmit_loop net (suc rounds) z (i + 1)) buffer file s
              (omega (arith, f.size_lt)) in
        rw step (
          later.0,
          later.1
              ∙ ap (λ t. t ++ frames (chunks rounds rest filled (read_rest buffer file)))
                  (pending-sent filled s small)
              ∙ append_assoc (pending s) (frame filled) _,
        )
