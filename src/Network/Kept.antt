-- ===== src/Network/Kept.antt =====
-- What every write over a connection keeps, the sending of a buffer keeps.
use smc_server_client.Common.{
  ℕ, ◌%◌, ◌^◌, true, false, Option, none, some, Bool, Bytes, length, ltb, if◌then◌else◌, Bool-cases,
  inl, inr,
}
use smc_server_client.Wire.Digits.{le_bytes}
use smc_server_client.Network.{Transport, send_int, send_content, send_sized, send_buffer}

module _ {ℓ} {S : Type 0} (net : Transport S) (P : S → Type ℓ)
    (write_keeps : (bytes : Bytes) (s : S) → P s → P (net.write bytes s).1) where
  send_int-kept : (width value : ℕ) (s : S) → P s → P (send_int net width value s).1
  unfolding send_int
  send_int-kept width value s p =
      by_answer (net.write (le_bytes width value) s) (write_keeps (le_bytes width value) s p)
    where
      by_answer :
          (t : Option ℕ × S)
          → P t.1
          → let r : Bool × S = elim t.0 [ none ↦ (false, t.1) | some _ ↦ (true, t.1) ] in P r.1
      by_answer (none, s') p' = p'
      by_answer (some n, s') p' = p'

  send_content-kept :
      (buffer : Bytes) (size : ℕ) (s : S) → P s → P (send_content net buffer size s).1
  unfolding send_content
  send_content-kept buffer size s p = by_answer (net.write buffer s) (write_keeps buffer s p)
    where
      by_answer :
          (t : Option ℕ × S)
          → P t.1
          → let r : Bool × S = elim t.0 [
            | none ↦ (false, t.1)
            | some bytes_write ↦ if ltb bytes_write size then (false, t.1) else (true, t.1)
          ] in
            P r.1
      by_answer (none, s') p' = p'
      by_answer (some n, s') p' = elim (Bool-cases (ltb n size)) [
        | inl less ↦ rw less p'
        | inr all ↦ rw all p'
      ]

  pub send_buffer-kept : (buffer : Bytes) (s : S) → P s → P (send_buffer net buffer s).1
  unfolding send_buffer send_sized
  send_buffer-kept buffer s p =
      let size = length buffer % 2 ^ 32 in
      by_answer size (send_int net 4 size s) (send_int-kept 4 size s p)
    where
      by_answer :
          (size : ℕ) (t : Bool × S)
          → P t.1
          → let r : Bool × S = elim t.0 [
            | true ↦ send_content net buffer size t.1
            | false ↦ (false, t.1)
          ] in
            P r.1
      by_answer size (true, s') p' = send_content-kept buffer size s' p'
      by_answer size (false, s') p' = p'
