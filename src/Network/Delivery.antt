-- ===== src/Network/Delivery.antt =====
-- A buffer that is sent over a healthy connection is received, and so is a row of buffers.
use smc_server_client.Common.{
  ℕ, ◌^◌, ◌<◌, true, some, [], ◌++◌, Bytes, length, ◌≡◌, sym, ap, ◌∙◌, arith, append_assoc,
  append-nil, le→ltb,
}
use native.Mathlib.Nat.{mod-eq_of_lt}
use smc_server_client.Wire.Digits.{le_bytes, le_value, length-le_bytes, le_value-le_bytes}
use smc_server_client.Network.{
  Transport, send_int, read_int, send_content, send_sized, send_buffer, read_content, read_buffer,
}
use smc_server_client.Network.Stream.{IsStream}

-- What `sendBuffer` puts on the wire.
abbrev pub frame : Bytes → Bytes
frame buffer = le_bytes 4 (length buffer) ++ buffer

read_back : (width value : ℕ) → value < 256 ^ width → le_value width (le_bytes width value) ≡ value
read_back width value h =
    ap (le_value width) (sym (append-nil (le_bytes width value)))
    ∙ le_value-le_bytes width value []
    ∙ mod-eq_of_lt h

module _ {S : Type 0} {net : Transport S} {pending : S → Bytes} (up : IsStream net pending) where
  pub send_int-pending :
      (width value : ℕ) (s : S)
      → ((send_int net width value s).0 ≡ true)
        × (pending (send_int net width value s).1 ≡ pending s ++ le_bytes width value)
  unfolding send_int
  send_int-pending width value s =
      let bytes = le_bytes width value in
      (
        ground (arith, up.write_all bytes s),
        ground (arith, up.write_all bytes s, up.write_behind bytes s),
      )

  send_content-pending :
      (buffer : Bytes) (s : S)
      → ((send_content net buffer (length buffer) s).0 ≡ true)
        × (pending (send_content net buffer (length buffer) s).1 ≡ pending s ++ buffer)
  unfolding send_content
  send_content-pending buffer s = (
    ground (arith, up.write_all buffer s),
    ground (arith, up.write_all buffer s, up.write_behind buffer s),
  )

  send_sized-pending :
      (buffer : Bytes) (s : S)
      → ((send_sized net buffer (length buffer) s).0 ≡ true)
        × (pending (send_sized net buffer (length buffer) s).1 ≡ pending s ++ frame buffer)
  unfolding send_sized
  send_sized-pending buffer s =
      let size = send_int-pending 4 (length buffer) s in
      let content = send_content-pending buffer (send_int net 4 (length buffer) s).1 in
      rw (size.0, send_sized)
        (
          content.0,
          content.1
              ∙ ap (λ t. t ++ buffer) size.1
              ∙ append_assoc (pending s) (le_bytes 4 (length buffer)) buffer,
        )

  -- Sending a buffer puts its frame behind what is in flight.
  pub send_buffer-pending :
      (buffer : Bytes) (s : S)
      → length buffer < 2 ^ 32
      → ((send_buffer net buffer s).0 ≡ true)
        × (pending (send_buffer net buffer s).1 ≡ pending s ++ frame buffer)
  unfolding send_buffer
  send_buffer-pending buffer s h = rw (mod-eq_of_lt h) (send_sized-pending buffer s)

  pub read_int-pending :
      (width value : ℕ) (rest : Bytes) (s : S)
      → value < 256 ^ width
      → pending s ≡ le_bytes width value ++ rest
      → ((read_int net width s).0 ≡ some value) × (pending (read_int net width s).1 ≡ rest)
  unfolding read_int
  read_int-pending width value rest s h e =
      let digits = length-le_bytes width value in
      let got : (net.read width s).0 ≡ some (le_bytes width value) =
        rw digits at (up.read_front (le_bytes width value) rest s e) in
      let left : pending (net.read width s).1 ≡ rest =
        rw digits at (up.read_leaves (le_bytes width value) rest s e) in
      (
        rw (got, digits, read_int)
            (rw (le→ltb width width (omega arith)) (ap some (read_back width value h))),
        rw (got, digits, read_int) (rw (le→ltb width width (omega arith)) left),
      )

  read_content-pending :
      (buffer rest : Bytes) (s : S)
      → pending s ≡ buffer ++ rest
      → ((read_content net (length buffer) s).0 ≡ some buffer)
        × (pending (read_content net (length buffer) s).1 ≡ rest)
  unfolding read_content
  read_content-pending buffer rest s e =
      let got = up.read_front buffer rest s e in
      let left = up.read_leaves buffer rest s e in
      (ground (arith, got, left), ground (arith, got, left))

  -- Reading a buffer takes the frame that is in front.
  pub read_buffer-pending :
      (buffer rest : Bytes) (s : S)
      → length buffer < 2 ^ 32
      → pending s ≡ frame buffer ++ rest
      → ((read_buffer net s).0 ≡ some buffer) × (pending (read_buffer net s).1 ≡ rest)
  unfolding read_buffer
  read_buffer-pending buffer rest s h e =
      let size =
        read_int-pending 4 (length buffer) (buffer ++ rest) s h
          (e ∙ append_assoc (le_bytes 4 (length buffer)) buffer rest) in
      let content = read_content-pending buffer rest (read_int net 4 s).1 size.1 in
      rw (size.0, read_buffer) content
