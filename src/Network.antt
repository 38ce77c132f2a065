-- ===== src/Network.antt =====
-- Server/src/network.cpp and Server/include/network.hpp, with their twins src/network.cpp and
-- Client/include/network.hpp: numbers and buffers over a socket. The two sides differ in the
-- messages that they print, which are not modelled.
pub mod Stream
pub mod Delivery
pub mod Kept
use smc_server_client.Common.{
  ℕ, ◌+◌, ◌%◌, ◌^◌, Bool, true, false, Option, none, some, List, [], ◌∷◌, ◌++◌, Bytes, length, ltb,
  if◌then◌else◌,
}
use smc_server_client.Wire.Digits.{le_bytes, le_value}

-- Boost.Asio: `read` for exactly so many bytes, and `write` of all bytes. `none` is a set error
-- code; else the bytes that were read, or the number of bytes that were written.
pub record Transport (S : Type 0) : Type 0 where
  pub read : ℕ → S → Option Bytes × S
  pub write : Bytes → S → Option ℕ × S

module _ {S : Type 0} (net : Transport S) where
  -- `sendInt`: the memory of the number, which is little-endian on the machines that are built for.
  unfoldable pub send_int : ℕ → ℕ → S → Bool × S
  send_int width value s =
      let (r, s') = net.write (le_bytes width value) s in
      elim r [ none ↦ (false, s') | some _ ↦ (true, s') ]

  unfoldable pub read_int : ℕ → S → Option ℕ × S
  read_int width s =
      let (r, s') = net.read width s in
      elim r [
        | none ↦ (none, s')
        | some bytes ↦
            if ltb (length bytes) width then (none, s') else (some (le_value width bytes), s')
      ]

  pub send_content : Bytes → ℕ → S → Bool × S
  send_content buffer buffer_size s =
      let (r, s') = net.write buffer s in
      elim r [
        | none ↦ (false, s')
        | some bytes_write ↦ if ltb bytes_write buffer_size then (false, s') else (true, s')
      ]

  pub send_sized : Bytes → ℕ → S → Bool × S
  send_sized buffer buffer_size s =
      let (sent, s') = send_int 4 buffer_size s in
      elim sent [ true ↦ send_content buffer buffer_size s' | false ↦ (false, s') ]

  -- The size is cast to `network_buffer_t`, of four bytes.
  unfoldable pub send_buffer : Bytes → S → Bool × S
  send_buffer buffer s = send_sized buffer (length buffer % 2 ^ 32) s

  pub read_content : ℕ → S → Option Bytes × S
  read_content buffer_size s =
      let (r, s') = net.read buffer_size s in
      elim r [
        | none ↦ (none, s')
        | some bytes ↦ if ltb (length bytes) buffer_size then (none, s') else (some bytes, s')
      ]

  unfoldable pub read_buffer : S → Option Bytes × S
  read_buffer s =
      let (r, s') = read_int 4 s in
      elim r [ none ↦ (none, s') | some buffer_size ↦ read_content buffer_size s' ]
