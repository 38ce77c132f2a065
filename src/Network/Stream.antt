-- ===== src/Network/Stream.antt =====
-- What the code relies on while a connection is up: a reliable stream of bytes.
use smc_server_client.Common.{
  true, ◌≡◌, none, some, ◌++◌, Bytes, length, if◌then◌else◌, take, drop, leb, refl, ap, arith,
  take-append, drop-append, length-append, le→leb,
}
use smc_server_client.Network.{Transport}

-- `pending` are the bytes in flight. A write puts all its bytes behind them; a read of as many bytes
-- as are there takes them from the front.
pub record IsStream {S : Type 0} (net : Transport S) (pending : S → Bytes) : Type 0 where
  pub write_all : (bytes : Bytes) (s : S) → (net.write bytes s).0 ≡ some (length bytes)
  pub write_behind : (bytes : Bytes) (s : S) → pending (net.write bytes s).1 ≡ pending s ++ bytes
  pub read_front :
      (bytes rest : Bytes) (s : S)
      → pending s ≡ bytes ++ rest
      → (net.read (length bytes) s).0 ≡ some bytes
  pub read_leaves :
      (bytes rest : Bytes) (s : S)
      → pending s ≡ bytes ++ rest
      → pending (net.read (length bytes) s).1 ≡ rest

-- A pipe in memory, which shows that the laws can hold.
abbrev pub pipe : Transport Bytes
pipe = record {
  read = λ n s. if leb n (length s) then (some (take n s), drop n s) else (none, s);
  write = λ bytes s. (some (length bytes), s ++ bytes);
}

pub pipe-IsStream : IsStream pipe (λ s. s)
pipe-IsStream = record {
  write_all = λ bytes s. refl;
  write_behind = λ bytes s. refl;
  read_front = λ bytes rest s h.
      rw (h, enough bytes rest) (ap some (take-append (length bytes) bytes rest refl));
  read_leaves =
      λ bytes rest s h. rw (h, enough bytes rest) (drop-append (length bytes) bytes rest refl);
}
  where
    enough : (bytes rest : Bytes) → leb (length bytes) (length (bytes ++ rest)) ≡ true
    enough bytes rest = le→leb _ _ (omega (arith, length-append bytes rest))
