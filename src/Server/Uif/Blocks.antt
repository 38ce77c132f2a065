-- ===== src/Server/Uif/Blocks.antt =====
-- A well-formed block is decoded to what was put into it.
use smc_server_client.Common.{
  ℕ, zero, suc, ◌+◌, ◌-◌, ◌≤◌, false, some, [], ◌∷◌, ◌++◌, Bytes, length, drop, take, replicate,
  le→ltb, ltb, ◌==◌, ◌≡◌, refl, sym, ap, ap₂, ◌∙◌, arith, append-nil, append_assoc, length-append,
  length-replicate, drop-append, drop-drop, take-append,
}
use smc_server_client.Text.{get_string_from_array, zero_offset}
use smc_server_client.Server.Uif.{
  UifValues, check_size, check_signature, values_of, named_values, decode_uif,
}

abbrev pub NoZero : Bytes → Type 0
NoZero [] = Unit
NoZero (c ∷ cs) = (c == 0 ≡ false) × NoZero cs

abbrev pub padded : Bytes → Bytes
padded name = name ++ replicate (16 - length name) 0

-- The signature, the role, eleven bytes that are not read, and the two names.
abbrev pub block : ℕ → Bytes → Bytes → Bytes
block role username password =
    b'U'
    ∷ b'I'
    ∷ b'F'
    ∷ 0
    ∷ role
    ∷ 0
    ∷ 0
    ∷ 0
    ∷ 0
    ∷ 0
    ∷ 0
    ∷ 0
    ∷ 0
    ∷ 0
    ∷ 0
    ∷ 0
    ∷ (padded username ++ padded password)

zero_offset-padded :
    (pad : ℕ) (name rest : Bytes) (size : ℕ)
    → NoZero name
    → pad + length name ≡ size
    → zero_offset size (name ++ (replicate pad 0 ++ rest)) ≡ length name
unfolding zero_offset
zero_offset-padded pad [] rest zero clean k = refl
zero_offset-padded zero [] rest (suc size) clean k = absurd (omega arith)
zero_offset-padded (suc pad) [] rest (suc size) clean k = refl
zero_offset-padded pad (c ∷ name) rest zero clean k = absurd (omega arith)
zero_offset-padded pad (c ∷ name) rest (suc size) clean k =
    rw clean.0 (ap suc (zero_offset-padded pad name rest size clean.1 (omega arith)))

read_padded :
    (name rest : Bytes)
    → NoZero name
    → length name ≤ 16
    → get_string_from_array (padded name ++ rest) 16 ≡ name
unfolding get_string_from_array
read_padded name rest clean k =
    let shape = append_assoc name (replicate (16 - length name) 0) rest in
    ap₂ {C = Bytes} (λ n t. take n t)
      (ap (zero_offset 16) shape
        ∙ zero_offset-padded (16 - length name) name rest 16 clean (omega arith))
      shape
    ∙ take-append (length name) name _ refl

length-padded : (name : Bytes) → length name ≤ 16 → length (padded name) ≡ 16
length-padded name k = omega (
  arith,
  length-append name (replicate (16 - length name) 0),
  length-replicate {A = ℕ} (16 - length name) 0,
)

-- A block with a role, a name that is not empty and a password, each of at most 16 bytes without a zero
-- byte, is decoded to these.
pub decode_uif-block :
    (role c : ℕ) (name password : Bytes)
    → NoZero (c ∷ name)
    → NoZero password
    → length (c ∷ name) ≤ 16
    → length password ≤ 16
    → decode_uif (block role (c ∷ name) password)
      ≡ some (record { role = role; username = c ∷ name; password = password })
unfolding decode_uif check_size check_signature
decode_uif-block role c name password clean secret k l =
    let username = c ∷ name in
    let file = block role username password in
    let room : ltb (length file) 48 ≡ false = le→ltb _ _ (
      omega (
        arith,
        length-append (padded username) (padded password),
        length-padded username k,
        length-padded password l,
      )) in
    let first : get_string_from_array (drop 16 file) 16 ≡ username =
      read_padded username (padded password) clean k in
    let behind : drop 32 file ≡ padded password ++ [] =
      sym (drop-drop 16 16 file)
      ∙ drop-append 16 (padded username) (padded password) (sym (length-padded username k))
      ∙ sym (append-nil (padded password)) in
    let second : get_string_from_array (drop 32 file) 16 ≡ password =
      ap (λ t. get_string_from_array t 16) behind ∙ read_padded password [] secret l in
    let read : values_of file ≡ record { role = role; username = username; password = password } =
      ap₂ {C = UifValues} (λ u p. record { role = role; username = u; password = p }) first
        second in
    rw room (ap named_values read)
