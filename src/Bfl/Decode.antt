-- ===== src/Bfl/Decode.antt =====
-- What the decoder reads.
use smc_server_client.Common.{
  subst, ℕ, ◌+◌, ◌%◌, ◌^◌, ◌≤◌, ◌<◌, false, Option, some, List, [], ◌∷◌, ◌++◌, Bytes, length, take,
  drop, ltb, le→ltb, Fallible, ◌>>=◌, pure, bind-some, ◌≡◌, refl, sym, ap, ap₂, ◌∙◌, arith,
  append-nil, append_assoc, length-append, length-drop, take-append, drop-append, drop-drop,
}
use native.Mathlib.Nat.{mod-eq_of_lt}
use smc_server_client.Wire.{size_range}
use smc_server_client.Wire.Digits.{le_bytes, le_value, length-le_bytes, le_value-le_bytes}
use smc_server_client.Protocol.Files.{FileInfo, file_type_code, file_type_of_code}
use smc_server_client.Bfl.{
  Decoder, pull_bytes, get_number, get_file_name, push_back, decode_file, decode_files,
}
use smc_server_client.Bfl.Encode.{file_bytes, files_bytes}

-- A decoder that has read up to some bytes.
pub record Before (d : Decoder) (bytes : Bytes) : Type 0 where
  pub within : d.current_offset ≤ length d.bfl
  pub in_memory : length d.bfl < size_range
  pub ahead : drop d.current_offset d.bfl ≡ bytes

abbrev pub passed : ℕ → List FileInfo → Decoder → Decoder
passed n new d = record d { files = d.files ++ new; current_offset = d.current_offset + n }

-- Code that takes these bytes, returns this value and adds these files.
pub record Reads {A : Type 0} (m : Fallible Decoder A) (bytes : Bytes) (value : A)
    (new : List FileInfo) : Type 0 where
  pub runs :
      (d : Decoder) (rest : Bytes)
      → Before d (bytes ++ rest)
      → m d ≡ (some value, passed (length bytes) new d)

length-ahead :
    (d : Decoder) (a b : Bytes)
    → Before d (a ++ b)
    → d.current_offset + length a + length b ≡ length d.bfl
length-ahead d a b h =
    omega
      (arith, length-drop d.current_offset d.bfl, ap length h.ahead, length-append a b, h.within)

passed-Before :
    (d : Decoder) (a b : Bytes) (new : List FileInfo)
    → Before d (a ++ b)
    → Before (passed (length a) new d) b
passed-Before d a b new h = record {
  within = omega (arith, length-ahead d a b h);
  in_memory = h.in_memory;
  ahead =
      sym (drop-drop d.current_offset (length a) d.bfl)
      ∙ ap (drop (length a)) h.ahead
      ∙ drop-append (length a) a b refl;
}

pull_bytes-Reads : (bytes : Bytes) → Reads (pull_bytes (length bytes)) bytes bytes []
unfolding pull_bytes
pull_bytes-Reads bytes = record {
  runs = λ d rest h.
      let n = length bytes in
      let sum = length-ahead d bytes rest h in
      let next : (d.current_offset + n) % size_range ≡ d.current_offset + n =
        omega (arith, h.in_memory) in
      let fits : ltb (length d.bfl) (d.current_offset + n) ≡ false = le→ltb _ _ (omega arith) in
      rw (next, fits)
        (ap₂ {C = Option Bytes × Decoder}
          (λ t fs. (some t, record d { files = fs; current_offset = d.current_offset + n }))
          (ap (take n) h.ahead ∙ take-append n bytes rest refl) (sym (append-nil d.files)));
}

pure-Reads : {A : Type 0} (value : A) → Reads (pure value) [] value []
pure-Reads value = record {
  runs = λ d rest h.
      ap₂ {C = Option _ × Decoder}
        (λ fs c. (some value, record d { files = fs; current_offset = c })) {u = d.current_offset}
        {v = d.current_offset + 0} (sym (append-nil d.files)) (omega arith);
}

then-Reads :
    {A B : Type 0} (m : Fallible Decoder A) (f : A → Fallible Decoder B) {a b : Bytes} {v : A}
    {w : B} {new more : List FileInfo}
    → Reads m a v new
    → Reads (f v) b w more
    → Reads (m >>= f) (a ++ b) w (new ++ more)
then-Reads m f {a = a} {b = b} {v = v} {w = w} {new = new} {more = more} p q = record {
  runs = λ d rest h.
      let whole : Before d (a ++ (b ++ rest)) = record {
        within = h.within;
        in_memory = h.in_memory;
        ahead = h.ahead ∙ append_assoc a b rest;
      } in
      bind-some m f (p.runs d (b ++ rest) whole)
      ∙ q.runs (passed (length a) new d) rest (passed-Before d a (b ++ rest) new whole)
      ∙ ap₂ {C = Option _ × Decoder} (λ fs c. (some w, record d { files = fs; current_offset = c }))
          {u = d.current_offset + length a + length b} (append_assoc d.files new more)
          (omega (arith, length-append a b));
}

get_number-Reads :
    (width value : ℕ)
    → value < 256 ^ width
    → Reads (get_number width) (le_bytes width value) value []
unfolding get_number
get_number-Reads width value h =
    let bytes = le_bytes width value in
    let valued : le_value width bytes ≡ value =
      ap (le_value width) (sym (append-nil bytes))
      ∙ le_value-le_bytes width value []
      ∙ mod-eq_of_lt h in
    let pulled : Reads (pull_bytes width) bytes bytes [] =
      subst (λ n. Reads (pull_bytes n) bytes bytes []) (length-le_bytes width value)
        (pull_bytes-Reads bytes) in
    let read : Reads (pure (le_value width bytes)) [] value [] =
      subst (λ v. Reads (pure (le_value width bytes)) [] v []) valued (pure-Reads _) in
    subst (λ b. Reads (get_number width) b value []) (append-nil bytes)
      (then-Reads (pull_bytes width) (λ b. pure (le_value width b)) pulled read)

get_file_name-Reads :
    (name : Bytes)
    → length name < 2 ^ 16
    → Reads get_file_name (le_bytes 2 (length name % 2 ^ 16) ++ name) name []
unfolding get_file_name
get_file_name-Reads name h = rw (mod-eq_of_lt h) (
    then-Reads (get_number 2) pull_bytes (get_number-Reads 2 (length name) (omega arith))
      (pull_bytes-Reads name))

push_back-Reads : (file : FileInfo) → Reads (push_back file) [] tt (file ∷ [])
unfolding push_back
push_back-Reads file = record {
  runs = λ d rest h.
      ap {B = Option Unit × Decoder}
        (λ c. (some tt, record d { files = d.files ++ (file ∷ []); current_offset = c }))
        {x = d.current_offset} {y = d.current_offset + 0} (omega arith);
}

-- A file that the format can hold: its type is one that the enumeration names, its name is no
-- longer than 65535 bytes, and its size has 64 bits.
pub record IsFile (file : FileInfo) : Type 0 where
  pub type_of_code : file_type_of_code (file_type_code file.type) ≡ file.type
  pub type_lt : file_type_code file.type < 2 ^ 8
  pub size_lt : file.size < 2 ^ 64
  pub name_lt : length file.name < 2 ^ 16

pub decode_file-Reads :
    (file : FileInfo) → IsFile file → Reads decode_file (file_bytes file) tt (file ∷ [])
unfolding decode_file
decode_file-Reads file v =
    let type = file_type_code file.type in
    let push : ℕ → ℕ → Bytes → Fallible Decoder Unit =
      λ t s n. push_back (record { name = n; type = file_type_of_code t; size = s }) in
    let pushed : Reads (push type file.size file.name) [] tt (file ∷ []) =
      subst (λ t. Reads (push type file.size file.name) [] tt (record file { type = t } ∷ []))
        v.type_of_code (push_back-Reads _) in
    subst (λ b. Reads decode_file (le_bytes 1 type ++ (le_bytes 8 file.size ++ b)) tt (file ∷ []))
      (append-nil _)
      (then-Reads _ (λ t. get_number 8 >>= λ s. get_file_name >>= λ n. push t s n)
        (get_number-Reads 1 type (omega (arith, v.type_lt)))
        (then-Reads _ (λ s. get_file_name >>= λ n. push type s n)
          (get_number-Reads 8 file.size (omega (arith, v.size_lt)))
          (then-Reads _ (push type file.size) (get_file_name-Reads file.name v.name_lt) pushed)))

abbrev pub AllFiles : List FileInfo → Type 0
AllFiles [] = Unit
AllFiles (file ∷ files) = IsFile file × AllFiles files

pub decode_files-Reads :
    (files : List FileInfo)
    → AllFiles files
    → Reads (decode_files (length files)) (files_bytes files) tt files
unfolding decode_files
decode_files-Reads [] v = pure-Reads tt
decode_files-Reads (file ∷ files) v =
    then-Reads decode_file (λ _. decode_files (length files)) (decode_file-Reads file v.0)
      (decode_files-Reads files v.1)
