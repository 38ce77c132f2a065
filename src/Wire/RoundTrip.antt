-- ===== src/Wire/RoundTrip.antt =====
-- A message is a row of fields: what a builder writes, an analyzer reads back.
use smc_server_client.Common.{
  ◌>>=◌, pure, bind-some, ℕ, zero, suc, ◌+◌, ◌-◌, ◌*◌, ◌/◌, ◌^◌, ◌≤◌, ◌<◌, Bool, true, false, not,
  Option, some, List, [], ◌∷◌, ◌++◌, Bytes, length, take, drop, map, append-nil, append_assoc,
  take-append, take_self, drop-append, le→ltb, ◌==◌, ◌≡◌, refl, sym, ap, ap₂, ◌∙◌, arith,
  length-append, if◌then◌else◌,
}
use native.Mathlib.Nat.{mod-eq_of_lt, pow-suc}
use native.Mathlib.Numerals.{towards_suc}
use smc_server_client.Wire.{
  Analyzer, Extract, size_range, int_range, extract_int, take_buffer, extract_buffer, extract_bool,
  insert_int, insert_bool, insert_buffer, new_analyzer, set_data,
}
use smc_server_client.Wire.Digits.{
  le_bytes, le_value, insert_loop-le_bytes, length-le_bytes, le_value-le_bytes,
}
use smc_server_client.Wire.Analyze.{
  IsValid, unread, advance, extract_int-enough, advance-IsValid, unread-advance, take_buffer-enough,
  cursor_sum,
}

pub int_range-pow : (width : ℕ) → int_range width ≡ 256 ^ width
int_range-pow zero = refl
int_range-pow (suc width) =
    rw (shifted width) (simp (towards_suc, pow-suc) (omega (arith, int_range-pow width)))
  where
    shifted : (w : ℕ) → 8 * suc w ≡ 8 * w + 8
    shifted w = omega arith

pub insert_int-le_bytes :
    (width value : ℕ) (bytes : Bytes) → insert_int width value bytes ≡ bytes ++ le_bytes width value
unfolding insert_int
insert_int-le_bytes width value bytes =
    ap (λ t. bytes ++ t)
      (insert_loop-le_bytes width 0 value ∙ ap (le_bytes width) (unshifted value))
  where
    unshifted : (v : ℕ) → v / 2 ^ (0 * 8) ≡ v
    unshifted v = omega arith

pub insert_buffer-fits :
    (width : ℕ) (buffer bytes : Bytes)
    → length buffer < int_range width
    → insert_buffer width buffer bytes ≡ bytes ++ (le_bytes width (length buffer) ++ buffer)
unfolding insert_buffer
insert_buffer-fits width buffer bytes h =
    rw (le→ltb (int_range width - 1) (length buffer) (omega arith)) (
      rw (mod-eq_of_lt h) (
        ap (λ t. t ++ take (length buffer) buffer) (insert_int-le_bytes width (length buffer) bytes)
        ∙ append_assoc bytes (le_bytes width (length buffer)) _
        ∙ ap (λ t. bytes ++ (le_bytes width (length buffer) ++ t)) (take_self buffer)))

module _ (a : Analyzer) (v : IsValid a) where
  pub extract_int-le_bytes :
      (width value : ℕ) (rest : Bytes)
      → value < int_range width
      → unread a ≡ le_bytes width value ++ rest
      → extract_int width a ≡ (some value, advance width a)
  extract_int-le_bytes width value rest h e =
      extract_int-enough a v width (
        omega (
          arith,
          ap length e,
          length-append (le_bytes width value) rest,
          length-le_bytes width value,
        ))
      ∙ ap {B = Option ℕ × Analyzer} (λ t. (some t, advance width a))
          (ap (le_value width) e
            ∙ le_value-le_bytes width value rest
            ∙ rw (← int_range-pow width) (mod-eq_of_lt h))

  pub extract_buffer-le_bytes :
      (width : ℕ) (buffer rest : Bytes)
      → length buffer < int_range width
      → unread a ≡ le_bytes width (length buffer) ++ (buffer ++ rest)
      → extract_buffer width a ≡ (some buffer, advance (width + length buffer) a)
  unfolding extract_buffer
  extract_buffer-le_bytes width buffer rest h e =
      let size = length buffer in
      let digits = length-le_bytes width size in
      let room : width ≤ length (unread a) =
        omega (arith, ap length e, length-append (le_bytes width size) (buffer ++ rest), digits) in
      let content : unread (advance width a) ≡ buffer ++ rest =
        unread-advance width a
        ∙ ap (drop width) e
        ∙ drop-append width (le_bytes width size) (buffer ++ rest) (sym digits) in
      bind-some (extract_int width) take_buffer
        (extract_int-le_bytes width size (buffer ++ rest) h e)
      ∙ take_buffer-enough (advance width a) (advance-IsValid width a v room) size
          (omega (arith, ap length content, length-append buffer rest))
      ∙ ap₂ {C = Option Bytes × Analyzer} (λ t c. (some t, record a { cursor = c }))
          (ap (take size) content ∙ take-append size buffer rest refl)
          (cursor_sum a.cursor width size)

-- A field of a message: the width of its number, or of its size, is the template argument.
pub data Field : Type 0 where
  int_field : ℕ → ℕ → Field
  bool_field : Bool → Field
  buffer_field : ℕ → Bytes → Field

pub data Shape : Type 0 where
  int_shape : ℕ → Shape
  bool_shape : Shape
  buffer_shape : ℕ → Shape

abbrev pub shape : Field → Shape
shape (int_field width value) = int_shape width
shape (bool_field value) = bool_shape
shape (buffer_field width buffer) = buffer_shape width

abbrev pub Fits : Field → Type 0
Fits (int_field width value) = value < int_range width
Fits (bool_field value) = Unit
Fits (buffer_field width buffer) = length buffer < int_range width

abbrev pub AllFit : List Field → Type 0
AllFit [] = Unit
AllFit (f ∷ fs) = Fits f × AllFit fs

abbrev pub insert_field : Field → Bytes → Bytes
insert_field (int_field width value) = insert_int width value
insert_field (bool_field value) = insert_bool value
insert_field (buffer_field width buffer) = insert_buffer width buffer

abbrev pub insert_all : List Field → Bytes → Bytes
insert_all [] bytes = bytes
insert_all (f ∷ fs) bytes = insert_all fs (insert_field f bytes)

abbrev pub extract_field : Shape → Extract Field
extract_field (int_shape width) = do v ← extract_int width; pure (int_field width v)
extract_field bool_shape = do v ← extract_bool; pure (bool_field v)
extract_field (buffer_shape width) = do v ← extract_buffer width; pure (buffer_field width v)

abbrev pub extract_all : List Shape → Extract (List Field)
extract_all [] = pure []
extract_all (s ∷ ss) = do f ← extract_field s; fs ← extract_all ss; pure (f ∷ fs)

abbrev pub encoding : Field → Bytes
encoding (int_field width value) = le_bytes width value
encoding (bool_field value) = le_bytes 1 (if value then 1 else 0)
encoding (buffer_field width buffer) = le_bytes width (length buffer) ++ buffer

insert_field-encoding :
    (f : Field) (bytes : Bytes) → Fits f → insert_field f bytes ≡ bytes ++ encoding f
unfolding insert_bool
insert_field-encoding (int_field width value) bytes h = insert_int-le_bytes width value bytes
insert_field-encoding (bool_field value) bytes h = insert_int-le_bytes 1 _ bytes
insert_field-encoding (buffer_field width buffer) bytes h = insert_buffer-fits width buffer bytes h

extract_field-encoding :
    (f : Field) (a : Analyzer) (rest : Bytes)
    → IsValid a
    → Fits f
    → unread a ≡ encoding f ++ rest
    → extract_field (shape f) a ≡ (some f, advance (length (encoding f)) a)
unfolding extract_bool
extract_field-encoding (int_field width value) a rest v h e =
    bind-some (extract_int width) (λ t. pure (int_field width t))
      (extract_int-le_bytes a v width value rest h e)
    ∙ ap {B = Option Field × Analyzer} (λ n. (some (int_field width value), advance n a))
        (sym (length-le_bytes width value))
extract_field-encoding (bool_field true) a rest v h e =
    bind-some extract_bool (λ t. pure (bool_field t))
      (bind-some (extract_int 1) (λ byte. pure (not (byte == 0)))
        (extract_int-le_bytes a v 1 1 rest (omega arith) e))
extract_field-encoding (bool_field false) a rest v h e =
    bind-some extract_bool (λ t. pure (bool_field t))
      (bind-some (extract_int 1) (λ byte. pure (not (byte == 0)))
        (extract_int-le_bytes a v 1 0 rest (omega arith) e))
extract_field-encoding (buffer_field width buffer) a rest v h e =
    let digits = le_bytes width (length buffer) in
    bind-some (extract_buffer width) (λ t. pure (buffer_field width t))
      (extract_buffer-le_bytes a v width buffer rest h (e ∙ append_assoc digits buffer rest))
    ∙ ap {B = Option Field × Analyzer} (λ n. (some (buffer_field width buffer), advance n a))
        (omega (arith, length-append digits buffer, length-le_bytes width (length buffer)))

abbrev pub encodings : List Field → Bytes
encodings [] = []
encodings (f ∷ fs) = encoding f ++ encodings fs

insert_all-encodings :
    (fs : List Field) (bytes : Bytes) → AllFit fs → insert_all fs bytes ≡ bytes ++ encodings fs
insert_all-encodings [] bytes h = sym (append-nil bytes)
insert_all-encodings (f ∷ fs) bytes h =
    insert_all-encodings fs (insert_field f bytes) h.1
    ∙ ap (λ t. t ++ encodings fs) (insert_field-encoding f bytes h.0)
    ∙ append_assoc bytes (encoding f) (encodings fs)

extract_all-encodings :
    (fs : List Field) (a : Analyzer) (rest : Bytes)
    → IsValid a
    → AllFit fs
    → unread a ≡ encodings fs ++ rest
    → extract_all (map shape fs) a ≡ (some fs, advance (length (encodings fs)) a)
extract_all-encodings [] a rest v h e =
    ap {B = Option (List Field) × Analyzer} (λ c. (some [], record a { cursor = c })) {x = a.cursor}
      {y = a.cursor + 0} (omega arith)
extract_all-encodings (f ∷ fs) a rest v h e =
    let n = length (encoding f) in
    let here = e ∙ append_assoc (encoding f) (encodings fs) rest in
    let room : n ≤ length (unread a) =
      omega (arith, ap length here, length-append (encoding f) (encodings fs ++ rest)) in
    let behind =
      unread-advance n a
      ∙ ap (drop n) here
      ∙ drop-append n (encoding f) (encodings fs ++ rest) refl in
    bind-some (extract_field (shape f)) (λ t. extract_all (map shape fs) >>= λ ts. pure (t ∷ ts))
      (extract_field-encoding f a (encodings fs ++ rest) v h.0 here)
    ∙ bind-some (extract_all (map shape fs)) (λ ts. pure (f ∷ ts))
        (extract_all-encodings fs (advance n a) rest (advance-IsValid n a v room) h.1 behind)
    ∙ ap {B = Option (List Field) × Analyzer} (λ c. (some (f ∷ fs), record a { cursor = c }))
        (cursor_sum a.cursor n (length (encodings fs))
          ∙ ap (λ k. a.cursor + k) (sym (length-append (encoding f) (encodings fs))))

-- A row of fields, each within the range of its type, is read back as it was inserted, and the
-- analyzer then stands at the end of the message with no error. The message must fit in memory.
pub extract_all-insert_all :
    (fs : List Field)
    → AllFit fs
    → length (insert_all fs []) < size_range
    → extract_all (map shape fs) (set_data (insert_all fs []) new_analyzer) ≡ (
      some fs,
      record { bytes = insert_all fs []; cursor = length (insert_all fs []); last_error = [] },
    )
unfolding set_data
extract_all-insert_all fs fit small =
    let message = insert_all fs [] in
    let start : Analyzer = record { bytes = message; cursor = 0; last_error = [] } in
    let written = insert_all-encodings fs [] fit in
    extract_all-encodings fs start [] (record { within = omega arith; in_memory = small }) fit
      (written ∙ sym (append-nil (encodings fs)))
    ∙ ap {B = Option (List Field) × Analyzer} (λ n. (some fs, record start { cursor = n }))
        (omega (arith, ap length written))
