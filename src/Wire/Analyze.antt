-- ===== src/Wire/Analyze.antt =====
-- What an extraction does, on each branch, in terms of the bytes that the cursor has not passed.
use smc_server_client.Common.{
  bind-some, bind-none, ℕ, ◌+◌, ◌-◌, ◌≤◌, ◌<◌, Option, none, some, Bytes, length, take, drop,
  drop-drop, codes, ltb, lt→ltb, le→ltb, ltb→lt, ltb→le, Bool-cases, ◌≡◌, sym, ap, ap₂, ◌∙◌, arith,
  length-drop, if◌then◌else◌, inl, inr,
}
use smc_server_client.Wire.{
  Analyzer, size_range, sub_size, extract_int, take_buffer, extract_buffer, set_size_error,
}
use smc_server_client.Wire.Digits.{le_value, extract_loop-start, copy_loop-take}

-- The cursor lies in the data, and the data in memory.
pub record IsValid (a : Analyzer) : Type 0 where
  pub within : a.cursor ≤ length a.bytes
  pub in_memory : length a.bytes < size_range

abbrev pub unread : Analyzer → Bytes
unread a = drop a.cursor a.bytes

pub sub_size-le : (a b : ℕ) → a < size_range → b ≤ a → sub_size a b ≡ a - b
sub_size-le a b h k = omega arith

module _ (a : Analyzer) (v : IsValid a) where
  abbrev left : ℕ
  left = sub_size (length a.bytes) a.cursor

  left-length : left ≡ length (unread a)
  left-length = sub_size-le _ _ v.in_memory v.within ∙ sym (length-drop a.cursor a.bytes)

  pub extract_int-enough :
      (width : ℕ)
      → width ≤ length (unread a)
      → extract_int width a
        ≡ (some (le_value width (unread a)), record a { cursor = a.cursor + width })
  unfolding extract_int
  extract_int-enough width h = rw (le→ltb left width (omega (arith, left-length))) (
      ap {B = Option ℕ × Analyzer} (λ t. (some t, record a { cursor = a.cursor + width }))
        (extract_loop-start width a.bytes a.cursor))

  pub extract_int-short :
      (width : ℕ)
      → length (unread a) < width
      → extract_int width a ≡ (none, set_size_error (codes "int") width a)
  unfolding extract_int
  extract_int-short width h = rw (lt→ltb left width (omega (arith, left-length)))

  pub take_buffer-enough :
      (size : ℕ)
      → size ≤ length (unread a)
      → take_buffer size a ≡ (some (take size (unread a)), record a { cursor = a.cursor + size })
  unfolding take_buffer
  take_buffer-enough size h = rw (le→ltb left size (omega (arith, left-length))) (
      ap {B = Option Bytes × Analyzer} (λ t. (some t, record a { cursor = a.cursor + size }))
        (copy_loop-take size 0 a.bytes a.cursor
            (omega (arith, length-drop a.cursor a.bytes, v.within))
          ∙ ap (λ k. take size (drop k a.bytes)) {x = a.cursor + 0} {y = a.cursor} (omega arith)))

  pub take_buffer-short :
      (size : ℕ)
      → length (unread a) < size
      → take_buffer size a ≡ (none, set_size_error (codes "buffer") size a)
  unfolding take_buffer
  take_buffer-short size h = rw (lt→ltb left size (omega (arith, left-length)))

-- The analyzer after `n` more bytes were passed.
abbrev pub advance : ℕ → Analyzer → Analyzer
advance n a = record a { cursor = a.cursor + n }

pub unread-advance : (n : ℕ) (a : Analyzer) → unread (advance n a) ≡ drop n (unread a)
unread-advance n a = sym (drop-drop a.cursor n a.bytes)

pub advance-IsValid :
    (n : ℕ) (a : Analyzer) → IsValid a → n ≤ length (unread a) → IsValid (advance n a)
advance-IsValid n a v h = record {
  within = omega (arith, length-drop a.cursor a.bytes, v.within);
  in_memory = v.in_memory;
}

pub set_size_error-IsValid :
    (target : Bytes) (n : ℕ) (a : Analyzer) → IsValid a → IsValid (set_size_error target n a)
unfolding set_size_error
set_size_error-IsValid target n a v = record { within = v.within; in_memory = v.in_memory }

pub cursor_sum : (c m n : ℕ) → c + m + n ≡ c + (m + n)
cursor_sum c m n = omega arith

-- The content of a buffer behind its size of `width` bytes.
take_buffer_after :
    (size width : ℕ) (a : Analyzer)
    → IsValid a
    → width ≤ length (unread a)
    → take_buffer size (advance width a) ≡ (
        if ltb (length (unread a)) (width + size)
        then (none, set_size_error (codes "buffer") size (advance width a))
        else (some (take size (drop width (unread a))), advance (width + size) a))
take_buffer_after size width a v h =
    let v' = advance-IsValid width a v h in
    let here = unread-advance width a in
    let size_left : length (unread (advance width a)) ≡ length (unread a) - width =
      ap length here ∙ length-drop width (unread a) in
    elim (Bool-cases (ltb (length (unread a)) (width + size))) [
      | inl short ↦
          rw short (take_buffer-short (advance width a) v' size (omega (arith, ltb→lt _ _ short)))
      | inr room ↦ rw room (
          take_buffer-enough (advance width a) v' size (omega (arith, ltb→le _ _ room))
          ∙ ap₂ {C = Option Bytes × Analyzer} (λ t c. (some (take size t), record a { cursor = c }))
              here (cursor_sum a.cursor width size))
    ]

-- `extractBuffer` on a valid analyzer: without room for the size it fails where it stands; without
-- room for the content it fails behind the size; else it returns the bytes announced and stands
-- behind them. An error is set exactly on the two failures.
pub extract_buffer_lem :
    (width : ℕ) (a : Analyzer)
    → IsValid a
    → extract_buffer width a ≡ (
        if ltb (length (unread a)) width
        then (none, set_size_error (codes "int") width a)
        else if ltb (length (unread a)) (width + le_value width (unread a))
        then (none, set_size_error (codes "buffer") (le_value width (unread a)) (advance width a))
        else (
          some (take (le_value width (unread a)) (drop width (unread a))),
          advance (width + le_value width (unread a)) a,
        ))
unfolding extract_buffer
extract_buffer_lem width a v = elim (Bool-cases (ltb (length (unread a)) width)) [
  | inl short ↦
      rw short
        (bind-none (extract_int width) take_buffer (extract_int-short a v width (ltb→lt _ _ short)))
  | inr room ↦ rw room (
      bind-some (extract_int width) take_buffer (extract_int-enough a v width (ltb→le _ _ room))
      ∙ take_buffer_after (le_value width (unread a)) width a v (ltb→le _ _ room))
]

-- No extraction, failing or not, moves the cursor out of the data.
pub extract_buffer-IsValid :
    (width : ℕ) (a : Analyzer) → IsValid a → IsValid (extract_buffer width a).1
extract_buffer-IsValid width a v =
    let rest = length (unread a) in
    let size = le_value width (unread a) in
    rw (extract_buffer_lem width a v) (elim (Bool-cases (ltb rest width)) [
      | inl short ↦ rw short (set_size_error-IsValid (codes "int") width a v)
      | inr room ↦ rw room (elim (Bool-cases (ltb rest (width + size))) [
        | inl short ↦ rw short (
            set_size_error-IsValid (codes "buffer") size _
              (advance-IsValid width a v (ltb→le _ _ room)))
        | inr fits ↦ rw fits (advance-IsValid (width + size) a v (ltb→le _ _ fits))
      ])
    ])
