-- ===== src/Text/Utf8.antt =====
-- `utf8Length` of Shared/src/util/string.cpp on well-formed UTF-8.
use smc_server_client.Common.{
  ℕ, zero, suc, ◌+◌, ◌/◌, ◌%◌, ◌^◌, ◌<◌, ◌≤◌, List, [], ◌∷◌, ◌++◌, Bytes, length, ◌≡◌, refl, ◌∙◌,
  arith, length-append, ltb, if◌then◌else◌, Bool-cases, inl, inr, ltb→lt,
}
use smc_server_client.Text.{utf8_step, utf8_loop, utf8_length}

-- The encoding of a code point by the standard.
unfoldable pub utf8_char : ℕ → Bytes
utf8_char n =
    if ltb n (2 ^ 7)
    then n ∷ []
    else if ltb n (2 ^ 11)
    then (192 + n / 2 ^ 6) ∷ (128 + n % 2 ^ 6) ∷ []
    else if ltb n (2 ^ 16)
    then (224 + n / 2 ^ 12) ∷ (128 + n / 2 ^ 6 % 2 ^ 6) ∷ (128 + n % 2 ^ 6) ∷ []
    else (240 + n / 2 ^ 18)
      ∷ (128 + n / 2 ^ 12 % 2 ^ 6)
      ∷ (128 + n / 2 ^ 6 % 2 ^ 6)
      ∷ (128 + n % 2 ^ 6)
      ∷ []

unfoldable pub utf8_text : List ℕ → Bytes
utf8_text [] = []
utf8_text (n ∷ ns) = utf8_char n ++ utf8_text ns

abbrev pub CodePoints : List ℕ → Type 0
CodePoints [] = Unit
CodePoints (n ∷ ns) = (n < 2 ^ 21) × CodePoints ns

step_one : (c : ℕ) → c < 128 → utf8_step c ≡ 1
unfolding utf8_step
step_one c h = ground arith

step_two : (c : ℕ) → 192 ≤ c → c < 224 → utf8_step c ≡ 2
unfolding utf8_step
step_two c h k = ground arith

step_three : (c : ℕ) → 224 ≤ c → c < 240 → utf8_step c ≡ 3
unfolding utf8_step
step_three c h k = ground arith

step_four : (c : ℕ) → 240 ≤ c → c < 248 → utf8_step c ≡ 4
unfolding utf8_step
step_four c h k = ground arith

-- One round passes the encoding of one code point.
utf8_loop-char :
    (fuel n : ℕ) (rest : Bytes) (count : ℕ)
    → n < 2 ^ 21
    → utf8_loop (suc fuel) (utf8_char n ++ rest) count ≡ utf8_loop fuel rest (count + 1)
unfolding utf8_loop utf8_char
utf8_loop-char fuel n rest count h = elim (Bool-cases (ltb n (2 ^ 7))) [
  | inl one ↦ rw (one, step_one n (ltb→lt _ _ one)) refl
  | inr no_one ↦ elim (Bool-cases (ltb n (2 ^ 11))) [
    | inl two ↦
        let k = ltb→lt n (2 ^ 11) two in
        rw (no_one, two, step_two (192 + n / 2 ^ 6) (omega arith) (omega arith)) refl
    | inr no_two ↦ elim (Bool-cases (ltb n (2 ^ 16))) [
      | inl three ↦
          let k = ltb→lt n (2 ^ 16) three in
          rw (no_one, no_two, three, step_three (224 + n / 2 ^ 12) (omega arith) (omega arith)) refl
      | inr four ↦
          rw (no_one, no_two, four, step_four (240 + n / 2 ^ 18) (omega arith) (omega arith)) refl
    ]
  ]
]

utf8_char-length : (n : ℕ) → 1 ≤ length (utf8_char n)
unfolding utf8_char
utf8_char-length n = ground arith

utf8_loop-text :
    (fuel : ℕ) (ns : List ℕ) (count : ℕ)
    → CodePoints ns
    → length (utf8_text ns) ≤ fuel
    → utf8_loop fuel (utf8_text ns) count ≡ count + length ns
unfolding utf8_loop utf8_text
utf8_loop-text zero [] count known enough = omega arith
utf8_loop-text (suc fuel) [] count known enough = omega arith
utf8_loop-text zero (n ∷ ns) count known enough =
    absurd (omega (arith, length-append (utf8_char n) (utf8_text ns), utf8_char-length n))
utf8_loop-text (suc fuel) (n ∷ ns) count known enough =
    utf8_loop-char fuel n (utf8_text ns) count known.0
    ∙ utf8_loop-text fuel ns (count + 1) known.1
        (omega (arith, length-append (utf8_char n) (utf8_text ns), utf8_char-length n))
    ∙ omega arith

-- The length of a text that is encoded as UTF-8 is the number of its code points, each below 2^21.
pub utf8_length-text : (ns : List ℕ) → CodePoints ns → utf8_length (utf8_text ns) ≡ length ns
unfolding utf8_length
utf8_length-text ns known =
    utf8_loop-text (length (utf8_text ns)) ns 0 known (omega arith) ∙ omega arith
