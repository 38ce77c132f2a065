-- ===== src/Smcl/Progress.antt =====
-- Every token but the last takes a byte at least, so that a file has an end.
use smc_server_client.Common.{
  ℕ, ◌*◌, ◌+◌, ◌-◌, ◌^◌, ◌≤◌, ◌<◌, ◌⊎◌, inl, inr, Bool, true, false, ◌||◌, none, [], ◌∷◌, ◌++◌,
  Bytes, length, ◌==◌, ltb, Bool-cases, Option-cases, ◌≡◌, sym, ap, arith,
}
use smc_server_client.Text.{is_space, is_digit}
use smc_server_client.Smcl.Lexer.{
  TokenId, eof, Token, Lexed, lexed, string_not_closed, overflow, skip_spaces, simple_token,
  is_simple_char_token, get_escape_char, string_loop, int_token, number_loop, split_identifier,
  build_token, token_at, next_token,
}

-- How much is left.
abbrev left_of : Lexed → ℕ
left_of (lexed t rest) = length rest
left_of string_not_closed = 0
left_of overflow = 0

abbrev id_of : Lexed → TokenId
id_of (lexed t rest) = t.id
id_of string_not_closed = eof
id_of overflow = eof

abbrev Starts : Bytes → Type 0
Starts [] = Unit
Starts (c ∷ cs) = is_space c ≡ false

skip_spaces-Starts :
    (left : Bytes) → Starts (skip_spaces left) × (length (skip_spaces left) ≤ length left)
unfolding skip_spaces
skip_spaces-Starts [] = (tt, omega arith)
skip_spaces-Starts (c ∷ cs) = elim (Bool-cases (is_space c)) [
  | inl space ↦ let later = skip_spaces-Starts cs in rw space (later.0, omega (arith, later.1))
  | inr other ↦ rw other (other, omega arith)
]

left-string_loop :
    (escaped : Bool) (seen left : Bytes) → left_of (string_loop escaped seen left) ≤ length left
unfolding string_loop
left-string_loop escaped seen [] = omega arith
left-string_loop true seen (c ∷ left) =
    omega (arith, left-string_loop false (seen ++ (get_escape_char c ∷ [])) left)
left-string_loop false seen (c ∷ left) = elim (Bool-cases (c == 92)) [
  | inl slash ↦ rw slash (omega (arith, left-string_loop true seen left))
  | inr other ↦ elim (Bool-cases (c == b'"')) [
    | inl quote ↦ rw (other, quote) (omega arith)
    | inr plain ↦ rw (other, plain) (omega (arith, left-string_loop false (seen ++ (c ∷ [])) left))
  ]
]

left-int_token : (n : ℕ) (left : Bytes) → left_of (int_token n left) ≤ length left
left-int_token n left = elim (Bool-cases (ltb n (2 ^ 31))) [
  | inl fits ↦ rw fits (omega arith)
  | inr large ↦ rw large (omega arith)
]

left-number_loop : (n : ℕ) (left : Bytes) → left_of (number_loop n left) ≤ length left
unfolding number_loop
left-number_loop n [] = left-int_token n []
left-number_loop n (c ∷ left) = elim (Bool-cases (is_digit c)) [
  | inl digit ↦ rw digit (omega (arith, left-number_loop (n * 10 + (c - 48)) left))
  | inr other ↦ rw other (left-int_token n (c ∷ left))
]

left-split_identifier : (left : Bytes) → length (split_identifier left).1 ≤ length left
unfolding split_identifier
left-split_identifier [] = omega arith
left-split_identifier (c ∷ left) = elim (Bool-cases (is_space c || is_simple_char_token c)) [
  | inl ends ↦ rw ends (omega arith)
  | inr goes ↦ rw goes (omega (arith, left-split_identifier left))
]

-- Both tests for a token of one byte agree.
simple_token-none : (c : ℕ) → simple_token c ≡ none → is_simple_char_token c ≡ false
unfolding simple_token is_simple_char_token
simple_token-none c h = ground arith

left-build_token :
    (c : ℕ) (left : Bytes) → is_space c ≡ false → left_of (build_token c left) ≤ length left
unfolding build_token number_loop split_identifier
left-build_token c left start = elim (Option-cases (simple_token c)) [
  | inl complex ↦ elim (Bool-cases (c == b'"')) [
    | inl quote ↦ rw (complex, build_token, quote) (left-string_loop false [] left)
    | inr other ↦ elim (Bool-cases (is_digit c)) [
      | inl digit ↦
          rw (complex, build_token, other, digit) (left-number_loop (0 * 10 + (c - 48)) left)
      | inr plain ↦
          rw (complex, build_token, other, plain, start, simple_token-none c complex)
            (left-split_identifier left)
    ]
  ]
  | inr (id, found) ↦ rw (found, build_token) (omega arith)
]

token_at-progress :
    (left : Bytes)
    → Starts left
    → (t : Token) (rest : Bytes) → token_at left ≡ lexed t rest
    → (t.id ≡ eof) ⊎ (length rest < length left)
token_at-progress [] start t rest e = inl (sym (ap id_of e))
token_at-progress (c ∷ left) start t rest e =
    inr (omega (arith, left-build_token c left start, ap left_of e))

-- A token that is not the end of the file leaves less than there was, spaces before it included: a loop
-- over the tokens of a file ends.
pub next_token-progress :
    (left : Bytes) (t : Token) (rest : Bytes)
    → next_token left ≡ lexed t rest
    → (t.id ≡ eof) ⊎ (length rest < length left)
unfolding next_token
next_token-progress left t rest e =
    let skipped = skip_spaces-Starts left in
    elim (token_at-progress (skip_spaces left) skipped.0 t rest e) [
      | inl ended ↦ inl ended
      | inr less ↦ inr (omega (arith, skipped.1))
    ]
