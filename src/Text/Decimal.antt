-- ===== src/Text/Decimal.antt =====
-- `std::to_string` and `std::stoi` undo one another.
use smc_server_client.Common.{
  ℕ, zero, suc, ◌+◌, ◌-◌, ◌*◌, ◌/◌, ◌%◌, ◌^◌, ◌<◌, true, false, some, [], ◌∷◌, ◌++◌, Bytes, ◌≡◌,
  ◌≢◌, refl, ap, ◌∙◌, arith, append_assoc, ltb, Bool-cases, inl, inr, ltb→le, ltb→lt,
}
use mathlib.Core.List.{concat-ne-nil}
use native.Mathlib.Nat.{mod-eq_of_lt}
use smc_server_client.Text.{
  to_string, decimal, is_digit, read_digits, read_magnitude, stoi_int, stoi,
}

abbrev pub AllDigits : Bytes → Type 0
AllDigits [] = Unit
AllDigits (c ∷ cs) = (is_digit c ≡ true) × AllDigits cs

AllDigits-append : (xs ys : Bytes) → AllDigits xs → AllDigits ys → AllDigits (xs ++ ys)
AllDigits-append [] ys hx hy = hy
AllDigits-append (x ∷ xs) ys hx hy = (hx.0, AllDigits-append xs ys hx.1 hy)

is_digit-add : (d : ℕ) → d < 10 → is_digit (48 + d) ≡ true
is_digit-add d h = ground arith

decimal-AllDigits : (fuel value : ℕ) → AllDigits (decimal fuel value)
unfolding decimal
decimal-AllDigits zero value = tt
decimal-AllDigits (suc fuel) value = elim (Bool-cases (ltb value 10)) [
  | inl small ↦ rw small (is_digit-add value (ltb→lt _ _ small), tt)
  | inr large ↦ rw large (
      AllDigits-append _ _ (decimal-AllDigits fuel (value / 10))
        (is_digit-add (value % 10) (omega arith), tt))
]

pub to_string-AllDigits : (value : ℕ) → AllDigits (to_string value)
unfolding to_string
to_string-AllDigits value = decimal-AllDigits (suc value) value

read_digit :
    (acc d : ℕ) (rest : Bytes)
    → d < 10
    → read_digits acc ((48 + d) ∷ rest) ≡ read_digits (acc * 10 + d) rest
unfolding read_digits
read_digit acc d rest k =
    rw (is_digit-add d k)
      (ap (λ t. read_digits t rest) {x = acc * 10 + (48 + d - 48)} {y = acc * 10 + d} (omega arith))

read_digits-decimal :
    (fuel value : ℕ) (rest : Bytes)
    → value < fuel
    → read_digits 0 (decimal fuel value ++ rest) ≡ read_digits value rest
unfolding decimal
read_digits-decimal zero value rest h = absurd (omega arith)
read_digits-decimal (suc fuel) value rest h = elim (Bool-cases (ltb value 10)) [
  | inl small ↦ rw small (
      read_digit 0 value rest (ltb→lt _ _ small)
      ∙ ap (λ t. read_digits t rest) {x = 0 * 10 + value} {y = value} (omega arith))
  | inr large ↦
      rw (large, append_assoc)
        (read_digits-decimal fuel (value / 10) ((48 + value % 10) ∷ rest)
            (omega (arith, ltb→le _ _ large))
          ∙ read_digit (value / 10) (value % 10) rest (omega arith)
          ∙ ap (λ t. read_digits t rest) {x = value / 10 * 10 + value % 10} {y = value}
              (omega arith))
]

decimal-ne-nil : (fuel value : ℕ) → decimal (suc fuel) value ≢ []
unfolding decimal
decimal-ne-nil fuel value = elim (Bool-cases (ltb value 10)) [
  | inl small ↦ rw small (λ e. cc e)
  | inr large ↦ rw large (concat-ne-nil (48 + value % 10) (decimal fuel (value / 10)))
]

stoi_int-digits :
    (xs rest : Bytes) (value : ℕ)
    → AllDigits xs
    → xs ≢ []
    → read_digits 0 (xs ++ rest) ≡ value
    → value < 2 ^ 31
    → stoi_int (xs ++ rest) ≡ some (false, value)
unfolding stoi_int read_magnitude
stoi_int-digits [] rest value d ne e h = absurd (ne refl)
stoi_int-digits (c ∷ xs) rest value d ne e h = ground arith

-- `std::stoi` reads a printed number back, up to the first byte that is no digit.
pub stoi_int-to_string :
    (value : ℕ) (rest : Bytes)
    → value < 2 ^ 31
    → read_digits value rest ≡ value
    → stoi_int (to_string value ++ rest) ≡ some (false, value)
unfolding to_string
stoi_int-to_string value rest h stops =
    stoi_int-digits (decimal (suc value) value) rest value (decimal-AllDigits (suc value) value)
      (decimal-ne-nil value value)
      (read_digits-decimal (suc value) value rest (omega arith) ∙ stops) h

pub stoi-to_string :
    (range value : ℕ) (rest : Bytes)
    → value < 2 ^ 31
    → value < range
    → read_digits value rest ≡ value
    → stoi range (to_string value ++ rest) ≡ some value
unfolding stoi
stoi-to_string range value rest h k stops =
    rw (stoi_int-to_string value rest h stops, stoi) (ap some (mod-eq_of_lt k))
