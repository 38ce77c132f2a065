-- ===== src/Wire/Digits.antt =====
-- The little-endian digits that the loops of `insertInt` and `extractInt` write and read.
use smc_server_client.Common.{
  ℕ, zero, suc, ◌+◌, ◌*◌, ◌/◌, ◌%◌, ◌^◌, ◌≤◌, ◌<◌, [], ◌∷◌, ◌++◌, Bytes, length, get_or, take, drop,
  drop-drop, ◌≡◌, refl, sym, ap, ◌∙◌, arith,
}
use native.Mathlib.Nat.{
  pow-zero, pow-suc, div-div-eq-div-mul, div-add-mod, mod-lt, mod-eq_of_lt, mul-add-mod_self_left,
  one-le-pow,
}
use native.Mathlib.Numerals.{towards_suc}
use smc_server_client.Wire.{extract_loop, insert_loop, copy_loop, byte_at}

abbrev pub le_bytes : ℕ → ℕ → Bytes
le_bytes zero value = []
le_bytes (suc n) value = value % 256 ∷ le_bytes n (value / 256)

abbrev pub le_value : ℕ → Bytes → ℕ
le_value zero xs = 0
le_value (suc n) xs = get_or xs 0 0 + 256 * le_value n (drop 1 xs)

pow_shift : (i : ℕ) → 2 ^ ((i + 1) * 8) ≡ 2 ^ (i * 8) * 256
pow_shift i = rw (shifted i) (simp towards_suc (omega arith))
  where
    shifted : (i : ℕ) → (i + 1) * 8 ≡ i * 8 + 8
    shifted i = omega arith

div_shift : (value i : ℕ) → value / 2 ^ ((i + 1) * 8) ≡ value / 2 ^ (i * 8) / 256
div_shift value i = rw (pow_shift i) (sym (div-div-eq-div-mul value (2 ^ (i * 8)) 256))

pub insert_loop-le_bytes :
    (n i value : ℕ) → insert_loop n i value ≡ le_bytes n (value / 2 ^ (i * 8))
unfolding insert_loop
insert_loop-le_bytes zero i value = refl
insert_loop-le_bytes (suc n) i value =
    ap (◌∷◌ (byte_at value i))
      (insert_loop-le_bytes n (i + 1) value ∙ ap (le_bytes n) (div_shift value i))

pub get_or-drop : (k i : ℕ) (xs : Bytes) → get_or (drop k xs) i 0 ≡ get_or xs (k + i) 0
get_or-drop zero i xs = ap (λ j. get_or xs j 0) {x = i} {y = zero + i} (omega arith)
get_or-drop (suc k) i [] = refl
get_or-drop (suc k) i (x ∷ xs) =
    get_or-drop k i xs
    ∙ ap (λ j. get_or (x ∷ xs) j 0) {x = suc (k + i)} {y = suc k + i} (omega arith)

plus_zero : (k : ℕ) → k + 0 ≡ k
plus_zero k = omega arith

pub le_value-drop :
    (n k : ℕ) (xs : Bytes)
    → le_value (suc n) (drop k xs) ≡ get_or xs k 0 + 256 * le_value n (drop (k + 1) xs)
le_value-drop n k xs = cc (
  ap (λ t. t + 256 * le_value n (drop (k + 1) xs))
      (get_or-drop k 0 xs ∙ ap (λ j. get_or xs j 0) (plus_zero k)),
  ap (λ t. get_or (drop k xs) 0 0 + 256 * le_value n t) (drop-drop k 1 xs),
)

regroup : (v b l p q : ℕ) → q ≡ p * 256 → v + b * p + l * q ≡ v + (b + 256 * l) * p
regroup v b l p q h = rw h (omega arith)

pub extract_loop-le_value :
    (n i : ℕ) (bytes : Bytes) (cursor value : ℕ)
    → extract_loop n i bytes cursor value
      ≡ value + le_value n (drop (cursor + i) bytes) * 2 ^ (i * 8)
unfolding extract_loop
extract_loop-le_value zero i bytes cursor value = omega arith
extract_loop-le_value (suc n) i bytes cursor value =
    let rest = le_value n (drop (cursor + (i + 1)) bytes) in
    let same : le_value n (drop (cursor + i + 1) bytes) ≡ rest =
      ap (λ k. le_value n (drop k bytes)) {x = cursor + i + 1} {y = cursor + (i + 1)}
        (omega arith) in
    extract_loop-le_value n (i + 1) bytes cursor _
    ∙ regroup value (get_or bytes (cursor + i) 0) rest (2 ^ (i * 8)) _ (pow_shift i)
    ∙ ap (λ t. value + t * 2 ^ (i * 8))
        (sym (
          le_value-drop n (cursor + i) bytes
          ∙ ap (λ t. get_or bytes (cursor + i) 0 + 256 * t) same))

mod_bound : (v q b : ℕ) → q < b → v % 256 + 256 * q < b * 256
mod_bound v q b h = omega arith

mod_split : (v b : ℕ) → v ≡ b * 256 * (v / 256 / b) + (v % 256 + 256 * (v / 256 % b))
mod_split v b = from (v / 256) (v / 256 / b) (v / 256 % b) (div-add-mod (v / 256) b) (omega arith)
  where
    from :
        (q d m : ℕ) → b * d + m ≡ q → v ≡ 256 * q + v % 256 → v ≡ b * 256 * d + (v % 256 + 256 * m)
    from q d m h k = omega arith

mod_step : (v b : ℕ) → 0 < b → v % 256 + 256 * (v / 256 % b) ≡ v % (b * 256)
mod_step v b h = sym (
    ap (λ t. t % (b * 256)) (mod_split v b)
    ∙ mul-add-mod_self_left (b * 256) (v / 256 / b) _
    ∙ mod-eq_of_lt (mod_bound v (v / 256 % b) b (mod-lt (v / 256) h)))

-- Writing and reading back `n` digits keeps the number, modulo its range.
pub le_value-le_bytes :
    (n value : ℕ) (rest : Bytes) → le_value n (le_bytes n value ++ rest) ≡ value % 256 ^ n
le_value-le_bytes zero value rest = rw pow-zero (omega arith)
le_value-le_bytes (suc n) value rest =
    rw (le_value-le_bytes n (value / 256) rest, pow-suc)
      (mod_step value (256 ^ n) (one-le-pow n 256 (omega arith)))

pub length-le_bytes : (n value : ℕ) → length (le_bytes n value) ≡ n
length-le_bytes zero value = refl
length-le_bytes (suc n) value = ap suc (length-le_bytes n (value / 256))

pub extract_loop-start :
    (n : ℕ) (bytes : Bytes) (cursor : ℕ)
    → extract_loop n 0 bytes cursor 0 ≡ le_value n (drop cursor bytes)
extract_loop-start n bytes cursor =
    extract_loop-le_value n 0 bytes cursor 0
    ∙ ap (λ k. 0 + le_value n (drop k bytes) * 2 ^ (0 * 8)) (plus_zero cursor)
    ∙ unit (le_value n (drop cursor bytes))
  where
    unit : (l : ℕ) → 0 + l * 2 ^ (0 * 8) ≡ l
    unit l = omega arith

drop-cons : (k : ℕ) (xs : Bytes) → k < length xs → drop k xs ≡ get_or xs k 0 ∷ drop (k + 1) xs
drop-cons zero [] h = absurd (omega arith)
drop-cons (suc k) [] h = absurd (omega arith)
drop-cons zero (x ∷ xs) h =
    ap (λ k. x ∷ drop k (x ∷ xs)) {x = suc zero} {y = zero + 1} (omega arith)
drop-cons (suc k) (x ∷ xs) h =
    drop-cons k xs (omega arith)
    ∙ ap (λ j. get_or xs k 0 ∷ drop j (x ∷ xs)) {x = suc (k + 1)} {y = suc k + 1} (omega arith)

pub copy_loop-take :
    (n i : ℕ) (bytes : Bytes) (cursor : ℕ)
    → cursor + i + n ≤ length bytes
    → copy_loop n i bytes cursor ≡ take n (drop (cursor + i) bytes)
unfolding copy_loop
copy_loop-take zero i bytes cursor h = refl
copy_loop-take (suc n) i bytes cursor h = rw (drop-cons (cursor + i) bytes (omega arith)) (
    ap (◌∷◌ (get_or bytes (cursor + i) 0)) (
      copy_loop-take n (i + 1) bytes cursor (omega arith)
      ∙ ap (λ k. take n (drop k bytes)) {x = cursor + (i + 1)} {y = cursor + i + 1} (omega arith)))
