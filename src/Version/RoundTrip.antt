-- ===== src/Version/RoundTrip.antt =====
-- Reading the text of a version gives the version.
use smc_server_client.Common.{
  ℕ, suc, ◌+◌, ◌^◌, ◌<◌, true, false, some, List, [], ◌∷◌, ◌++◌, Bytes, length, take, drop, ◌≡◌,
  refl, sym, ap, ap₂, ◌∙◌, append-nil, drop-drop, take_all, take_past, drop_past, arith, ◌==◌,
  length-append, take-append,
}
use smc_server_client.Text.{
  to_string, find_loop, find_occurences, substr, stoi, read_digits, is_digit,
}
use smc_server_client.Text.Decimal.{AllDigits, to_string-AllDigits, stoi-to_string}
use smc_server_client.Version.{Version, IsVersion, version_text, set_from_string, set_at}

-- Digits hold no dot, so the first dot behind them is found behind them.
find_loop-digits :
    (i : ℕ) (xs ys : Bytes)
    → AllDigits xs
    → find_loop i b'.' (xs ++ ys) ≡ find_loop (i + length xs) b'.' ys
unfolding find_loop
find_loop-digits i [] ys d = ap (λ k. find_loop k b'.' ys) {x = i} {y = i + 0} (omega arith)
find_loop-digits i (x ∷ xs) ys d = rw (no_dot x d.0) (
    find_loop-digits (i + 1) xs ys d.1
    ∙ ap (λ k. find_loop k b'.' ys) {x = i + 1 + length xs} {y = i + suc (length xs)} (omega arith))
  where
    no_dot : (x : ℕ) → is_digit x ≡ true → (x == b'.') ≡ false
    no_dot x h = ground arith

find_loop-end : (i : ℕ) (xs : Bytes) → AllDigits xs → find_loop i b'.' xs ≡ []
unfolding find_loop
find_loop-end i xs d = ap (find_loop i b'.') (sym (append-nil xs)) ∙ find_loop-digits i xs [] d

-- The dots of three numbers.
find_occurences-version_text :
    (a b c : Bytes)
    → AllDigits a
    → AllDigits b
    → AllDigits c
    → find_occurences (a ++ (b'.' ∷ (b ++ (b'.' ∷ c)))) b'.'
      ≡ length a ∷ (length a + 1 + length b) ∷ []
unfolding find_occurences find_loop
find_occurences-version_text a b c da db dc =
    find_loop-digits 0 a _ da
    ∙ ap (◌∷◌ (0 + length a)) (
        find_loop-digits (0 + length a + 1) b _ db
        ∙ ap (◌∷◌ (0 + length a + 1 + length b)) (find_loop-end _ c dc))
    ∙ ap₂ {C = List ℕ} (λ x y. x ∷ y ∷ []) {x = 0 + length a} {y = length a}
        {u = 0 + length a + 1 + length b} {v = length a + 1 + length b} (omega arith) (omega arith)

-- The texts that the three calls of `stoi` read, for the parts of a version text.
module _ (a b c : Bytes) where
  abbrev text : Bytes
  text = a ++ (b'.' ∷ (b ++ (b'.' ∷ c)))

  first_part : substr text 0 (length a) ≡ a ++ []
  first_part = take-append (length a) a _ refl ∙ sym (append-nil a)

  second_part :
      substr text (length a + 1) (length a + 1 + length b) ≡ b ++ (b'.' ∷ take (length a) c)
  second_part =
      ap (take (length a + 1 + length b)) (drop_past a b'.' _)
      ∙ take_past (length a + 1) b (b'.' ∷ c)
      ∙ ap (λ k. b ++ take k (b'.' ∷ c)) {x = length a + 1} {y = suc (length a)} (omega arith)

  third_part : substr text (length a + 1 + length b + 1) (length text) ≡ c ++ []
  third_part =
      ap (take (length text)) (
        ap (λ k. drop k text) {x = length a + 1 + length b + 1} {y = length a + 1 + (length b + 1)}
          (omega arith)
        ∙ sym (drop-drop (length a + 1) (length b + 1) text)
        ∙ ap (drop (length b + 1)) (drop_past a b'.' _)
        ∙ drop_past b b'.' c)
      ∙ take_all (length text) c
          (omega (arith, length-append a (b'.' ∷ (b ++ (b'.' ∷ c))), length-append b (b'.' ∷ c)))
      ∙ sym (append-nil c)

stoi_part :
    (value : ℕ) (part rest : Bytes)
    → value < 2 ^ 16
    → part ≡ to_string value ++ rest
    → read_digits value rest ≡ value
    → stoi (2 ^ 16) part ≡ some value
stoi_part value part rest h e stops =
    ap (stoi (2 ^ 16)) e ∙ stoi-to_string (2 ^ 16) value rest (omega arith) h stops

-- `setFromString` of the dotted text of a version succeeds and sets that version, whatever the
-- object held before.
pub set_from_string-version_text :
    (v old : Version) → IsVersion v → set_from_string (version_text b'.' v) old ≡ (true, v)
unfolding set_from_string version_text read_digits
set_from_string-version_text v old is =
    let a = to_string v.major in
    let b = to_string v.minor in
    let c = to_string v.patch in
    ap (λ t. set_at t (text a b c) old)
      (find_occurences-version_text a b c (to_string-AllDigits v.major)
        (to_string-AllDigits v.minor) (to_string-AllDigits v.patch))
    ∙ rw (
      stoi_part v.major _ [] is.major_lt (first_part a b c) refl,
      stoi_part v.minor _ (b'.' ∷ take (length a) c) is.minor_lt (second_part a b c) refl,
      stoi_part v.patch _ [] is.patch_lt (third_part a b c) refl,
    )
