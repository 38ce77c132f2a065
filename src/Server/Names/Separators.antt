-- ===== src/Server/Names/Separators.antt =====
-- A valid name names a file of its directory: it has no separator, and it is not `.` or `..`.
use smc_server_client.Common.{
  ℕ, Bool, true, false, ◌&&◌, ◌||◌, ◌++◌, append-nil, append_assoc, if◌then◌else◌, refl, [], ◌∷◌,
  Bytes, ◌==◌, ==_iff, Bool-cases, inl, inr, ◌≡◌, sym, ap, ◌∙◌, arith,
}
use smc_server_client.Paths.{
  is_letter, root_name_size, split_names, skip_separators, path_of, name_path,
}
use smc_server_client.Server.Names.{
  invalid_filename_chars, contains, any_invalid, back, is_valid_name,
}

abbrev pub Lacks : ℕ → Bytes → Type 0
Lacks x [] = Unit
Lacks x (c ∷ cs) = (c == x ≡ false) × Lacks x cs

or-false : (a b : Bool) → a || b ≡ false → (a ≡ false) × (b ≡ false)
or-false a b h = ground arith

any_invalid-Lacks :
    (x : ℕ) (name : Bytes)
    → contains x invalid_filename_chars ≡ true
    → any_invalid name ≡ false
    → Lacks x name
unfolding any_invalid
any_invalid-Lacks x [] bad clean = tt
any_invalid-Lacks x (c ∷ name) bad clean =
    let parts = or-false (contains c invalid_filename_chars) (any_invalid name) clean in
    let differs : c == x ≡ false = elim (Bool-cases (c == x)) [
      | inl same ↦
          let found : contains c invalid_filename_chars ≡ true =
            ap (λ n. contains n invalid_filename_chars) ((==_iff c x).0 same) ∙ bad in
          let clash : true ≡ false = sym found ∙ parts.0 in ground arith
      | inr other ↦ other
    ] in
    (differs, any_invalid-Lacks x name bad parts.1)

-- The nine bytes, spelled out.
abbrev pub forbidden : Bytes
forbidden = b'/' ∷ 92 ∷ b':' ∷ b'*' ∷ b'?' ∷ b'"' ∷ b'<' ∷ b'>' ∷ b'|' ∷ []

abbrev pub LacksAll : Bytes → Bytes → Type 0
LacksAll [] name = Unit
LacksAll (x ∷ xs) name = Lacks x name × LacksAll xs name

-- A text without separators is one name.
split_names-one :
    (name text : Bytes)
    → Lacks b'/' text
    → Lacks 92 text
    → split_names false name text ≡ (name ++ text) ∷ []
unfolding split_names
split_names-one name [] slash backslash = ap (λ n. n ∷ []) (sym (append-nil name))
split_names-one name (c ∷ text) slash backslash =
    rw (slash.0, backslash.0)
      (split_names-one (name ++ (c ∷ [])) text slash.1 backslash.1
        ∙ ap (λ n. n ∷ []) (append_assoc name (c ∷ []) text))

root_name_size-none :
    (c : ℕ) (name : Bytes)
    → Lacks b'/' (c ∷ name)
    → Lacks 92 (c ∷ name)
    → Lacks b':' (c ∷ name)
    → root_name_size (c ∷ name) ≡ 0
unfolding root_name_size
root_name_size-none c [] slash backslash colon = refl
root_name_size-none c (d ∷ name) slash backslash colon =
    rw (slash.0, backslash.0, colon.1.0) (no_drive (is_letter c))
  where
    no_drive : (letter : Bool) → ◌≡◌ {A = ℕ} (if letter && false then 2 else 0) 0
    no_drive true = refl
    no_drive false = refl

path_of-one :
    (c : ℕ) (name : Bytes)
    → Lacks b'/' (c ∷ name)
    → Lacks 92 (c ∷ name)
    → Lacks b':' (c ∷ name)
    → path_of (c ∷ name) ≡ name_path (c ∷ name)
unfolding path_of skip_separators
path_of-one c name slash backslash colon =
    rw
      (
        root_name_size-none c name slash backslash colon,
        slash.0,
        backslash.0,
        split_names-one [] (c ∷ name) slash backslash,
      )
      refl

-- A valid name is, as a path, one name alone, without a drive, a root or a directory; it does not end
-- in a full stop or a space, so that it is never `.` or `..`; and it has none of the slash, the
-- backslash, the colon, the asterisk, the question mark, the double quote, the two angle brackets and
-- the bar.
pub is_valid_name-one_name :
    (c : ℕ) (name : Bytes)
    → is_valid_name (c ∷ name) ≡ true
    → (path_of (c ∷ name) ≡ name_path (c ∷ name))
      × (back c name == b'.' ≡ false)
      × (back c name == b' ' ≡ false)
      × LacksAll forbidden (c ∷ name)
unfolding is_valid_name contains
is_valid_name-one_name c name valid =
    let ends : Bool = back c name == b' ' || back c name == b'.' in
    elim (Bool-cases (any_invalid (c ∷ name) || ends)) [
      | inl bad ↦ let clash : false ≡ true = rw bad at valid in absurd (ground arith)
      | inr good ↦
          let parts = or-false (any_invalid (c ∷ name)) ends good in
          let last = or-false (back c name == b' ') (back c name == b'.') parts.1 in
          let lacks : (x : ℕ) → contains x invalid_filename_chars ≡ true → Lacks x (c ∷ name) =
            λ x bad. any_invalid-Lacks x (c ∷ name) bad parts.0 in
          let slash = lacks b'/' refl in
          let backslash = lacks 92 refl in
          let colon = lacks b':' refl in
          (
            path_of-one c name slash backslash colon,
            last.1,
            last.0,
            (
              slash,
              (
                backslash,
                (
                  colon,
                  (
                    lacks b'*' refl,
                    (
                      lacks b'?' refl,
                      (
                        lacks b'"' refl,
                        (lacks b'<' refl, (lacks b'>' refl, (lacks b'|' refl, tt))),
                      ),
                    ),
                  ),
                ),
              ),
            ),
          )
    ]
