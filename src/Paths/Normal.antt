-- ===== src/Paths/Normal.antt =====
-- A normal path has no more file names than the path that it is made of.
use smc_server_client.Common.{
  ℕ, ◌+◌, ◌≤◌, Bool, true, false, not, ◌&&◌, ◌||◌, List, [], ◌∷◌, Bytes, length, text_eq, ◌≡◌, refl,
  arith, Bool-cases, inl, inr,
}
use smc_server_client.Paths.{
  FilePath, is_empty, dot_dot, keeps_up, tail, normal_names, onto, closed_names, or_dot,
  lexically_normal,
}

abbrev bit : Bool → ℕ
bit true = 1
bit false = 0

length-onto : (stack names : List Bytes) → length (onto stack names) ≡ length stack + length names
unfolding onto
length-onto [] names = omega arith
length-onto (name ∷ stack) names = omega (arith, length-onto stack (name ∷ names))

tail-length : (stack : List Bytes) → keeps_up stack ≡ false → length stack ≡ length (tail stack) + 1
tail-length [] h = cc
tail-length (name ∷ stack) h = omega arith

-- The names that are kept, with the separator behind them, are no more than those that were read.
normal_names-length :
    (has_root : Bool) (stack : List Bytes) (at_separator : Bool) (names : List Bytes)
    → let r = normal_names has_root stack at_separator names in
      length r.0 + bit r.1 ≤ length stack + bit at_separator + length names
unfolding normal_names
normal_names-length has_root stack at_separator [] = omega arith
normal_names-length has_root stack at_separator (name ∷ names) =
    let stay = normal_names-length has_root stack true names in
    let up = normal_names-length has_root (tail stack) true names in
    let skip = normal_names-length has_root stack at_separator names in
    let push = normal_names-length has_root (name ∷ stack) false names in
    elim (Bool-cases (is_empty name || text_eq name (b'.' ∷ []))) [
      | inl a ↦ rw a (omega arith)
      | inr a ↦ elim (Bool-cases (not (text_eq name dot_dot))) [
        | inl b ↦ rw (a, b) (omega arith)
        | inr b ↦ elim (Bool-cases (keeps_up stack)) [
          | inr c ↦ rw (a, b, c) (omega (arith, tail-length stack c))
          | inl c ↦ elim (Bool-cases (has_root && is_empty stack)) [
            | inl e ↦ rw (a, b, c, e) (omega arith)
            | inr e ↦ rw (a, b, c, e) (omega arith)
          ]
        ]
      ]
    ]

closed_names-length : (r : List Bytes × Bool) → length (closed_names r) ≤ length r.0 + bit r.1
closed_names-length (stack, true) = elim (Bool-cases (keeps_up stack)) [
  | inl up ↦ rw up (omega (arith, length-onto stack []))
  | inr other ↦ rw other (omega (arith, length-onto stack ([] ∷ [])))
]
closed_names-length (stack, false) = omega (arith, length-onto stack [])

or_dot-length :
    (p : FilePath) (n : ℕ) → length p.elements ≤ n → 1 ≤ n → length (or_dot p).elements ≤ n
or_dot-length p n h k = ground arith

-- Without names it is a root or nothing, which is normal.
pub length-lexically_normal :
    (p : FilePath) → length (lexically_normal p).elements ≤ length p.elements
unfolding lexically_normal
length-lexically_normal p = by_names p.elements refl
  where
    by_names :
        (names : List Bytes)
        → p.elements ≡ names
        → length (lexically_normal p).elements ≤ length p.elements
    by_names [] e = ground arith
    by_names (name ∷ names) e =
        let r = normal_names p.has_root [] false p.elements in
        let some_names : not (is_empty p.elements) ≡ true = rw e refl in
        let one : 1 ≤ length p.elements = rw e (omega arith) in
        rw some_names (
          or_dot-length (record p { elements = closed_names r }) (length p.elements)
            (omega
              (arith, closed_names-length r, normal_names-length p.has_root [] false p.elements))
            one)
