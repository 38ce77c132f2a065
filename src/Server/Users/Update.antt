-- ===== src/Server/Users/Update.antt =====
-- What an update of a user does to later look-ups.
use smc_server_client.Common.{
  true, false, ◌&&◌, List, [], ◌∷◌, Bytes, text_eq, text_eq_iff, Bool-cases, if◌then◌else◌, inl,
  inr, ◌≡◌, refl, sym, ap, ◌∙◌, map, arith,
}
use smc_server_client.Server.Users.{User, get, set}

text_eq_refl : (a : Bytes) → text_eq a a ≡ true
text_eq_refl a = (text_eq_iff a a).1 refl

text_eq_comm : (a b : Bytes) → text_eq a b ≡ text_eq b a
text_eq_comm a b = elim (Bool-cases (text_eq a b)) [
  | inl same ↦ let e : a ≡ b = (text_eq_iff a b).0 same in same ∙ sym ((text_eq_iff b a).1 (sym e))
  | inr differ ↦ elim (Bool-cases (text_eq b a)) [
    | inl back ↦
        let e : a ≡ b = sym ((text_eq_iff b a).0 back) in
        let clash : true ≡ false = sym ((text_eq_iff a b).1 e) ∙ differ in absurd (ground arith)
    | inr other ↦ differ ∙ sym other
  ]
]

-- After `set`, the name of the user finds the user if `set` found the name before; every other name
-- finds what it found before.
pub get-set :
    (name : Bytes) (user : User) (users : List User)
    → get name (set user users).1
      ≡ (if text_eq user.name name && (set user users).0 then user else get name users)
unfolding get set
get-set name user [] = elim (Bool-cases (text_eq user.name name)) [
  | inl same ↦ rw same refl
  | inr differ ↦ rw differ refl
]
get-set name user (curr_user ∷ users) =
    let later = get-set name user users in
    elim (Bool-cases (text_eq user.name curr_user.name)) [
      | inl same ↦
          let names : text_eq user.name name ≡ text_eq curr_user.name name =
            ap (λ n. text_eq n name) ((text_eq_iff user.name curr_user.name).0 same) in
          ground arith
      | inr differ ↦ elim (Bool-cases (text_eq curr_user.name name)) [
        | inl here ↦
            let names : text_eq user.name name ≡ false =
              ap (text_eq user.name) (sym ((text_eq_iff curr_user.name name).0 here)) ∙ differ in
            ground arith
        | inr elsewhere ↦ ground arith
      ]
    ]

-- Who is found has the name, and `set` finds who is found.
pub get-name :
    (name : Bytes) (users : List User)
    → (get name users).is_valid ≡ true
    → text_eq (get name users).name name ≡ true
unfolding get
get-name name [] valid = absurd (ground arith)
get-name name (user ∷ users) valid = elim (Bool-cases (text_eq user.name name)) [
  | inl here ↦ rw here here
  | inr elsewhere ↦ let later = get-name name users in ground arith
]

pub set-found :
    (name : Bytes) (user : User) (users : List User)
    → (get name users).is_valid ≡ true
    → text_eq user.name name ≡ true
    → (set user users).0 ≡ true
unfolding get set
set-found name user [] valid same = absurd (ground arith)
set-found name user (curr_user ∷ users) valid same =
    elim (Bool-cases (text_eq user.name curr_user.name)) [
      | inl here ↦ rw here refl
      | inr elsewhere ↦
          let other : text_eq curr_user.name name ≡ false =
            ap (λ n. text_eq curr_user.name n) (sym ((text_eq_iff user.name name).0 same))
            ∙ text_eq_comm curr_user.name user.name
            ∙ elsewhere in
          let later = set-found name user users in ground arith
    ]

-- A user that is found and updated under the same name is what is found then.
pub get-set_found :
    (name : Bytes) (user : User) (users : List User)
    → (get name users).is_valid ≡ true
    → text_eq user.name name ≡ true
    → get name (set user users).1 ≡ user
get-set_found name user users valid same =
    let found = set-found name user users valid same in
    get-set name user users ∙ rw (same, found) refl

-- `set` never changes the names, nor their order, and so neither the number of users.
pub set-names :
    (user : User) (users : List User)
    → map (λ u. u.name) (set user users).1 ≡ map (λ u. u.name) users
unfolding set
set-names user [] = refl
set-names user (curr_user ∷ users) = elim (Bool-cases (text_eq user.name curr_user.name)) [
  | inl same ↦
      rw same
        (ap (λ n. n ∷ map (λ u. u.name) users) ((text_eq_iff user.name curr_user.name).0 same))
  | inr differ ↦ rw differ (ap (λ ns. curr_user.name ∷ ns) (set-names user users))
]
