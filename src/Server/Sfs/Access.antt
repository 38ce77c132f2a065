-- ===== src/Server/Sfs/Access.antt =====
-- `canLexicallyAccess` calls itself, through `isUIFFile`, on the directory of the path. That ends.
use smc_server_client.Common.{
  ℕ, zero, suc, ◌+◌, ◌≤◌, Bool, true, false, not, ◌&&◌, List, [], ◌∷◌, Bytes, codes, length,
  text_eq, ◌≡◌, refl, ap, arith, if◌then◌else◌, Bool-cases, inl, inr,
}
use smc_server_client.Paths.{FilePath, lexically_normal, parent_path, filename, front}
use smc_server_client.Paths.Normal.{length-lexically_normal}
use smc_server_client.Protocol.Roles.{Role, user, admin, developer, no_role, other_role}
use smc_server_client.Server.Handler.{Client}
use smc_server_client.Server.Disk.{Disk}
use smc_server_client.Server.Sfs.{
  Directories, is_in_directory, role_allows, is_pud_directory_by, access_within,
  can_lexically_access,
}

length-front : (x : Bytes) (xs : List Bytes) → length (front (x ∷ xs)) + 1 ≡ length (x ∷ xs)
length-front x [] = omega arith
length-front x (y ∷ xs) = omega (arith, length-front y xs)

-- A root, or a path of nothing at all, is not in the directory of the users.
abbrev pub NoRootOfUsers : {D : Type 0} → Disk D → Directories → Client → D → Type 0
NoRootOfUsers os dirs client d =
    (p : FilePath) → p.elements ≡ [] → is_in_directory os dirs client d p dirs.s_users ≡ false

module _ {D : Type 0} (os : Disk D) (dirs : Directories) (client : Client) (d : D) where
  -- Two tests that agree on a directory lead to the same answer on what is in it.
  is_pud_directory_by-eq :
      (f g : FilePath → Bool) (p : FilePath)
      → (is_in_directory os dirs client d p dirs.s_users ≡ true → f p ≡ g p)
      → is_pud_directory_by os dirs client d f p ≡ is_pud_directory_by os dirs client d g p
  is_pud_directory_by-eq f g p same =
      elim (Bool-cases (is_in_directory os dirs client d p dirs.s_users)) [
        | inl inside ↦ rw (inside, same inside) refl
        | inr outside ↦ rw outside refl
      ]

  role_allows-eq :
      (f g : FilePath → Bool) (role : Role) (p : FilePath)
      → (is_in_directory os dirs client d (parent_path p) dirs.s_users ≡ true
          → f (parent_path p) ≡ g (parent_path p))
      → role_allows os dirs client d f role p ≡ role_allows os dirs client d g role p
  role_allows-eq f g admin p same =
      ap
        (λ t.
          is_in_directory os dirs client d p dirs.strg
          && not (t && text_eq (filename p) (codes ".uif")))
        (is_pud_directory_by-eq f g (parent_path p) same)
  role_allows-eq f g user p same = refl
  role_allows-eq f g developer p same = refl
  role_allows-eq f g no_role p same = refl
  role_allows-eq f g (other_role n) p same = refl

  module _ (apart : NoRootOfUsers os dirs client d) where
    parent-shorter :
        (p : FilePath)
        → is_in_directory os dirs client d (parent_path p) dirs.s_users ≡ true
        → length (parent_path p).elements + 1 ≤ length p.elements
    parent-shorter p inside = by_names p.elements refl
      where
        by_names :
            (names : List Bytes)
            → p.elements ≡ names
            → length (parent_path p).elements + 1 ≤ length p.elements
        by_names [] e = let outside = apart (parent_path p) (ap front e) in cc
        by_names (x ∷ xs) e =
            omega (arith, length-front x xs, ap length e, ap (λ t. length (front t)) e)

    access_within-eq :
        (m n : ℕ) (p : FilePath)
        → length p.elements + 2 ≤ m
        → length p.elements + 2 ≤ n
        → access_within os dirs client d m p ≡ access_within os dirs client d n p
    unfolding access_within
    access_within-eq zero n p hm hn = absurd (omega arith)
    access_within-eq (suc m) zero p hm hn = absurd (omega arith)
    access_within-eq (suc m) (suc n) p hm hn =
        let normal = lexically_normal p in
        let same : is_in_directory os dirs client d (parent_path normal) dirs.s_users ≡ true
            → access_within os dirs client d m (parent_path normal)
              ≡ access_within os dirs client d n (parent_path normal) =
          λ inside.
            let shorter = parent-shorter normal inside in
            access_within-eq m n (parent_path normal) (omega (arith, length-lexically_normal p))
              (omega (arith, length-lexically_normal p)) in
        ap (λ t. if client.is_logged then t else false)
          (role_allows-eq (access_within os dirs client d m) (access_within os dirs client d n)
            client.user.role normal same)

    -- Two rounds more than the path has names are enough: `canLexicallyAccess` then satisfies the
    -- equation that the code has, its calls of itself included, and further rounds change nothing. It is
    -- assumed that no root is in the directory of the users.
    pub can_lexically_access-ends :
        (p : FilePath) (rounds : ℕ)
        → length p.elements + 2 ≤ rounds
        → (can_lexically_access os dirs client d p ≡ (
            if client.is_logged
            then role_allows os dirs client d
                (can_lexically_access os dirs client d)
                client.user.role
                (lexically_normal p)
            else false))
          × (access_within os dirs client d rounds p ≡ can_lexically_access os dirs client d p)
    unfolding can_lexically_access access_within
    can_lexically_access-ends p rounds h =
        let normal = lexically_normal p in
        let whole = suc (suc (length p.elements)) in
        let same : is_in_directory os dirs client d (parent_path normal) dirs.s_users ≡ true
            → access_within os dirs client d (suc (length p.elements)) (parent_path normal)
              ≡ can_lexically_access os dirs client d (parent_path normal) =
          λ inside.
            let shorter = parent-shorter normal inside in
            access_within-eq (suc (length p.elements))
              (suc (suc (length (parent_path normal).elements))) (parent_path normal)
              (omega (arith, length-lexically_normal p)) (omega arith) in
        (
          ap (λ t. if client.is_logged then t else false)
              (role_allows-eq (access_within os dirs client d (suc (length p.elements)))
                (can_lexically_access os dirs client d) client.user.role normal same),
          access_within-eq rounds whole p h (omega arith),
        )
