-- ===== src/Common/Failing.antt =====
-- Code that works on a state and may give up: `none` is a failure, and what was done to the state
-- before it stays done.
use mathlib.Core.Path.{◌≡◌, refl, ap, sym, subst, ◌∙◌}
use mathlib.Core.Option.{Option, none, some}

abbrev pub Fallible : Type 0 → Type 0 → Type 0
Fallible S A = S → Option A × S

infixl 5 ◌>>=◌ ◌>>◌
abbrev pub ◌>>=◌ : {S A B : Type 0} → Fallible S A → (A → Fallible S B) → Fallible S B
◌>>=◌ m f s = let (r, s') = m s in elim r [ none ↦ (none, s') | some v ↦ f v s' ]

abbrev pub ◌>>◌ : {S A B : Type 0} → Fallible S A → Fallible S B → Fallible S B
m >> n = m >>= λ _. n

abbrev pub pure : {S A : Type 0} → A → Fallible S A
pure v s = (some v, s)

abbrev pub fail : {S A : Type 0} → Fallible S A
fail s = (none, s)

module _ {S A B : Type 0} where
  abbrev pub continue : (A → Fallible S B) → Option A × S → Option B × S
  continue f (none, s) = (none, s)
  continue f (some v, s) = f v s

  pub bind-continue :
      (m : Fallible S A) (f : A → Fallible S B) (s : S) → (m >>= f) s ≡ continue f (m s)
  bind-continue m f s = step (m s)
    where
      step :
          (t : Option A × S) → (elim t.0 [ none ↦ (none, t.1) | some v ↦ f v t.1 ]) ≡ continue f t
      step (none, s) = refl
      step (some v, s) = refl

  pub bind-some :
      (m : Fallible S A) (f : A → Fallible S B) {v : A} {s s' : S}
      → m s ≡ (some v, s')
      → (m >>= f) s ≡ f v s'
  bind-some m f {s = s} h = bind-continue m f s ∙ ap (continue f) h

  pub bind-none :
      (m : Fallible S A) (f : A → Fallible S B) {s s' : S}
      → m s ≡ (none, s')
      → (m >>= f) s ≡ (none, s')
  bind-none m f {s = s} h = bind-continue m f s ∙ ap (continue f) h

-- Code that keeps a property of the state, whether it gives up or not.
abbrev pub Keeps {ℓ} : {S A : Type 0} → (S → Type ℓ) → Fallible S A → Type ℓ
Keeps {S = S} P m = (s : S) → P s → P (m s).1

pub bind-Keeps {ℓ} :
    {S A B : Type 0} (P : S → Type ℓ) (m : Fallible S A) (f : A → Fallible S B)
    → Keeps P m
    → ((v : A) → Keeps P (f v))
    → Keeps P (m >>= f)
bind-Keeps {S = S} {A = A} {B = B} P m f first later s p =
    subst (λ t. P t.1) (sym (bind-continue m f s)) (step (m s) (first s p))
  where
    step : (t : Option A × S) → P t.1 → P (continue f t).1
    step (none, s') h = h
    step (some v, s') h = later v s' h

-- Code that does the same on two states that a map relates.
abbrev pub Commutes : {S A : Type 0} → (S → S) → Fallible S A → S → Type 0
Commutes change m s = m (change s) ≡ ((m s).0, change (m s).1)

pub bind-Commutes :
    {S A B : Type 0} (change : S → S) (m : Fallible S A) (f : A → Fallible S B) (s : S)
    → Commutes change m s
    → ((v : A) (s' : S) → Commutes change (f v) s')
    → Commutes change (m >>= f) s
bind-Commutes {S = S} {A = A} {B = B} change m f s first later =
    bind-continue m f (change s)
    ∙ ap (continue f) first
    ∙ step (m s)
    ∙ ap (λ t. (t.0, change t.1)) (sym (bind-continue m f s))
  where
    step :
        (t : Option A × S)
        → continue f (t.0, change t.1) ≡ ((continue f t).0, change (continue f t).1)
    step (none, s') = refl
    step (some v, s') = later v s'

-- Code whose result does not depend on the state that it starts in.
abbrev pub Yields : {S A : Type 0} → Fallible S A → Option A → Type 0
Yields {S = S} m r = (s : S) → (m s).0 ≡ r

pub bind-Yields :
    {S A B : Type 0} (m : Fallible S A) (f : A → Fallible S B) {v : A} {r : Option B}
    → Yields m (some v)
    → Yields (f v) r
    → Yields (m >>= f) r
bind-Yields {S = S} {A = A} {B = B} m f {v = v} {r = r} first later s =
    ap (λ t. t.0) (bind-continue m f s) ∙ step (m s) (first s)
  where
    step : (t : Option A × S) → t.0 ≡ some v → (continue f t).0 ≡ r
    step (none, s') e = cc
    step (some w, s') e = let same : w ≡ v = cc in ap (λ u. (f u s').0) same ∙ later s'
