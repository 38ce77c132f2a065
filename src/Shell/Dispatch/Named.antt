-- ===== src/Shell/Dispatch/Named.antt =====
-- The names of the commands: no two commands share one, so that the order of the map does not matter.
use mathlib.Core.List.{Permᴰ}
use smc_server_client.Common.{
  ℕ, ◌+◌, ◌≤◌, Bool, true, false, not, ◌||◌, ◌&&◌, Option, none, some, List, [], ◌∷◌, Bytes,
  text_eq, text_eq_iff, if◌then◌else◌, ◌≡◌, ◌≢◌, refl, sym, subst, ap, ap₂, ◌∙◌, ◌⊎◌, inl, inr,
  arith,
}
use smc_server_client.Text.{to_lowercase}
use smc_server_client.Shell.Commands.{CommandClass, CommandInfos, Entry, commands_infos}
use smc_server_client.Shell.Dispatch.{
  ExitCode, error, Shell, is_named, find_infos, get_command_instance_from_name, infos_to_check,
  can_execute_cmd_instance, can_execute_cmd_name, run_instance, run_shell_command,
}

-- How many entries pass a test.
abbrev pub matches : (Entry → Bool) → List Entry → ℕ
matches f [] = 0
matches f (e ∷ es) = (if f e then 1 else 0) + matches f es

module _ (f : Entry → Bool) where
  pub matches-perm : {xs ys : List Entry} → Permᴰ xs ys → matches f xs ≡ matches f ys
  matches-perm Permᴰ.nil = refl
  matches-perm (Permᴰ.cons {a = a} {b = b} same p) =
      ap₂ (λ x n. (if f x then 1 else 0) + n) same (matches-perm p)
  matches-perm (Permᴰ.swap {a = a} {b = b} {a' = a'} {b' = b'} p q) = grind arith
  matches-perm (Permᴰ.trans p q) = matches-perm p ∙ matches-perm q

  find_infos-perm :
      {xs ys : List Entry} → Permᴰ xs ys → matches f xs ≤ 1 → find_infos f xs ≡ find_infos f ys
  find_infos-perm Permᴰ.nil one = refl
  find_infos-perm (Permᴰ.cons {l₁ = l} {l₂ = m} same p) one =
      let behind : matches f l ≤ 1 = omega arith in
      ap₂ (λ x r. if f x then some x.1 else r) same (find_infos-perm p behind)
  find_infos-perm (Permᴰ.swap {a = a} {b = b} {a' = a'} {b' = b'} {l = l} p q) one = grind arith
  find_infos-perm (Permᴰ.trans p q) one =
      find_infos-perm p one ∙ find_infos-perm q (omega (arith, matches-perm p))

  find_infos-none : (xs : List Entry) → matches f xs ≡ 0 → find_infos f xs ≡ none
  find_infos-none [] h = refl
  find_infos-none (x ∷ xs) h = grind (arith, find_infos-none xs)

  -- A stricter test fails too.
  matches_mono :
      (g : Entry → Bool)
      → ((e : Entry) → g e ≡ true → f e ≡ true)
      → (xs : List Entry) → matches g xs ≤ matches f xs
  matches_mono g sub [] = omega arith
  matches_mono g sub (x ∷ xs) = grind (arith, sub x, matches_mono g sub xs)

abbrev by_name : Bytes → Entry → Bool
by_name name e = text_eq name e.0

abbrev by_short_name : Bytes → Entry → Bool
by_short_name name e = text_eq name e.1.short_name

abbrev first_of : Option CommandInfos → Option CommandInfos → Option CommandInfos
first_of r other = elim r [ none ↦ other | some cmd ↦ some cmd ]

first_of-step :
    (k s : Bool) (v : CommandInfos) (by_key by_short both : Option CommandInfos)
    → ((k || s) ≡ true → by_key ≡ none)
    → first_of by_key by_short ≡ both
    → first_of (if k then some v else by_key) (if s then some v else by_short)
      ≡ (if k || s then some v else both)
first_of-step true s v by_key by_short both only rest = refl
first_of-step false true v by_key by_short both only rest =
    ap (λ r. first_of r (some v)) (only refl)
first_of-step false false v by_key by_short both only rest = rest

-- Where one command at most has a name, it is found by the full name, or else by the short one.
infos_to_check-find :
    (name : Bytes) (xs : List Entry)
    → matches (is_named name) xs ≤ 1
    → infos_to_check xs name ≡ find_infos (is_named name) xs
unfolding infos_to_check is_named
infos_to_check-find name [] one = refl
infos_to_check-find name (x ∷ xs) one =
    let key : Entry → Bool = by_name name in
    let short : Entry → Bool = by_short_name name in
    let weaker : matches key xs ≤ matches (is_named name) xs =
      matches_mono (is_named name) key (λ e h. ground arith) xs in
    first_of-step (key x) (short x) x.1 (find_infos key xs) (find_infos short xs)
      (find_infos (is_named name) xs) (λ here. find_infos-none key xs (grind arith))
      (infos_to_check-find name xs (omega arith))

-- Whether two entries share a name that is not empty.
abbrev clash : Entry → Entry → Bool
clash x y = is_named x.0 y || (is_named x.1.short_name y && not (text_eq x.1.short_name []))

abbrev clashes : Entry → List Entry → Bool
clashes x [] = false
clashes x (y ∷ ys) = clash x y || clashes x ys

abbrev any_clash : List Entry → Bool
any_clash [] = false
any_clash (x ∷ xs) = clashes x xs || any_clash xs

commands-no_clash : any_clash commands_infos ≡ false
unfolding is_named text_eq
commands-no_clash = refl

module _ (name : Bytes) (named : name ≢ []) where
  name_of : (x : Entry) → is_named name x ≡ true → (name ≡ x.0) ⊎ (name ≡ x.1.short_name)
  unfolding is_named
  name_of x p = ground (arith, text_eq_iff name x.0, text_eq_iff name x.1.short_name)

  clash_of-is_named :
      (x y : Entry) → is_named name x ≡ true → is_named name y ≡ true → clash x y ≡ true
  clash_of-is_named x y p q = elim (name_of x p) [
    | inl e ↦ (let h : is_named x.0 y ≡ true = subst (λ n. is_named n y ≡ true) e q in ground arith)
    | inr e ↦
        (let h : is_named x.1.short_name y ≡ true = subst (λ n. is_named n y ≡ true) e q in
          let k : (text_eq x.1.short_name [] ≡ true) → ⊥ =
            λ t. named (e ∙ (text_eq_iff x.1.short_name []).0 t) in
          ground arith)
  ]

  matches-clashes :
      (x : Entry) (ys : List Entry)
      → is_named name x ≡ true
      → clashes x ys ≡ false
      → matches (is_named name) ys ≡ 0
  matches-clashes x [] p c = refl
  matches-clashes x (y ∷ ys) p c = grind (arith, clash_of-is_named x y p, matches-clashes x ys p)

  matches-any_clash : (xs : List Entry) → any_clash xs ≡ false → matches (is_named name) xs ≤ 1
  matches-any_clash [] c = omega arith
  matches-any_clash (x ∷ xs) c = grind (arith, matches-clashes x xs, matches-any_clash xs)

-- The order of the entries does not matter to who is found.
pub find_infos-order :
    (entries : List Entry) (name : Bytes)
    → Permᴰ commands_infos entries
    → name ≢ []
    → find_infos (is_named name) entries ≡ find_infos (is_named name) commands_infos
find_infos-order entries name order named = sym (
    find_infos-perm (is_named name) order
      (matches-any_clash name named commands_infos commands-no_clash))

module _ {S : Type 0} (run : CommandClass → List Bytes → Shell S → ExitCode × Shell S) where
  -- The command of `cmd`, run where the checks of `cmd` allow it.
  unfoldable pub run_checked : CommandInfos → List Bytes → Shell S → ExitCode × Shell S
  run_checked cmd args sh =
      let (allowed, checked) = can_execute_cmd_instance cmd sh in
      let ran = run cmd.cmd args checked in if allowed then ran else (error, checked)

  -- Whatever the order in which the map goes through the commands, and whatever the commands do: a line
  -- that begins with the name or the short name of a command, in any case of its letters, but not with
  -- an empty word, runs just this command, and runs it exactly where the checks of this command allow
  -- it; where they do not, the shell only shows why and returns `Error`.
  pub run_shell_command-named :
      (entries : List Entry) (first : Bytes) (args : List Bytes) (sh : Shell S) (cmd : CommandInfos)
      → Permᴰ commands_infos entries
      → to_lowercase first ≢ []
      → find_infos (is_named (to_lowercase first)) commands_infos ≡ some cmd
      → run_shell_command entries run first args sh ≡ run_checked cmd args sh
  unfolding run_shell_command run_instance run_checked can_execute_cmd_name
      get_command_instance_from_name
  run_shell_command-named entries first args sh cmd order named found =
      let name = to_lowercase first in
      let one = matches-any_clash name named commands_infos commands-no_clash in
      let here : find_infos (is_named name) entries ≡ some cmd =
        find_infos-order entries name order named ∙ found in
      let unique : matches (is_named name) entries ≤ 1 =
        omega (arith, matches-perm (is_named name) order) in
      let made : get_command_instance_from_name entries name ≡ some cmd.cmd =
        rw (here, get_command_instance_from_name) refl in
      let known : infos_to_check entries name ≡ some cmd =
        infos_to_check-find name entries unique ∙ here in
      let allowed : can_execute_cmd_name entries name sh ≡ can_execute_cmd_instance cmd sh =
        rw (known, can_execute_cmd_name) refl in
      rw (made, run_shell_command) (rw (allowed, run_instance) refl)
