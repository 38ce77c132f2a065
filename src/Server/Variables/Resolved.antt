-- ===== src/Server/Variables/Resolved.antt =====
-- What a text of texts, properties and variables is resolved to.
use smc_server_client.Common.{
  codes, ℕ, Bool, true, false, some, List, [], ◌∷◌, ◌++◌, Bytes, ◌==◌, if◌then◌else◌, bind-some,
  ◌≡◌, refl, sym, ap, ◌∙◌, append-nil, append_assoc,
}
use smc_server_client.Server.Variables.{
  Environment, EvsStrResolver, VarType, environment, get_var_type, sysvar_get, in_brackets,
  is_empty_var, error_or, empty_text, insert_typed, insert_var, insert_env_var, insert_sysvar,
  clear_var, process_next_char, process_chars, result, resolve,
}

-- A part of a text; a variable of the environment comes with the rest of its name, behind two
-- characters, and its value.
pub data Part : Type 0 where
  text : Bytes → Part
  property_of : Bytes → Part
  system : ℕ → Bytes → Part
  variable : ℕ → ℕ → Bytes → Bytes → Part

abbrev pub written_part : Part → Bytes
written_part (text t) = t
written_part (property_of p) = b'<' ∷ ((b':' ∷ p) ++ (b'>' ∷ []))
written_part (system c name) = b'<' ∷ ((b'$' ∷ c ∷ name) ++ (b'>' ∷ []))
written_part (variable c d name value) = b'<' ∷ ((c ∷ d ∷ name) ++ (b'>' ∷ []))

-- A property stays as it is written.
abbrev pub shown_value : Part → Bytes
shown_value (text t) = t
shown_value (property_of p) = in_brackets (b':' ∷ p)
shown_value (system c name) = codes "none"
shown_value (variable c d name value) = value

abbrev pub written : List Part → Bytes
written [] = []
written (part ∷ parts) = written_part part ++ written parts

abbrev pub shown_values : List Part → Bytes
shown_values [] = []
shown_values (part ∷ parts) = shown_value part ++ shown_values parts

abbrev pub Plain : Bytes → Type 0
Plain [] = Unit
Plain (c ∷ cs) = ((c == b'<') ≡ false) × ((c == b'>') ≡ false) × Plain cs

-- No part has a bracket of its own, and a variable of the environment is one that there is.
abbrev pub IsPart : Environment → Part → Type 0
IsPart env (text t) = Plain t
IsPart env (property_of p) = Plain p
IsPart env (system c name) = Plain (c ∷ name)
IsPart env (variable c d name value) =
    Plain (c ∷ d ∷ name)
    × ((c == b':') ≡ false)
    × ((c == b'$') ≡ false)
    × (env (c ∷ d ∷ name) ≡ some value)

abbrev pub AreParts : Environment → List Part → Type 0
AreParts env [] = Unit
AreParts env (part ∷ parts) = IsPart env part × AreParts env parts

abbrev outside : Bytes → EvsStrResolver
outside output = record { output = output; is_in_var = false; current_var = [] }

abbrev within : Bytes → Bytes → EvsStrResolver
within output name = record { output = output; is_in_var = true; current_var = name }

module _ (errors : Bool) (env : Environment) where
  copies :
      (t rest output : Bytes)
      → Plain t
      → process_chars errors env (t ++ rest) (outside output)
        ≡ process_chars errors env rest (outside (output ++ t))
  unfolding process_chars process_next_char
  copies [] rest output plain =
      ap (λ o. process_chars errors env rest (outside o)) (sym (append-nil output))
  copies (c ∷ t) rest output plain =
      bind-some (process_next_char errors env c) (λ _. process_chars errors env (t ++ rest))
        {s = outside output} (rw (plain.0, plain.1) refl)
      ∙ copies t rest (output ++ (c ∷ [])) plain.2
      ∙ ap (λ o. process_chars errors env rest (outside o)) (append_assoc output (c ∷ []) t)

  collects :
      (name rest output before : Bytes)
      → Plain name
      → process_chars errors env (name ++ rest) (within output before)
        ≡ process_chars errors env rest (within output (before ++ name))
  unfolding process_chars process_next_char
  collects [] rest output before plain =
      ap (λ n. process_chars errors env rest (within output n)) (sym (append-nil before))
  collects (c ∷ name) rest output before plain =
      bind-some (process_next_char errors env c) (λ _. process_chars errors env (name ++ rest))
        {s = within output before} (rw (plain.0, plain.1) refl)
      ∙ collects name rest output (before ++ (c ∷ [])) plain.2
      ∙ ap (λ n. process_chars errors env rest (within output n))
          (append_assoc before (c ∷ []) name)

  -- A variable that is closed, where it has a value.
  closes :
      (name value rest output : Bytes)
      → Plain name
      → insert_var errors env (record (outside output) { current_var = name })
        ≡ (some tt, record { output = output ++ value; is_in_var = false; current_var = name })
      → process_chars errors env (b'<' ∷ ((name ++ (b'>' ∷ [])) ++ rest)) (outside output)
        ≡ process_chars errors env rest (outside (output ++ value))
  unfolding process_chars process_next_char
  closes name value rest output plain valued =
      ap (λ t. process_chars errors env (b'<' ∷ t) (outside output))
        (append_assoc name (b'>' ∷ []) rest)
      ∙ collects name (b'>' ∷ rest) output [] plain
      ∙ bind-some (process_next_char errors env b'>') (λ _. process_chars errors env rest)
          {s = within output name}
          (bind-some (insert_var errors env) (λ _. clear_var)
            {s = record (outside output) { current_var = name }} valued)

  variable_inserted :
      (c d : ℕ) (name value output : Bytes)
      → (c == b':') ≡ false
      → (c == b'$') ≡ false
      → env (c ∷ d ∷ name) ≡ some value
      → insert_var errors env (record (outside output) { current_var = c ∷ d ∷ name }) ≡ (
        some tt,
        record { output = output ++ value; is_in_var = false; current_var = c ∷ d ∷ name },
      )
  unfolding insert_var get_var_type insert_env_var
  variable_inserted c d name value output no_colon no_dollar known =
      let r : EvsStrResolver = record (outside output) { current_var = c ∷ d ∷ name } in
      let type_of : get_var_type (c ∷ d ∷ name) ≡ environment = rw (no_colon, no_dollar) refl in
      ap
        (λ (type : VarType).
          if is_empty_var type (c ∷ d ∷ name)
          then error_or errors (empty_text type) r
          else insert_typed errors env type r)
        type_of
      ∙ rw (known, insert_env_var) refl

  resolves_part :
      (part : Part) (rest output : Bytes)
      → IsPart env part
      → process_chars errors env (written_part part ++ rest) (outside output)
        ≡ process_chars errors env rest (outside (output ++ shown_value part))
  unfolding insert_var get_var_type insert_env_var insert_sysvar sysvar_get
  resolves_part (text t) rest output plain = copies t rest output plain
  resolves_part (property_of []) rest output plain =
      closes (b':' ∷ []) _ rest output (refl, refl, tt) refl
  resolves_part (property_of (c ∷ p)) rest output plain =
      closes (b':' ∷ c ∷ p) _ rest output (refl, refl, plain) refl
  resolves_part (system c name) rest output plain =
      closes (b'$' ∷ c ∷ name) _ rest output (refl, refl, plain) refl
  resolves_part (variable c d name value) rest output (plain, no_colon, no_dollar, known) =
      closes (c ∷ d ∷ name) value rest output plain
        (variable_inserted c d name value output no_colon no_dollar known)

  resolves_parts :
      (parts : List Part) (output : Bytes)
      → AreParts env parts
      → process_chars errors env (written parts) (outside output)
        ≡ (some tt, outside (output ++ shown_values parts))
  unfolding process_chars
  resolves_parts [] output known = ap (λ o. (some tt, outside o)) (sym (append-nil output))
  resolves_parts (part ∷ parts) output known =
      resolves_part part (written parts) output known.0
      ∙ resolves_parts parts (output ++ shown_value part) known.1
      ∙ ap (λ o. (some tt, outside o)) (append_assoc output (shown_value part) (shown_values parts))

  -- A text of plain texts, properties, system variables and variables of the environment is resolved,
  -- whether errors are enabled or not, to the texts and the values, with each property as it was
  -- written, and with `none` for every system variable, whatever its name. A variable of the
  -- environment has a name of two characters at least.
  pub resolve-written :
      (parts : List Part)
      → AreParts env parts
      → resolve errors env (written parts) ≡ (true, shown_values parts)
  unfolding resolve
  resolve-written parts known = ap (result (written parts)) (resolves_parts parts [] known)
