-- ===== src/Shell/Resolved.antt =====
-- What a line with variables is resolved to.
use smc_server_client.Common.{
  ℕ, true, false, List, [], ◌∷◌, ◌++◌, Bytes, ◌==◌, if◌then◌else◌, ◌≡◌, refl, sym, ap, ◌∙◌,
  append-nil, append_assoc, Bool-cases, inl, inr,
}
use smc_server_client.Shell.EnvVars.{
  Environment, EnvVarStrResolver, env_var_text, insert_env_var, process_next_char, process_chars,
  resolve,
}

-- A line: texts, each with the name of the variable behind it, and the text at the end.
abbrev pub line_of : List (Bytes × Bytes) → Bytes → Bytes
line_of [] tail = tail
line_of ((text, name) ∷ parts) tail = text ++ (b'<' ∷ (name ++ (b'>' ∷ line_of parts tail)))

-- The texts with the value of a variable behind each: its name is its own one behind the names of all
-- variables before it.
abbrev pub expanded : Environment → Bytes → List (Bytes × Bytes) → Bytes → Bytes
expanded env names [] tail = tail
expanded env names ((text, name) ∷ parts) tail =
    text ++ (env_var_text env (names ++ name) ++ expanded env (names ++ name) parts tail)

abbrev pub Without : ℕ → Bytes → Type 0
Without x [] = Unit
Without x (c ∷ cs) = (c == x ≡ false) × Without x cs

abbrev pub AreParts : List (Bytes × Bytes) → Type 0
AreParts [] = Unit
AreParts ((text, name) ∷ parts) = Without b'<' text × (Without b'>' name × AreParts parts)

abbrev outside : Bytes → Bytes → EnvVarStrResolver
outside output names = record { output = output; is_in_var = false; current_var = names }

abbrev within : Bytes → Bytes → EnvVarStrResolver
within output names = record { output = output; is_in_var = true; current_var = names }

module _ (env : Environment) where
  process_chars-append :
      (a b : Bytes) (r : EnvVarStrResolver)
      → process_chars env (a ++ b) r ≡ process_chars env b (process_chars env a r)
  unfolding process_chars
  process_chars-append [] b r = refl
  process_chars-append (c ∷ a) b r = process_chars-append a b (process_next_char env c r)

  copies :
      (output names : Bytes) (c : ℕ)
      → c == b'<' ≡ false
      → process_next_char env c (outside output names) ≡ outside (output ++ (c ∷ [])) names
  unfolding process_next_char
  copies output names c other = elim (Bool-cases (c == b'>')) [
    | inl closing ↦ rw (other, closing) refl
    | inr plain ↦ rw (other, plain) refl
  ]

  collects :
      (output names : Bytes) (c : ℕ)
      → c == b'>' ≡ false
      → process_next_char env c (within output names) ≡ within output (names ++ (c ∷ []))
  unfolding process_next_char
  collects output names c other = elim (Bool-cases (c == b'<')) [
    | inl opening ↦ rw (other, opening) refl
    | inr plain ↦ rw (other, plain) refl
  ]

  copies_text :
      (text output names : Bytes)
      → Without b'<' text
      → process_chars env text (outside output names) ≡ outside (output ++ text) names
  unfolding process_chars
  copies_text [] output names clean = ap (λ t. outside t names) (sym (append-nil output))
  copies_text (c ∷ text) output names clean =
      ap (process_chars env text) (copies output names c clean.0)
      ∙ copies_text text (output ++ (c ∷ [])) names clean.1
      ∙ ap (λ t. outside t names) (append_assoc output (c ∷ []) text)

  collects_name :
      (name output names : Bytes)
      → Without b'>' name
      → process_chars env name (within output names) ≡ within output (names ++ name)
  unfolding process_chars
  collects_name [] output names clean = ap (within output) (sym (append-nil names))
  collects_name (c ∷ name) output names clean =
      ap (process_chars env name) (collects output names c clean.0)
      ∙ collects_name name output (names ++ (c ∷ [])) clean.1
      ∙ ap (within output) (append_assoc names (c ∷ []) name)

  -- A text, then a variable, whose name stays in the resolver.
  resolves_part :
      (text name later output names : Bytes)
      → Without b'<' text
      → Without b'>' name
      → process_chars env (text ++ (b'<' ∷ (name ++ (b'>' ∷ later)))) (outside output names)
        ≡ process_chars env later
            (outside (output ++ text ++ env_var_text env (names ++ name)) (names ++ name))
  unfolding process_chars process_next_char insert_env_var
  resolves_part text name later output names clean closed =
      process_chars-append text _ (outside output names)
      ∙ ap (process_chars env (b'<' ∷ (name ++ (b'>' ∷ later))))
          (copies_text text output names clean)
      ∙ process_chars-append name (b'>' ∷ later) (within (output ++ text) names)
      ∙ ap (process_chars env (b'>' ∷ later)) (collects_name name (output ++ text) names closed)

  resolves_parts :
      (parts : List (Bytes × Bytes)) (tail output names : Bytes)
      → AreParts parts
      → Without b'<' tail
      → (left : Bytes) × (process_chars env (line_of parts tail) (outside output names)
          ≡ outside (output ++ expanded env names parts tail) left)
  resolves_parts [] tail output names clean plain = (names, copies_text tail output names plain)
  resolves_parts ((text, name) ∷ parts) tail output names clean plain =
      let value = env_var_text env (names ++ name) in
      let rest =
        resolves_parts parts tail (output ++ text ++ value) (names ++ name) clean.1.1 plain in
      (
        rest.0,
        resolves_part text name (line_of parts tail) output names clean.0 clean.1.0
            ∙ rest.1
            ∙ ap (λ t. outside t rest.0)
                (append_assoc (output ++ text) value _ ∙ append_assoc output text _),
      )

  -- A line of texts and closed variables is resolved to the texts and the values; but the name that is
  -- looked up for a variable begins with the names of all variables before it in the line. No text has
  -- a `<`, and no name a `>`.
  pub resolve-line_of :
      (parts : List (Bytes × Bytes)) (tail : Bytes)
      → AreParts parts
      → Without b'<' tail
      → resolve env (line_of parts tail) ≡ expanded env [] parts tail
  unfolding resolve
  resolve-line_of parts tail clean plain =
      ap (λ r. if r.is_in_var then r.output ++ (b'<' ∷ r.current_var) else r.output)
        (resolves_parts parts tail [] [] clean plain).1
