-- ===== src/Server/ConsoleText/Printed.antt =====
-- What a text with colours puts on the console.
use smc_server_client.Common.{
  true, false, List, [], ◌∷◌, ◌++◌, Bytes, codes, text_eq, map, if◌then◌else◌, ◌≡◌, refl, sym, ap,
  ◌∙◌, append-nil, append_assoc, Bool-cases, inl, inr,
}
use smc_server_client.Server.ConsoleText.{
  Shown, char, style, termcolor_names, is_listed, ConStrPropResolver, set_color, key_of, val_of,
  process_key, process_prop, process_char, print_from, print,
}
use smc_server_client.Server.Variables.Resolved.{Plain}

pub data Part : Type 0 where
  text : Bytes → Part
  color : Bytes → Part

abbrev pub written_part : Part → Bytes
written_part (text t) = t
written_part (color name) = b'<' ∷ ((codes ":color=" ++ name) ++ (b'>' ∷ []))

-- A colour that termcolor does not have is left out.
abbrev pub shown_part : Part → List Shown
shown_part (text t) = map char t
shown_part (color name) = if is_listed name termcolor_names then style name ∷ [] else []

abbrev pub written : List Part → Bytes
written [] = []
written (part ∷ parts) = written_part part ++ written parts

abbrev pub shown : List Part → List Shown
shown [] = []
shown (part ∷ parts) = shown_part part ++ shown parts

abbrev pub IsPart : Part → Type 0
IsPart (text t) = Plain t
IsPart (color name) = Plain name

abbrev pub AreParts : List Part → Type 0
AreParts [] = Unit
AreParts (part ∷ parts) = IsPart part × AreParts parts

abbrev outside : List Shown → ConStrPropResolver
outside stream = record { stream = stream; current_prop = []; is_in_prop = false }

abbrev within : List Shown → Bytes → ConStrPropResolver
within stream prop = record { stream = stream; current_prop = prop; is_in_prop = true }

copies :
    (t rest : Bytes) (stream : List Shown)
    → Plain t
    → print_from (t ++ rest) (outside stream) ≡ print_from rest (outside (stream ++ map char t))
unfolding print_from process_char
copies [] rest stream plain = ap (λ o. print_from rest (outside o)) (sym (append-nil stream))
copies (c ∷ t) rest stream plain =
    let step : process_char c (outside stream) ≡ outside (stream ++ (char c ∷ [])) =
      rw (plain.0, plain.1) refl in
    ap (print_from (t ++ rest)) step
    ∙ copies t rest (stream ++ (char c ∷ [])) plain.2
    ∙ ap (λ o. print_from rest (outside o)) (append_assoc stream (char c ∷ []) (map char t))

collects :
    (name rest : Bytes) (stream : List Shown) (before : Bytes)
    → Plain name
    → print_from (name ++ rest) (within stream before)
      ≡ print_from rest (within stream (before ++ name))
unfolding print_from process_char
collects [] rest stream before plain =
    ap (λ n. print_from rest (within stream n)) (sym (append-nil before))
collects (c ∷ name) rest stream before plain =
    let step : process_char c (within stream before) ≡ within stream (before ++ (c ∷ [])) =
      rw (plain.0, plain.1) refl in
    ap (print_from (name ++ rest)) step
    ∙ collects name rest stream (before ++ (c ∷ [])) plain.2
    ∙ ap (λ n. print_from rest (within stream n)) (append_assoc before (c ∷ []) name)

-- The end of a colour.
closes :
    (name rest : Bytes) (stream : List Shown)
    → print_from (b'>' ∷ rest) (within stream (codes ":color=" ++ name))
      ≡ print_from rest (outside (stream ++ shown_part (color name)))
unfolding print_from process_char process_prop key_of val_of process_key set_color text_eq is_listed
closes [] rest stream = ap (λ o. print_from rest (outside o)) (sym (append-nil stream))
closes (c ∷ name) rest stream = elim (Bool-cases (is_listed (c ∷ name) termcolor_names)) [
  | inl listed ↦ rw listed refl
  | inr other ↦ rw other (ap (λ o. print_from rest (outside o)) (sym (append-nil stream)))
]

prints_part :
    (part : Part) (rest : Bytes) (stream : List Shown)
    → IsPart part
    → print_from (written_part part ++ rest) (outside stream)
      ≡ print_from rest (outside (stream ++ shown_part part))
unfolding print_from process_char
prints_part (text t) rest stream plain = copies t rest stream plain
prints_part (color name) rest stream plain =
    ap (λ t. print_from t (within stream (codes ":color="))) (append_assoc name (b'>' ∷ []) rest)
    ∙ collects name (b'>' ∷ rest) stream (codes ":color=") plain
    ∙ closes name rest stream

prints_parts :
    (parts : List Part) (stream : List Shown)
    → AreParts parts
    → (print_from (written parts) (outside stream)).stream ≡ stream ++ shown parts
unfolding print_from
prints_parts [] stream known = sym (append-nil stream)
prints_parts (part ∷ parts) stream known =
    ap (λ p. p.stream) (prints_part part (written parts) stream known.0)
    ∙ prints_parts parts (stream ++ shown_part part) known.1
    ∙ append_assoc stream (shown_part part) (shown parts)

-- A text with colours is put on the console as its characters and, at the place of each colour, the
-- style of that name, or nothing where there is no such style. Neither a text nor the name of a colour
-- has a bracket.
pub print-written : (parts : List Part) → AreParts parts → print (written parts) ≡ shown parts
unfolding print
print-written parts known = prints_parts parts [] known
