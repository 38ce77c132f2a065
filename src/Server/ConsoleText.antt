-- ===== src/Server/ConsoleText.antt =====
-- Server/src/util/resolver/con_str_prop.cpp: properties in a text for the console, `<:color=NAME>`,
-- become styles of the terminal. The output stream is the list of what is put on it.
pub mod Printed
use smc_server_client.Common.{
  ℕ, Bool, true, false, not, ◌&&◌, ◌||◌, List, [], ◌∷◌, ◌++◌, Bytes, codes, text_eq, ◌==◌,
  if◌then◌else◌,
}

pub data Shown : Type 0 where
  char : ℕ → Shown
  -- A function of termcolor.
  style : Bytes → Shown

-- The keys of `termcolor_map`; each stands for the function of its name.
abbrev pub termcolor_names : List Bytes
termcolor_names =
    codes "grey"
    ∷ codes "red"
    ∷ codes "green"
    ∷ codes "yellow"
    ∷ codes "blue"
    ∷ codes "magenta"
    ∷ codes "cyan"
    ∷ codes "white"
    ∷ codes "bright_grey"
    ∷ codes "bright_red"
    ∷ codes "bright_green"
    ∷ codes "bright_yellow"
    ∷ codes "bright_blue"
    ∷ codes "bright_magenta"
    ∷ codes "bright_cyan"
    ∷ codes "bright_white"
    ∷ codes "on_grey"
    ∷ codes "on_red"
    ∷ codes "on_green"
    ∷ codes "on_yellow"
    ∷ codes "on_blue"
    ∷ codes "on_magenta"
    ∷ codes "on_cyan"
    ∷ codes "on_white"
    ∷ codes "on_bright_grey"
    ∷ codes "on_bright_red"
    ∷ codes "on_bright_green"
    ∷ codes "on_bright_yellow"
    ∷ codes "on_bright_blue"
    ∷ codes "on_bright_magenta"
    ∷ codes "on_bright_cyan"
    ∷ codes "on_bright_white"
    ∷ codes "bold"
    ∷ codes "dark"
    ∷ codes "underline"
    ∷ codes "blink"
    ∷ codes "reverse"
    ∷ codes "concealed"
    ∷ codes "reset"
    ∷ []

unfoldable pub is_listed : Bytes → List Bytes → Bool
is_listed name [] = false
is_listed name (known ∷ names) = text_eq name known || is_listed name names

pub record ConStrPropResolver : Type 0 where
  pub stream : List Shown
  pub current_prop : Bytes
  pub is_in_prop : Bool

abbrev pub new_printer : ConStrPropResolver
new_printer = record { stream = []; current_prop = []; is_in_prop = false }

unfoldable pub set_color : Bytes → List Shown → List Shown
unfolding is_listed
set_color color stream =
    if is_listed color termcolor_names then stream ++ (style color ∷ []) else stream

-- The key is before the first `=`, the value behind it.
unfoldable pub key_of : Bytes → Bytes
key_of [] = []
key_of (c ∷ prop) = let rest = c ∷ key_of prop in if c == b'=' then [] else rest

unfoldable pub val_of : Bytes → Bytes
val_of [] = []
val_of (c ∷ prop) = let rest = val_of prop in if c == b'=' then prop else rest

abbrev pub no_bytes : Bytes → Bool
no_bytes [] = true
no_bytes (c ∷ text) = false

unfoldable pub process_key : Bytes → Bytes → List Shown → List Shown
unfolding set_color
process_key key val stream = if text_eq key (codes "color") then set_color val stream else stream

unfoldable pub process_prop : Bytes → ConStrPropResolver → ConStrPropResolver
unfolding process_key key_of val_of
process_prop prop p =
    let shown = process_key (key_of prop) (val_of prop) p.stream in
    record p {
      current_prop = [];
      stream =
          if not (no_bytes (key_of prop)) && not (no_bytes (val_of prop)) then shown else p.stream;
    }

-- What does not begin with a colon stays in `current_prop`.
abbrev pub process_raw_prop : Bytes → ConStrPropResolver → ConStrPropResolver
process_raw_prop [] p = p
process_raw_prop (c ∷ prop) p = if c == b':' then process_prop prop p else p

unfoldable pub process_char : ℕ → ConStrPropResolver → ConStrPropResolver
unfolding process_prop
process_char c p =
    if c == b'<'
    then record p { is_in_prop = true }
    else if c == b'>'
    then process_raw_prop p.current_prop (record p { is_in_prop = false })
    else if p.is_in_prop
    then record p { current_prop = p.current_prop ++ (c ∷ []) }
    else record p { stream = p.stream ++ (char c ∷ []) }

unfoldable pub print_from : Bytes → ConStrPropResolver → ConStrPropResolver
print_from [] p = p
print_from (c ∷ text) p = print_from text (process_char c p)

-- `setText`, `setStream` and `print`: what a new resolver puts on the stream.
unfoldable pub print : Bytes → List Shown
unfolding print_from process_char
print text = (print_from text new_printer).stream
