-- ===== src/Server/Variables.antt =====
-- Server/include/util/resolver/evs_str.hpp and Server/src/server/sysvar.cpp: environment variables,
-- `<NAME>`, and system variables, `<$NAME>`, in a text become their values; properties, `<:NAME>`, stay.
pub mod Resolved
use smc_server_client.Common.{
  ℕ, Bool, true, false, not, ◌&&◌, Option, none, some, [], ◌∷◌, ◌++◌, Bytes, codes, ◌==◌,
  if◌then◌else◌, Fallible, ◌>>◌,
}

-- `_dupenv_s`: the value of a variable, none where it fails or there is no such variable.
abbrev pub Environment : Type 0
Environment = Bytes → Option Bytes

pub data VarType : Type 0 where
  environment sysvar property : VarType

pub record EvsStrResolver : Type 0 where
  pub output : Bytes
  pub is_in_var : Bool
  pub current_var : Bytes

abbrev pub new_resolver : EvsStrResolver
new_resolver = record { output = []; is_in_var = false; current_var = [] }

-- `sysvar::get`.
unfoldable pub sysvar_get : Bytes → Bytes
sysvar_get name = codes "none"

abbrev pub undefined_text : Bytes
undefined_text = codes "undefined"

unfoldable pub get_var_type : Bytes → VarType
get_var_type [] = property
get_var_type (c ∷ name) = if c == b':' then property else if c == b'$' then sysvar else environment

abbrev pub in_brackets : Bytes → Bytes
in_brackets name = b'<' ∷ (name ++ (b'>' ∷ []))

-- What is put for an empty variable where errors are not enabled.
abbrev pub empty_text : VarType → Bytes
empty_text property = in_brackets (codes ":")
empty_text sysvar = in_brackets (codes "$")
empty_text environment = in_brackets []

-- The size is 0, or it is 1 and the variable is no property.
abbrev pub is_empty_var : VarType → Bytes → Bool
is_empty_var type [] = true
is_empty_var property (c ∷ []) = false
is_empty_var _ (c ∷ []) = true
is_empty_var type (c ∷ d ∷ name) = false

abbrev pub append : Bytes → Fallible EvsStrResolver Unit
append text r = (some tt, record r { output = r.output ++ text })

-- `printError` and `return false` where errors are enabled; else a text.
abbrev pub error_or : Bool → Bytes → Fallible EvsStrResolver Unit
error_or true text r = (none, r)
error_or false text r = append text r

-- The name behind the `$`.
abbrev pub behind_first : Bytes → Bytes
behind_first [] = []
behind_first (c ∷ name) = name

unfoldable pub insert_sysvar : Bool → Fallible EvsStrResolver Unit
insert_sysvar errors r = elim (sysvar_get (behind_first r.current_var)) [
  | [] ↦ error_or errors undefined_text r
  | c ∷ value ↦ append (c ∷ value) r
]

unfoldable pub insert_env_var : Bool → Environment → Fallible EvsStrResolver Unit
insert_env_var errors env r = elim (env r.current_var) [
  | none ↦ error_or errors (in_brackets r.current_var) r
  | some value ↦ append value r
]

abbrev pub insert_typed : Bool → Environment → VarType → Fallible EvsStrResolver Unit
insert_typed errors env sysvar r = insert_sysvar errors r
insert_typed errors env environment r = insert_env_var errors env r
insert_typed errors env property r = append (in_brackets r.current_var) r

unfoldable pub insert_var : Bool → Environment → Fallible EvsStrResolver Unit
unfolding get_var_type insert_sysvar insert_env_var
insert_var errors env r =
    let type = get_var_type r.current_var in
    if is_empty_var type r.current_var
    then error_or errors (empty_text type) r
    else insert_typed errors env type r

abbrev pub clear_var : Fallible EvsStrResolver Unit
clear_var r = (some tt, record r { current_var = [] })

unfoldable pub process_next_char : Bool → Environment → ℕ → Fallible EvsStrResolver Unit
unfolding insert_var
process_next_char errors env c r =
    if c == b'<'
    then if r.is_in_var && errors then (none, r) else (some tt, record r { is_in_var = true })
    else if c == b'>'
    then if not r.is_in_var && errors
      then (none, r)
      else (insert_var errors env >> clear_var) (record r { is_in_var = false })
    else if r.is_in_var
    then (some tt, record r { current_var = r.current_var ++ (c ∷ []) })
    else append (c ∷ []) r

unfoldable pub process_chars : Bool → Environment → Bytes → Fallible EvsStrResolver Unit
process_chars errors env [] r = (some tt, r)
process_chars errors env (c ∷ input) r =
    (process_next_char errors env c >> process_chars errors env input) r

-- `setInput`, `resolve` and `getOutput`: where it fails the output is the input.
abbrev pub result : Bytes → Option (Unit {0}) × EvsStrResolver → Bool × Bytes
result input (none, r) = (false, input)
result input (some v, r) = (true, r.output)

unfoldable pub resolve : Bool → Environment → Bytes → Bool × Bytes
unfolding process_chars
resolve errors env input = result input (process_chars errors env input new_resolver)
