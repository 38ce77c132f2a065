-- ===== src/Shell/EnvVars.antt =====
-- src/util/env_var_str_resolver.cpp: names between `<` and `>` become values of environment variables.
use smc_server_client.Common.{
  ℕ, Bool, true, false, not, ◌&&◌, Option, none, some, [], ◌∷◌, ◌++◌, Bytes, codes, ◌==◌,
  if◌then◌else◌,
}

-- `_dupenv_s`: the value of a variable, none where it fails or there is no such variable.
abbrev pub Environment : Type 0
Environment = Bytes → Option Bytes

pub record EnvVarStrResolver : Type 0 where
  pub output : Bytes
  pub is_in_var : Bool
  pub current_var : Bytes

abbrev pub new_resolver : EnvVarStrResolver
new_resolver = record { output = []; is_in_var = false; current_var = [] }

-- What stands for a variable in the output.
unfoldable pub env_var_text : Environment → Bytes → Bytes
env_var_text env [] = codes "<>"
env_var_text env (c ∷ name) = elim (env (c ∷ name)) [
  | none ↦ b'<' ∷ (c ∷ name) ++ (b'>' ∷ [])
  | some value ↦ value
]

unfoldable pub insert_env_var : Environment → EnvVarStrResolver → EnvVarStrResolver
insert_env_var env r = record r { output = r.output ++ env_var_text env r.current_var }

unfoldable pub process_next_char : Environment → ℕ → EnvVarStrResolver → EnvVarStrResolver
process_next_char env c r =
    if c == b'<' && not r.is_in_var
    then record r { is_in_var = true }
    else if c == b'>' && r.is_in_var
    then insert_env_var env (record r { is_in_var = false })
    else if r.is_in_var
    then record r { current_var = r.current_var ++ (c ∷ []) }
    else record r { output = r.output ++ (c ∷ []) }

unfoldable pub process_chars : Environment → Bytes → EnvVarStrResolver → EnvVarStrResolver
process_chars env [] r = r
process_chars env (c ∷ cs) r = process_chars env cs (process_next_char env c r)

abbrev pub close_var : EnvVarStrResolver → Bytes
close_var r = if r.is_in_var then r.output ++ (b'<' ∷ r.current_var) else r.output

-- `setInput`, `resolve` and `getOutput`.
unfoldable pub resolve : Environment → Bytes → Bytes
unfolding process_chars
resolve env input = close_var (process_chars env input new_resolver)
