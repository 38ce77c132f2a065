-- ===== src/Smcl/Formatter.antt =====
-- src/shell/lang/smcl_formatter.cpp, with the loop of Client/include/shell/lang/smcl_formatter.hpp: the
-- arguments, as texts, take the places of `${}`.
use smc_server_client.Common.{
  ℕ, zero, suc, Bool, false, ◌&&◌, List, [], ◌∷◌, ◌++◌, Bytes, ◌==◌, if◌then◌else◌,
}

unfoldable pub is_arg_here : Bytes → Bool
is_arg_here (a ∷ b ∷ c ∷ rest) = a == b'$' && (b == b'{' && c == b'}')
is_arg_here _ = false

-- The loop of `format` at what is left of the input; the first `skip` bytes of it are passed, as
-- `curr_idx += ARG_LENGTH - 1` does.
unfoldable pub format_loop : ℕ → List Bytes → Bytes → Bytes
format_loop skip args [] = []
format_loop (suc skip) args (c ∷ rest) = format_loop skip args rest
format_loop zero [] (c ∷ rest) = c ∷ format_loop 0 [] rest
format_loop zero (arg ∷ args) (c ∷ rest) =
    let filled = arg ++ format_loop 2 args rest in
    let copied = c ∷ format_loop 0 (arg ∷ args) rest in
    if is_arg_here (c ∷ rest) then filled else copied

unfoldable pub format : List Bytes → Bytes → Bytes
format args input = format_loop 0 args input
