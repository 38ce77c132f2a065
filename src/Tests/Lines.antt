-- ===== src/Tests/Lines.antt =====
-- Lines of the shell, user information files and file names.
use smc_server_client.Common.{
  ◌++◌, true, false, none, some, [], ◌∷◌, codes, text_eq, ◌==◌, if◌then◌else◌, ◌≡◌, refl, arith,
}
use smc_server_client.Text.{to_lowercase}
use smc_server_client.Shell.EnvVars.{Environment, env_var_text, resolve}
use smc_server_client.Shell.Resolved.{line_of, expanded, resolve-line_of}
use smc_server_client.Shell.CommandLine.{tokenize}
use smc_server_client.Shell.Quoted.{quoted_line, tokenize-quoted_line}
use smc_server_client.Server.Uif.{decode_uif}
use smc_server_client.Server.Uif.Blocks.{block, decode_uif-block}
use smc_server_client.Server.Names.{
  contains, any_invalid, back, starts_with, is_reserved, is_valid_name,
}
use smc_server_client.Server.Names.Separators.{forbidden, LacksAll, is_valid_name-one_name}
use smc_server_client.Paths.{path_of, name_path}
use smc_server_client.Smcl.Lexer.{
  text, opening_bracket, string, token, lexed, skip_spaces, simple_token, build_token, next_token,
}
use smc_server_client.Smcl.Strings.{written_all, next_token-written_all}

tokenize-quoted_line_example :
    tokenize (quoted_line (codes "cp" ∷ codes "my file" ∷ [] ∷ []))
    ≡ codes "cp" ∷ codes "my file" ∷ [] ∷ []
tokenize-quoted_line_example =
    tokenize-quoted_line (codes "cp" ∷ codes "my file" ∷ [] ∷ [])
      ((refl, (refl, tt)), ((refl, (refl, (refl, (refl, (refl, (refl, (refl, tt))))))), (tt, tt)))

-- An environment with one variable.
abbrev home : Environment
home name = if text_eq name (codes "HOME") then some (codes "C:") else none

resolve-line_of_example :
    resolve home (line_of ((codes "a ", codes "X") ∷ []) (codes "b"))
    ≡ expanded home [] ((codes "a ", codes "X") ∷ []) (codes "b")
resolve-line_of_example =
    resolve-line_of home ((codes "a ", codes "X") ∷ []) (codes "b")
      ((refl, (refl, tt)), ((refl, tt), tt)) (refl, tt)

-- Two variables: the second is looked up under the names of both.
second_variable :
    resolve home (line_of (([], codes "HOME") ∷ ([], codes "HOME") ∷ []) []) ≡ codes "C:<HOMEHOME>"
unfolding env_var_text text_eq
second_variable =
    resolve-line_of home (([], codes "HOME") ∷ ([], codes "HOME") ∷ []) []
      ((tt, ((refl, (refl, (refl, (refl, tt)))), (tt, ((refl, (refl, (refl, (refl, tt)))), tt)))))
      tt

decode_uif-block_example :
    decode_uif (block 1 (codes "bob") (codes "pw"))
    ≡ some (record { role = 1; username = codes "bob"; password = codes "pw" })
decode_uif-block_example =
    decode_uif-block 1 98 (codes "ob") (codes "pw") (refl, (refl, (refl, tt))) (refl, (refl, tt))
      (omega arith) (omega arith)

valid_notes : is_valid_name (codes "a.txt") ≡ true
unfolding is_valid_name any_invalid contains is_reserved to_lowercase starts_with text_eq
valid_notes = refl

is_valid_name-one_name_example :
    (path_of (codes "a.txt") ≡ name_path (codes "a.txt"))
    × (back 97 (codes ".txt") == b'.' ≡ false)
    × (back 97 (codes ".txt") == b' ' ≡ false)
    × LacksAll forbidden (codes "a.txt")
is_valid_name-one_name_example = is_valid_name-one_name 97 (codes ".txt") valid_notes

next_token-written_all_example :
    next_token (b'"' ∷ (written_all (b'a' ∷ b'"' ∷ []) ++ (b'"' ∷ codes " ;")))
    ≡ lexed (token string (text (b'a' ∷ b'"' ∷ []))) (codes " ;")
next_token-written_all_example = next_token-written_all (b'a' ∷ b'"' ∷ []) (codes " ;")

first_token :
    next_token (codes " [x") ≡ lexed (token opening_bracket (text (codes "["))) (codes "x")
unfolding next_token skip_spaces build_token simple_token
first_token = refl
