-- ===== src/Tests/Languages.antt =====
-- Language files.
use smc_server_client.Common.{List, [], ◌∷◌, codes, ◌≡◌, refl}
use smc_server_client.Smcl.Lexer.{text, header, semicolon, section, identifier, Token, token}
use smc_server_client.Smcl.Parser.{endless_eof, get_next_token, expects_token}
use smc_server_client.Smcl.Steps.{
  parsed, no_lang, new_parser, process_next_token, process_token, process_new_header, parse_loop,
  parse,
}
use smc_server_client.Smcl.Sound.{Scoped}
use smc_server_client.Smcl.Ends.{start, step, reached-Scoped}

-- `SECTION a;`.
abbrev opening : List Token
opening =
    token section (text (codes "SECTION"))
    ∷ token identifier (text (codes "a"))
    ∷ token semicolon (text (codes ";"))
    ∷ []

reached-Scoped_example : Scoped (process_next_token (new_parser opening endless_eof)).1
reached-Scoped_example =
    reached-Scoped (process_next_token (new_parser opening endless_eof)).1 (step start)

-- A header that is never closed is taken at the end of the file, with none of its bindings.
open_header_accepted :
    parse
      (token header (text (codes "HEADER")) ∷ token semicolon (text (codes ";")) ∷ [])
      endless_eof
    ≡ parsed no_lang
unfolding parse parse_loop process_next_token process_token process_new_header get_next_token
    expects_token
open_header_accepted = refl
