-- ===== src/Smcl/Stream.antt =====
-- The tokens that src/shell/lang/smcl_parser.cpp takes from the lexer, one by one until the end of the
-- file or an error, as a list; and src/shell/lang/smcl_loader.cpp on the content of a file.
use smc_server_client.Common.{ℕ, zero, suc, ◌+◌, List, [], ◌∷◌, Bytes, length, if◌then◌else◌}
use smc_server_client.Smcl.Lexer.{eof, Token, Lexed, lexed, string_not_closed, overflow, next_token}
use smc_server_client.Smcl.Parser.{Behind, endless_eof, lexer_error, is_id}
use smc_server_client.Smcl.Steps.{Parsed, stuck, undefined, parse}

-- Where the lexer stops: at the end or at an error, which `Behind` tells; at a number that no `int`
-- holds, which is undefined behaviour; or for want of rounds.
pub data Stop : Type 0 where
  at_end : Behind → Stop
  int_overflow out_of_rounds : Stop

-- At the end of the file the lexer does not move, so that it gives the token of the end forever.
abbrev pub keep_token : (Bytes → List Token × Stop) → Lexed → List Token × Stop
keep_token later (lexed t rest) =
    let (ts, stop) = later rest in if is_id eof t then ([], at_end endless_eof) else (t ∷ ts, stop)
keep_token later string_not_closed = ([], at_end lexer_error)
keep_token later overflow = ([], int_overflow)

unfoldable pub tokens_from : ℕ → Bytes → List Token × Stop
tokens_from zero left = ([], out_of_rounds)
tokens_from (suc rounds) left = keep_token (tokens_from rounds) (next_token left)

-- A file with a number that no `int` holds is left undefined, wherever the parser stops.
abbrev pub parse_until : List Token × Stop → Parsed
parse_until (ts, at_end behind) = parse ts behind
parse_until (ts, int_overflow) = undefined
parse_until (ts, out_of_rounds) = stuck

unfoldable pub load : Bytes → Parsed
load file_content = parse_until (tokens_from (length file_content + 1) file_content)
