-- ===== src/Smcl/Lexer.antt =====
-- src/shell/lang/smcl_lexer.cpp, with Client/include/shell/lang/smcl_lexer.hpp and smcl_token.hpp. The
-- position of the lexer is what is left of the data.
use smc_server_client.Common.{
  ℕ, ◌+◌, ◌-◌, ◌*◌, ◌^◌, Bool, true, false, ◌||◌, Option, none, some, [], ◌∷◌, ◌++◌, Bytes, codes,
  text_eq, ltb, ◌==◌, if◌then◌else◌,
}
use smc_server_client.Text.{is_space, is_digit}

pub data TokenId : Type 0 where
  dot semicolon equal opening_bracket closing_bracket comma : TokenId
  identifier string number : TokenId
  section strbegin header end : TokenId
  eof : TokenId

pub data Content : Type 0 where
  text : Bytes → Content
  int : ℕ → Content

pub record Token : Type 0 where
  pub id : TokenId
  pub content : Content

abbrev pub token : TokenId → Content → Token
token id content = record { id = id; content = content }

-- What `nextToken` does: a token and what is left, an error, or an overflow of `int`, which is
-- undefined behaviour.
pub data Lexed : Type 0 where
  lexed : Token → Bytes → Lexed
  string_not_closed : Lexed
  overflow : Lexed

-- `getStartIdx`.
unfoldable pub skip_spaces : Bytes → Bytes
skip_spaces [] = []
skip_spaces (c ∷ cs) = let later = skip_spaces cs in if is_space c then later else c ∷ cs

unfoldable pub simple_token : ℕ → Option TokenId
simple_token ch =
    if ch == b'.'
    then some dot
    else if ch == b';'
    then some semicolon
    else if ch == b'='
    then some equal
    else if ch == b'['
    then some opening_bracket
    else if ch == b']'
    then some closing_bracket
    else if ch == b','
    then some comma
    else none

unfoldable pub is_simple_char_token : ℕ → Bool
is_simple_char_token ch =
    ch == b'.' || (ch == b';' || (ch == b'=' || (ch == b'[' || (ch == b']' || ch == b','))))

unfoldable pub get_escape_char : ℕ → ℕ
get_escape_char esc =
    if esc == b'n'
    then 10
    else if esc == b't'
    then 9
    else if esc == b'v'
    then 11
    else if esc == b'f'
    then 12
    else if esc == 92
    then 92
    else if esc == b'"'
    then b'"'
    else b'?'

-- The loop of `buildTokenFromString` behind the first quote.
unfoldable pub string_loop : Bool → Bytes → Bytes → Lexed
string_loop escaped final_str [] = string_not_closed
string_loop true final_str (ch ∷ rest) =
    string_loop false (final_str ++ (get_escape_char ch ∷ [])) rest
string_loop false final_str (ch ∷ rest) =
    let escape = string_loop true final_str rest in
    let plain = string_loop false (final_str ++ (ch ∷ [])) rest in
    if ch == 92
    then escape
    else if ch == b'"'
    then lexed (token string (text final_str)) rest
    else plain

abbrev pub int_token : ℕ → Bytes → Lexed
int_token final_num rest =
    if ltb final_num (2 ^ 31) then lexed (token number (int final_num)) rest else overflow

unfoldable pub number_loop : ℕ → Bytes → Lexed
number_loop final_num [] = int_token final_num []
number_loop final_num (ch ∷ rest) =
    let later = number_loop (final_num * 10 + (ch - 48)) rest in
    if is_digit ch then later else int_token final_num (ch ∷ rest)

unfoldable pub identifier_id : Bytes → TokenId
identifier_id str =
    if text_eq str (codes "SECTION")
    then section
    else if text_eq str (codes "STRBEGIN")
    then strbegin
    else if text_eq str (codes "HEADER")
    then header
    else if text_eq str (codes "END")
    then end
    else identifier

-- `getEndIdxFromCurrPos`: the bytes before the end of an identifier, and those from there on.
unfoldable pub split_identifier : Bytes → Bytes × Bytes
split_identifier [] = ([], [])
split_identifier (ch ∷ rest) =
    let (str, left) = split_identifier rest in
    if is_space ch || is_simple_char_token ch then ([], ch ∷ rest) else (ch ∷ str, left)

abbrev pub identifier_token : Bytes × Bytes → Lexed
identifier_token (str, left) = lexed (token (identifier_id str) (text str)) left

-- `buildTokenFromIdx` at a byte that is no space.
unfoldable pub build_token : ℕ → Bytes → Lexed
unfolding split_identifier
build_token ch rest = elim (simple_token ch) [
  | some id ↦ lexed (token id (text (ch ∷ []))) rest
  | none ↦
      if ch == b'"'
      then string_loop false [] rest
      else if is_digit ch
      then number_loop 0 (ch ∷ rest)
      else identifier_token (split_identifier (ch ∷ rest))
]

abbrev pub token_at : Bytes → Lexed
token_at [] = lexed (token eof (text (codes "EOF"))) []
token_at (ch ∷ rest) = build_token ch rest

unfoldable pub next_token : Bytes → Lexed
next_token left = token_at (skip_spaces left)
