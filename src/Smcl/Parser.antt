-- ===== src/Smcl/Parser.antt =====
-- src/shell/lang/smcl_parser.cpp, over the tokens that the lexer gives before the end of the file. From
-- there on it gives the token of the end again and again, or it has failed.
use smc_server_client.Common.{
  ℕ, Bool, true, false, not, ◌&&◌, ◌||◌, Option, none, some, List, [], ◌∷◌, ◌++◌, Bytes, codes,
  text_eq, ltb, ◌==◌, if◌then◌else◌, Fallible, ◌>>=◌, ◌>>◌, pure,
}
use smc_server_client.Text.{to_string}
use smc_server_client.Version.{Version}
use smc_server_client.Smcl.Lexer.{
  TokenId, dot, semicolon, equal, opening_bracket, closing_bracket, comma, identifier, string,
  number, section, strbegin, header, end, eof, text, int, Token, token,
}

pub record LangData : Type 0 where
  pub name : Bytes
  pub locale : Bytes
  pub version : Version
  pub authors : List Bytes
  pub translations : List (Bytes × Bytes)

-- The bits of `header_defined_bindings`.
pub record HeaderBindings : Type 0 where
  pub has_name : Bool
  pub has_locale : Bool
  pub has_version : Bool
  pub has_authors : Bool

-- What the lexer gives behind the last of the tokens.
pub data Behind : Type 0 where
  endless_eof lexer_error : Behind

pub record Parser : Type 0 where
  pub tokens : List Token
  pub behind : Behind
  pub header_defined_bindings : HeaderBindings
  pub scope_index : ℕ
  pub curr_sections : List Bytes
  pub curr_strbegins : List (ℕ × Bytes)
  pub lang : LangData
  pub is_in_header : Bool
  pub is_header_defined : Bool
  pub is_eof : Bool

abbrev pub token_code : TokenId → ℕ
token_code dot = 0
token_code semicolon = 1
token_code equal = 2
token_code opening_bracket = 3
token_code closing_bracket = 4
token_code comma = 5
token_code identifier = 6
token_code string = 7
token_code number = 8
token_code section = 9
token_code strbegin = 10
token_code header = 11
token_code end = 12
token_code eof = 13

abbrev pub is_id : TokenId → Token → Bool
is_id id t = token_code t.id == token_code id

abbrev pub content_to_string : Token → Bytes
content_to_string t = elim t.content [ text str ↦ str | int n ↦ to_string n ]

abbrev pub content_int : Token → ℕ
content_int t = elim t.content [ text str ↦ 0 | int n ↦ n ]

abbrev pub eof_token : Token
eof_token = token eof (text (codes "EOF"))

abbrev pub token_behind : Behind → Option Token
token_behind endless_eof = some eof_token
token_behind lexer_error = none

abbrev pub take_token : List Token → Fallible Parser Token
take_token [] p = (token_behind p.behind, p)
take_token (t ∷ ts) p = (some t, record p { tokens = ts })

unfoldable pub get_next_token : Fallible Parser Token
get_next_token p = take_token p.tokens p

abbrev pub require : Bool → Fallible Parser Unit
require test p = (if test then some tt else none, p)

abbrev pub update : (Parser → Parser) → Fallible Parser Unit
update f p = (some tt, f p)

-- `expectsTokens` with one token, which `mustFinishWithSemicolon` is too.
unfoldable pub expects_token : TokenId → Fallible Parser Token
expects_token id = do t ← get_next_token; require (is_id id t); pure t

-- The loop of `getIdentifierName`. Here as in the other loops, what is behind the tokens fails: the end
-- of the file is none of the tokens that a loop takes.
unfoldable pub identifier_loop :
    TokenId → Bytes → Bool → Bool → List Token → Option Bytes × List Token
identifier_loop end_token name string_started last_is_point [] = (none, [])
identifier_loop end_token name string_started last_is_point (t ∷ ts) =
    let point = identifier_loop end_token (name ++ (b'.' ∷ [])) string_started true ts in
    let more = identifier_loop end_token (name ++ content_to_string t) true false ts in
    if is_id end_token t
    then (if not last_is_point && string_started then some name else none, ts)
    else if is_id dot t
    then (if string_started then point else (none, ts))
    else if is_id identifier t
    then more
    else (none, ts)

unfoldable pub get_identifier_name : TokenId → Fallible Parser Bytes
get_identifier_name end_token p =
    let (r, ts) = identifier_loop end_token [] false false p.tokens in (r, record p { tokens = ts })

abbrev pub is_any : List TokenId → Token → Bool
is_any [] t = false
is_any (id ∷ ids) t = is_id id t || is_any ids t

-- The loop of `loadStringValue`; `some_string` is `i != 0`. The result has the token that ends it.
unfoldable pub string_value_loop :
    List TokenId → Bytes → Bool → List Token → Option (Bytes × Token) × List Token
string_value_loop end_tokens value some_string [] = (none, [])
string_value_loop end_tokens value some_string (t ∷ ts) =
    let more = string_value_loop end_tokens (value ++ content_to_string t) true ts in
    if is_id string t
    then more
    else (if is_any end_tokens t && some_string then some (value, t) else none, ts)

abbrev pub full_str_begins : List (ℕ × Bytes) → Bytes
full_str_begins [] = []
full_str_begins ((key, str) ∷ strbegins) = str ++ full_str_begins strbegins

unfoldable pub load_string_value : List TokenId → Fallible Parser (Bytes × Token)
load_string_value end_tokens p =
    let (r, ts) = string_value_loop end_tokens (full_str_begins p.curr_strbegins) false p.tokens in
    (r, record p { tokens = ts })

-- `getSectionsFullName`.
abbrev pub sections_full_name : List Bytes → Bytes
sections_full_name [] = []
sections_full_name (name ∷ sections) = name ++ (b'.' ∷ sections_full_name sections)

-- `std::unordered_map::insert`, which keeps the value of a key that is there; the map of the beginnings
-- of strings is kept in the order of its keys, in which `getFullStrBegins` takes them.
unfoldable pub insert_translation : Bytes → Bytes → List (Bytes × Bytes) → List (Bytes × Bytes)
insert_translation key value [] = (key, value) ∷ []
insert_translation key value ((k, v) ∷ rest) =
    let later = insert_translation key value rest in
    if text_eq k key then (k, v) ∷ rest else (k, v) ∷ later

unfoldable pub insert_strbegin : ℕ → Bytes → List (ℕ × Bytes) → List (ℕ × Bytes)
insert_strbegin key str [] = (key, str) ∷ []
insert_strbegin key str ((k, s) ∷ rest) =
    let later = insert_strbegin key str rest in
    if k == key
    then (k, s) ∷ rest
    else if ltb key k
    then (key, str) ∷ ((k, s) ∷ rest)
    else (k, s) ∷ later

unfoldable pub erase_strbegin : ℕ → List (ℕ × Bytes) → List (ℕ × Bytes)
erase_strbegin key [] = []
erase_strbegin key ((k, s) ∷ rest) =
    let later = erase_strbegin key rest in if k == key then later else (k, s) ∷ later

-- `pop_back`; of no sections it is undefined behaviour, which never comes to pass.
unfoldable pub pop_section : List Bytes → List Bytes
pop_section [] = []
pop_section (name ∷ []) = []
pop_section (name ∷ next ∷ sections) = name ∷ pop_section (next ∷ sections)
