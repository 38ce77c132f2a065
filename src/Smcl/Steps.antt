-- ===== src/Smcl/Steps.antt =====
-- src/shell/lang/smcl_parser.cpp: what the parser does for each statement, and the loop of `parse`.
use smc_server_client.Common.{
  ℕ, zero, suc, ◌+◌, ◌-◌, ◌%◌, ◌^◌, Bool, true, false, not, ◌&&◌, ◌||◌, Option, none, some, List,
  [], ◌∷◌, ◌++◌, Bytes, codes, length, text_eq, ◌==◌, if◌then◌else◌, Fallible, ◌>>=◌, ◌>>◌, pure,
  fail,
}
use smc_server_client.Version.{Version, version}
use smc_server_client.Smcl.Lexer.{
  dot, semicolon, equal, opening_bracket, closing_bracket, comma, string, number, section, strbegin,
  header, end, eof, Token,
}
use smc_server_client.Smcl.Parser.{
  LangData, HeaderBindings, Behind, Parser, is_id, content_to_string, content_int, get_next_token,
  require, update, expects_token, get_identifier_name, load_string_value, full_str_begins,
  sections_full_name, insert_translation, insert_strbegin, erase_strbegin, pop_section,
}

-- The loop of `loadListOfStringValue` with that of `loadStringValue` inside: `begins` is what every
-- string of the list begins with.
unfoldable pub list_value_loop :
    Bytes → Bytes → Bool → List Bytes → List Token → Option (List Bytes) × List Token
list_value_loop begins value some_string list [] = (none, [])
list_value_loop begins value some_string list (t ∷ ts) =
    let more = list_value_loop begins (value ++ content_to_string t) true list ts in
    let next = list_value_loop begins begins false (list ++ (value ∷ [])) ts in
    if is_id string t
    then more
    else if is_id comma t && some_string
    then next
    else (if is_id closing_bracket t && some_string then some (list ++ (value ∷ [])) else none, ts)

unfoldable pub load_list_loop : Fallible Parser (List Bytes)
load_list_loop p =
    let begins = full_str_begins p.curr_strbegins in
    let (r, ts) = list_value_loop begins begins false [] p.tokens in (r, record p { tokens = ts })

unfoldable pub load_list_of_string_value : Fallible Parser (List Bytes)
load_list_of_string_value = do
  expects_token opening_bracket
  list ← load_list_loop
  expects_token semicolon
  pure list

abbrev pub set_lang : (LangData → LangData) → Parser → Parser
set_lang f p = record p { lang = f p.lang }

unfoldable pub push_global_binding : Bytes → Fallible Parser Unit
push_global_binding key = do
  (value, t) ← load_string_value (semicolon ∷ [])
  update (set_lang (λ l. record l { translations = insert_translation key value l.translations }))

abbrev pub set_bindings : (HeaderBindings → HeaderBindings) → Parser → Parser
set_bindings f p = record p { header_defined_bindings = f p.header_defined_bindings }

-- Each header binding is taken once: its bit is tested, then set.
abbrev pub take_once :
    (HeaderBindings → Bool) → (HeaderBindings → HeaderBindings) → Fallible Parser Unit
take_once defined define p =
    if defined p.header_defined_bindings then (none, p) else (some tt, set_bindings define p)

unfoldable pub push_header_name : Fallible Parser Unit
push_header_name = do
  take_once (λ b. b.has_name) (λ b. record b { has_name = true })
  (value, t) ← load_string_value (semicolon ∷ [])
  update (set_lang (λ l. record l { name = value }))

unfoldable pub push_header_locale : Fallible Parser Unit
push_header_locale = do
  take_once (λ b. b.has_locale) (λ b. record b { has_locale = true })
  (value, t) ← load_string_value (semicolon ∷ [])
  update (set_lang (λ l. record l { locale = value }))

-- The parts of a version are cast from `int` to 16 bits.
abbrev pub token_version : Token → Token → Token → Version
token_version major minor patch =
    version (content_int major % 2 ^ 16) (content_int minor % 2 ^ 16) (content_int patch % 2 ^ 16)

unfoldable pub push_header_version : Fallible Parser Unit
push_header_version = do
  take_once (λ b. b.has_version) (λ b. record b { has_version = true })
  major ← expects_token number
  expects_token dot
  minor ← expects_token number
  expects_token dot
  patch ← expects_token number
  update (set_lang (λ l. record l { version = token_version major minor patch }))

unfoldable pub push_header_authors : Fallible Parser Unit
push_header_authors = do
  take_once (λ b. b.has_authors) (λ b. record b { has_authors = true })
  value ← load_list_of_string_value
  update (set_lang (λ l. record l { authors = value }))

unfoldable pub push_header_binding : Bytes → Fallible Parser Unit
push_header_binding key =
    if text_eq key (codes "name")
    then push_header_name
    else if text_eq key (codes "locale")
    then push_header_locale
    else if text_eq key (codes "version")
    then push_header_version
    else if text_eq key (codes "authors")
    then push_header_authors
    else fail

unfoldable pub bind_key : Bytes → Fallible Parser Unit
bind_key binding_name p =
    let key = sections_full_name p.curr_sections ++ binding_name in
    (if p.is_in_header then push_header_binding key else push_global_binding key) p

unfoldable pub process_new_binding : Fallible Parser Unit
process_new_binding = get_identifier_name equal >>= bind_key

abbrev pub open_section : Bytes → Parser → Parser
open_section name p = record p {
  scope_index = p.scope_index + 1;
  curr_sections = p.curr_sections ++ (name ∷ []);
}

abbrev pub section_unless : Bool → Fallible Parser Unit
section_unless true = fail
section_unless false =
    get_identifier_name semicolon >>= λ section_name. update (open_section section_name)

unfoldable pub process_new_section : Fallible Parser Unit
process_new_section p = section_unless p.is_in_header p

abbrev pub begin_strings : Bytes → Parser → Parser
begin_strings str p = record p {
  curr_strbegins = insert_strbegin p.scope_index str p.curr_strbegins;
}

unfoldable pub process_new_strbegin : Fallible Parser Unit
process_new_strbegin = do
  t ← expects_token string
  update (begin_strings (content_to_string t))
  expects_token semicolon
  pure tt

abbrev pub open_header : Parser → Parser
open_header p = record p { is_in_header = true; is_header_defined = true }

unfoldable pub process_new_header : Fallible Parser Unit
process_new_header p =
    (if (p.is_header_defined || p.is_in_header) || not (p.scope_index == 0)
        then fail
        else update open_header >> (expects_token semicolon >> pure tt))
      p

-- `checkHeaderBindings`.
abbrev pub all_defined : HeaderBindings → Bool
all_defined b = b.has_name && (b.has_locale && (b.has_version && b.has_authors))

abbrev pub close_section : Parser → Parser
close_section p = record p {
  curr_strbegins = erase_strbegin p.scope_index p.curr_strbegins;
  scope_index = p.scope_index - 1;
  curr_sections = pop_section p.curr_sections;
}

-- The end of the header, of a section, or of nothing.
abbrev pub end_of : Bool → Bool → Fallible Parser Unit
end_of true outermost p =
    (update (λ q. record q { is_in_header = false })
        >> require (all_defined p.header_defined_bindings))
      p
end_of false true p = (none, p)
end_of false false p = (update close_section >> (expects_token semicolon >> pure tt)) p

unfoldable pub process_new_end : Fallible Parser Unit
process_new_end p = end_of p.is_in_header (p.scope_index == 0) p

unfoldable pub process_token : Token → Fallible Parser Unit
process_token t =
    if is_id eof t
    then update (λ p. record p { is_eof = true })
    else if is_id semicolon t
    then pure tt
    else if is_id dot t
    then process_new_binding
    else if is_id section t
    then process_new_section
    else if is_id strbegin t
    then process_new_strbegin
    else if is_id header t
    then process_new_header
    else if is_id end t
    then process_new_end
    else fail

unfoldable pub process_next_token : Fallible Parser Unit
process_next_token = do t ← get_next_token; process_token t

-- How `parse` ends: with the language, with `false`, or out of rounds; or it is undefined.
pub data Parsed : Type 0 where
  parsed : LangData → Parsed
  rejected stuck undefined : Parsed

-- The language or `false`.
abbrev pub is_answer : Parsed → Bool
is_answer (parsed lang) = true
is_answer rejected = true
is_answer stuck = false
is_answer undefined = false

abbrev pub finish : Parser → Parsed
finish p =
    if not (p.scope_index == 0)
    then rejected
    else if p.is_header_defined
    then parsed p.lang
    else rejected

abbrev pub after : (Parser → Parsed) → Option (Unit {0}) × Parser → Parsed
after later (none, p) = rejected
after later (some done, p) = later p

abbrev pub finish_if : Bool → Parser → Parsed → Parsed
finish_if true p rest = finish p
finish_if false p rest = rest

unfoldable pub parse_loop : ℕ → Parser → Parsed
parse_loop zero p = stuck
parse_loop (suc rounds) p =
    let rest = after (parse_loop rounds) (process_next_token p) in finish_if p.is_eof p rest

abbrev pub no_bindings : HeaderBindings
no_bindings = record {
  has_name = false;
  has_locale = false;
  has_version = false;
  has_authors = false;
}

abbrev pub no_lang : LangData
no_lang = record {
  name = [];
  locale = [];
  version = version 0 0 0;
  authors = [];
  translations = [];
}

abbrev pub new_parser : List Token → Behind → Parser
new_parser tokens behind = record {
  tokens = tokens;
  behind = behind;
  header_defined_bindings = no_bindings;
  scope_index = 0;
  curr_sections = [];
  curr_strbegins = [];
  lang = no_lang;
  is_in_header = false;
  is_header_defined = false;
  is_eof = false;
}

unfoldable pub parse : List Token → Behind → Parsed
parse tokens behind = parse_loop (length tokens + 2) (new_parser tokens behind)
