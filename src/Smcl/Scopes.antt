-- ===== src/Smcl/Scopes.antt =====
-- Statements that open and close no scope keep the scopes as they are.
use smc_server_client.Common.{
  Bool, true, false, List, [], ◌∷◌, ◌++◌, Bytes, codes, length, text_eq, Bool-cases, inl, inr,
  ◌>>=◌, ◌>>◌, pure, ◌≡◌, refl, sym, ap, ◌∙◌, arith,
}
use smc_server_client.Smcl.Lexer.{TokenId, dot, semicolon, equal, opening_bracket, string, number}
use smc_server_client.Smcl.Parser.{
  LangData, Parser, HeaderBindings, content_to_string, update, expects_token, identifier_loop,
  get_identifier_name, string_value_loop, load_string_value, full_str_begins, sections_full_name,
  insert_translation,
}
use smc_server_client.Smcl.Steps.{
  list_value_loop, load_list_loop, load_list_of_string_value, push_global_binding, set_lang,
  token_version, begin_strings, bind_key, set_bindings, take_once, push_header_name,
  push_header_locale, push_header_version, push_header_authors, push_header_binding,
  process_new_binding, process_new_strbegin,
}
use smc_server_client.Smcl.Sound.{
  Scoped, Follows, Sound, follows-refl, follows-tokens, bind-Sound, pure-Sound, fail-Sound,
  if-Sound, expects_token-Sound, fewer-identifier_loop, fewer-string_value_loop,
  fewer-list_value_loop,
}

load_string_value-Sound : (ids : List TokenId) → Sound (load_string_value ids)
unfolding load_string_value
load_string_value-Sound ids = record {
  runs = λ p.
      follows-tokens p (string_value_loop ids (full_str_begins p.curr_strbegins) false p.tokens).1
        (fewer-string_value_loop ids (full_str_begins p.curr_strbegins) false p.tokens);
}

pub get_identifier_name-Sound : (id : TokenId) → Sound (get_identifier_name id)
unfolding get_identifier_name
get_identifier_name-Sound id = record {
  runs = λ p.
      follows-tokens p (identifier_loop id [] false false p.tokens).1
        (fewer-identifier_loop id [] false false p.tokens);
}

load_list_loop-Sound : Sound load_list_loop
unfolding load_list_loop
load_list_loop-Sound = record {
  runs = λ p.
      let begins = full_str_begins p.curr_strbegins in
      follows-tokens p (list_value_loop begins begins false [] p.tokens).1
        (fewer-list_value_loop begins begins false [] p.tokens);
}

-- An update of what `Scoped` does not look at.
abbrev Quiet : (Parser → Parser) → Type 0
Quiet f = (p : Parser) → Follows p (f p)

same :
    {p : Parser}
    → Scoped p
    → (q : Parser) → q.curr_sections ≡ p.curr_sections
    → q.scope_index ≡ p.scope_index
    → q.is_in_header ≡ p.is_in_header
    → q.is_header_defined ≡ p.is_header_defined
    → Scoped q
same s q a b c d = record {
  sections_are = ap length a ∙ s.sections_are ∙ sym b;
  header_outside = λ e. b ∙ s.header_outside (sym c ∙ e);
  header_defined = λ e. d ∙ s.header_defined (sym c ∙ e);
}

quiet :
    (p q : Parser)
    → q.tokens ≡ p.tokens
    → q.curr_sections ≡ p.curr_sections
    → q.scope_index ≡ p.scope_index
    → q.is_in_header ≡ p.is_in_header
    → q.is_header_defined ≡ p.is_header_defined
    → Follows p q
quiet p q t a b c d = record { fewer = omega (arith, ap length t); scoped = λ s. same s q a b c d }

take_once-Sound :
    (defined : HeaderBindings → Bool) (define : HeaderBindings → HeaderBindings)
    → Sound (take_once defined define)
take_once-Sound defined define = record {
  runs = λ p. elim (Bool-cases (defined p.header_defined_bindings)) [
    | inl twice ↦ rw twice (follows-refl p)
    | inr once ↦ rw once (quiet p (set_bindings define p) refl refl refl refl refl)
  ];
}

set_lang-Sound : (f : LangData → LangData) → Sound (update (set_lang f))
set_lang-Sound f = record { runs = λ p. quiet p (set_lang f p) refl refl refl refl refl }

begin_strings-Sound : (str : Bytes) → Sound (update (begin_strings str))
begin_strings-Sound str = record {
  runs = λ p. quiet p (begin_strings str p) refl refl refl refl refl;
}

push_global_binding-Sound : (key : Bytes) → Sound (push_global_binding key)
unfolding push_global_binding
push_global_binding-Sound key =
    bind-Sound (load_string_value (semicolon ∷ []))
      (λ v.
        update
          (set_lang (λ l. record l { translations = insert_translation key v.0 l.translations })))
      (load_string_value-Sound (semicolon ∷ [])) (λ v. set_lang-Sound _)

push_header_name-Sound : Sound push_header_name
unfolding push_header_name
push_header_name-Sound =
    bind-Sound (take_once (λ b. b.has_name) (λ b. record b { has_name = true }))
      (λ u. load_string_value (semicolon ∷ []) >>= λ v.
        update (set_lang (λ l. record l { name = v.0 })))
      (take_once-Sound _ _)
      (λ u.
        bind-Sound (load_string_value (semicolon ∷ []))
          (λ v. update (set_lang (λ l. record l { name = v.0 })))
          (load_string_value-Sound (semicolon ∷ [])) (λ v. set_lang-Sound _))

push_header_locale-Sound : Sound push_header_locale
unfolding push_header_locale
push_header_locale-Sound =
    bind-Sound (take_once (λ b. b.has_locale) (λ b. record b { has_locale = true }))
      (λ u. load_string_value (semicolon ∷ []) >>= λ v.
        update (set_lang (λ l. record l { locale = v.0 })))
      (take_once-Sound _ _)
      (λ u.
        bind-Sound (load_string_value (semicolon ∷ []))
          (λ v. update (set_lang (λ l. record l { locale = v.0 })))
          (load_string_value-Sound (semicolon ∷ [])) (λ v. set_lang-Sound _))

version_parts-Sound : Sound (
    expects_token number >>= λ major.
    expects_token dot
    >> (expects_token number >>= λ minor.
        expects_token dot
        >> (expects_token number >>= λ patch.
            update (set_lang (λ l. record l { version = token_version major minor patch })))))
version_parts-Sound =
    bind-Sound (expects_token number)
      (λ major.
        expects_token dot
        >> (expects_token number >>= λ minor.
            expects_token dot
            >> (expects_token number >>= λ patch.
                update (set_lang (λ l. record l { version = token_version major minor patch })))))
      (expects_token-Sound number)
      (λ major.
        bind-Sound (expects_token dot)
          (λ a. expects_token number >>= λ minor.
            expects_token dot
            >> (expects_token number >>= λ patch.
                update (set_lang (λ l. record l { version = token_version major minor patch }))))
          (expects_token-Sound dot)
          (λ a.
            bind-Sound (expects_token number)
              (λ minor.
                expects_token dot
                >> (expects_token number >>= λ patch.
                    update
                      (set_lang (λ l. record l { version = token_version major minor patch }))))
              (expects_token-Sound number)
              (λ minor.
                bind-Sound (expects_token dot)
                  (λ b. expects_token number >>= λ patch.
                    update (set_lang (λ l. record l { version = token_version major minor patch })))
                  (expects_token-Sound dot)
                  (λ b.
                    bind-Sound (expects_token number)
                      (λ patch.
                        update
                          (set_lang (λ l. record l { version = token_version major minor patch })))
                      (expects_token-Sound number) (λ patch. set_lang-Sound _)))))

push_header_version-Sound : Sound push_header_version
unfolding push_header_version
push_header_version-Sound =
    bind-Sound (take_once (λ b. b.has_version) (λ b. record b { has_version = true })) _
      (take_once-Sound _ _) (λ u. version_parts-Sound)

load_list_of_string_value-Sound : Sound load_list_of_string_value
unfolding load_list_of_string_value
load_list_of_string_value-Sound =
    bind-Sound (expects_token opening_bracket)
      (λ a. load_list_loop >>= λ list. expects_token semicolon >> pure list)
      (expects_token-Sound opening_bracket)
      (λ a.
        bind-Sound load_list_loop (λ list. expects_token semicolon >> pure list)
          load_list_loop-Sound
          (λ list.
            bind-Sound (expects_token semicolon) (λ b. pure list) (expects_token-Sound semicolon)
              (λ b. pure-Sound list)))

push_header_authors-Sound : Sound push_header_authors
unfolding push_header_authors
push_header_authors-Sound =
    bind-Sound (take_once (λ b. b.has_authors) (λ b. record b { has_authors = true }))
      (λ u. load_list_of_string_value >>= λ v. update (set_lang (λ l. record l { authors = v })))
      (take_once-Sound _ _)
      (λ u.
        bind-Sound load_list_of_string_value
          (λ v. update (set_lang (λ l. record l { authors = v }))) load_list_of_string_value-Sound
          (λ v. set_lang-Sound _))

push_header_binding-Sound : (key : Bytes) → Sound (push_header_binding key)
unfolding push_header_binding
push_header_binding-Sound key = if-Sound (text_eq key (codes "name")) _ _ push_header_name-Sound (
    if-Sound (text_eq key (codes "locale")) _ _ push_header_locale-Sound (
      if-Sound (text_eq key (codes "version")) _ _ push_header_version-Sound
        (if-Sound (text_eq key (codes "authors")) _ _ push_header_authors-Sound fail-Sound)))

bind_key-Sound : (name : Bytes) → Sound (bind_key name)
unfolding bind_key
bind_key-Sound name = record {
  runs = λ p.
      let key = sections_full_name p.curr_sections ++ name in
      (if-Sound p.is_in_header (push_header_binding key) (push_global_binding key)
          (push_header_binding-Sound key) (push_global_binding-Sound key)).runs
        p;
}

pub process_new_binding-Sound : Sound process_new_binding
unfolding process_new_binding
process_new_binding-Sound =
    bind-Sound (get_identifier_name equal) bind_key (get_identifier_name-Sound equal) bind_key-Sound

pub process_new_strbegin-Sound : Sound process_new_strbegin
unfolding process_new_strbegin
process_new_strbegin-Sound =
    bind-Sound (expects_token string)
      (λ t. update (begin_strings (content_to_string t)) >> (expects_token semicolon >> pure tt))
      (expects_token-Sound string)
      (λ t.
        bind-Sound (update (begin_strings (content_to_string t)))
          (λ u. expects_token semicolon >> pure tt) (begin_strings-Sound _)
          (λ u.
            bind-Sound (expects_token semicolon) (λ s. pure tt) (expects_token-Sound semicolon)
              (λ s. pure-Sound tt)))
