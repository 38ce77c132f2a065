-- ===== src/Smcl/Ends.antt =====
-- The scopes of the parser are right at every step, and its loop ends.
use smc_server_client.Common.{
  ℕ, zero, suc, ◌+◌, ◌-◌, ◌≤◌, ◌<◌, Bool, true, false, not, ◌||◌, Option, none, some, List, [], ◌∷◌,
  Bytes, length, ◌==◌, Bool-cases, inl, inr, Fallible, ◌>>=◌, ◌>>◌, pure, continue, bind-continue,
  ◌≡◌, refl, sym, subst, ◌∙◌, arith, length-append,
}
use smc_server_client.Smcl.Lexer.{dot, semicolon, section, strbegin, header, end, eof, Token}
use smc_server_client.Smcl.Parser.{
  Behind, endless_eof, lexer_error, token_behind, Parser, is_id, get_next_token, update,
  expects_token, identifier_loop, get_identifier_name, pop_section, take_token,
}
use smc_server_client.Smcl.Steps.{
  open_section, section_unless, process_new_section, open_header, process_new_header, close_section,
  end_of, process_new_end, process_token, process_next_token, Parsed, is_answer, finish, finish_if,
  after, parse_loop, new_parser, parse,
}
use smc_server_client.Smcl.Sound.{
  Scoped, Follows, Sound, follows-refl, follows-trans, follows-tokens, bind-Sound, pure-Sound,
  fail-Sound, if-Sound, get_next_token-Sound, expects_token-Sound, fewer-identifier_loop,
}
use smc_server_client.Smcl.Scopes.{process_new_binding-Sound, process_new_strbegin-Sound}

or-false : (a b : Bool) → a || b ≡ false → (a ≡ false) × (b ≡ false)
or-false a b h = ground arith

semicolon-Sound : Sound (expects_token semicolon >> pure tt)
semicolon-Sound =
    bind-Sound (expects_token semicolon) (λ s. pure tt) (expects_token-Sound semicolon)
      (λ s. pure-Sound tt)

-- Outside of the header, the scopes may change if the sections do.
outside_header :
    (p q : Parser)
    → q.is_in_header ≡ false
    → length q.tokens ≤ length p.tokens
    → (Scoped p → length q.curr_sections ≡ q.scope_index)
    → Follows p q
outside_header p q out h k = record {
  fewer = h;
  scoped = λ s. record {
    sections_are = k s;
    header_outside = λ e. (let clash : true ≡ false = sym e ∙ out in ground arith);
    header_defined = λ e. (let clash : true ≡ false = sym e ∙ out in ground arith);
  };
}

opened :
    (p : Parser) (r : Option Bytes) (ts : List Token)
    → p.is_in_header ≡ false
    → length ts ≤ length p.tokens
    → Follows p (continue (λ name. update (open_section name)) (r, record p { tokens = ts })).1
opened p none ts out h = follows-tokens p ts h
opened p (some name) ts out h =
    outside_header p (open_section name (record p { tokens = ts })) out h
      (λ s. omega (arith, length-append p.curr_sections (name ∷ []), s.sections_are))

section_named :
    (p : Parser)
    → get_identifier_name semicolon p ≡ (
      (identifier_loop semicolon [] false false p.tokens).0,
      record p { tokens = (identifier_loop semicolon [] false false p.tokens).1 },
    )
unfolding get_identifier_name
section_named p = refl

section_unless-follows :
    (in_header : Bool) (p : Parser)
    → p.is_in_header ≡ in_header
    → Follows p (section_unless in_header p).1
section_unless-follows true p e = follows-refl p
section_unless-follows false p e =
    let loop = identifier_loop semicolon [] false false p.tokens in
    let open_named : Bytes → Fallible Parser Unit = λ name. update (open_section name) in
    subst (λ t. Follows p t.1) (sym (bind-continue (get_identifier_name semicolon) open_named p))
      (subst (λ t. Follows p (continue open_named t).1) (sym (section_named p))
        (opened p loop.0 loop.1 e (fewer-identifier_loop semicolon [] false false p.tokens)))

process_new_section-Sound : Sound process_new_section
unfolding process_new_section
process_new_section-Sound = record { runs = λ p. section_unless-follows p.is_in_header p refl }

process_new_header-Sound : Sound process_new_header
unfolding process_new_header
process_new_header-Sound = record {
  runs = λ p.
      elim (Bool-cases ((p.is_header_defined || p.is_in_header) || not (p.scope_index == 0))) [
        | inl refused ↦ rw refused (follows-refl p)
        | inr free ↦
            let outermost : p.scope_index ≡ 0 =
              ground (arith, or-false (p.is_header_defined || p.is_in_header) _ free) in
            let begun : Follows p (open_header p) = record {
              fewer = omega arith;
              scoped = λ s. record {
                sections_are = s.sections_are;
                header_outside = λ e. outermost;
                header_defined = λ e. refl;
              };
            } in
            rw free (follows-trans p (open_header p) _ begun (semicolon-Sound.runs (open_header p)))
      ];
}

length-pop_section : (sections : List Bytes) → length (pop_section sections) ≡ length sections - 1
unfolding pop_section
length-pop_section [] = omega arith
length-pop_section (name ∷ []) = omega arith
length-pop_section (name ∷ next ∷ sections) = omega (arith, length-pop_section (next ∷ sections))

end_of-follows :
    (in_header outermost : Bool) (p : Parser)
    → p.is_in_header ≡ in_header
    → Follows p (end_of in_header outermost p).1
end_of-follows true outermost p e =
    outside_header p (record p { is_in_header = false }) refl (omega arith) (λ s. s.sections_are)
end_of-follows false true p e = follows-refl p
end_of-follows false false p e =
    let closed : Follows p (close_section p) =
      outside_header p (close_section p) e (omega arith)
        (λ s. omega (arith, length-pop_section p.curr_sections, s.sections_are)) in
    follows-trans p (close_section p) _ closed (semicolon-Sound.runs (close_section p))

process_new_end-Sound : Sound process_new_end
unfolding process_new_end
process_new_end-Sound = record {
  runs = λ p. end_of-follows p.is_in_header (p.scope_index == 0) p refl;
}

process_token-Sound : (t : Token) → Sound (process_token t)
unfolding process_token
process_token-Sound t =
    if-Sound (is_id eof t) _ _
      (record {
        runs = λ p. record {
          fewer = omega arith;
          scoped = λ s. record {
            sections_are = s.sections_are;
            header_outside = s.header_outside;
            header_defined = s.header_defined;
          };
        };
      })
      (if-Sound (is_id semicolon t) _ _ (pure-Sound tt) (
        if-Sound (is_id dot t) _ _ process_new_binding-Sound (
          if-Sound (is_id section t) _ _ process_new_section-Sound (
            if-Sound (is_id strbegin t) _ _ process_new_strbegin-Sound (
              if-Sound (is_id header t) _ _ process_new_header-Sound
                (if-Sound (is_id end t) _ _ process_new_end-Sound fail-Sound))))))

process_next_token-Sound : Sound process_next_token
unfolding process_next_token
process_next_token-Sound =
    bind-Sound get_next_token process_token get_next_token-Sound process_token-Sound

-- The states that the parser comes to from the start of some tokens; a statement that fails leaves a
-- state too.
pub data Reached (tokens : List Token) (behind : Behind) : Parser → Type 0 where
  start : Reached tokens behind (new_parser tokens behind)
  step : {p : Parser} → Reached tokens behind p → Reached tokens behind (process_next_token p).1

-- In every state that the parser comes to, a failing statement's included, there are as many sections as
-- scopes, so that `pop_back` is never run on no sections; while it is in the header, there are none, and
-- the header is defined.
pub reached-Scoped :
    {tokens : List Token} {behind : Behind} (p : Parser) → Reached tokens behind p → Scoped p
reached-Scoped _ start = record {
  sections_are = refl;
  header_outside = λ e. refl;
  header_defined = λ e. e;
}
reached-Scoped _ (step {p = p} before) =
    (process_next_token-Sound.runs p).scoped (reached-Scoped p before)

after-ends :
    (rounds : ℕ) (later : Parser → Parsed) (bound : ℕ)
    → ((q : Parser) → length q.tokens ≤ bound → is_answer (later q) ≡ true)
    → (o : Option Unit × Parser) → length o.1.tokens ≤ bound
    → is_answer (after later o) ≡ true
after-ends rounds later bound ends (none, q) h = refl
after-ends rounds later bound ends (some done, q) h = ends q h

finish-ends : (p : Parser) → is_answer (finish p) ≡ true
finish-ends p = elim (Bool-cases (p.scope_index == 0)) [
  | inl closed ↦ elim (Bool-cases p.is_header_defined) [
    | inl defined ↦ rw (closed, defined) refl
    | inr missing ↦ rw (closed, missing) refl
  ]
  | inr some_open ↦ rw some_open refl
]

-- Behind the tokens the parser fails, or it comes to the end of the file and then finishes.
step-ends :
    (rounds : ℕ) (p : Parser) (ts : List Token)
    → length ts < rounds
    → ((q : Parser) → length q.tokens + 1 < rounds → is_answer (parse_loop rounds q) ≡ true)
    → ((q : Parser) → q.is_eof ≡ true → is_answer (parse_loop rounds q) ≡ true)
    → is_answer (after (parse_loop rounds) ((take_token ts >>= process_token) p)) ≡ true
unfolding process_token
step-ends rounds p [] h ends at_end = behind_ends p.behind
  where
    behind_ends :
        (b : Behind)
        → is_answer (
            after
              (parse_loop rounds)
              (elim (token_behind b) [ none ↦ (none, p) | some t ↦ process_token t p ]))
          ≡ true
    behind_ends endless_eof = at_end (record p { is_eof = true }) refl
    behind_ends lexer_error = refl
step-ends rounds p (t ∷ ts) h ends at_end =
    after-ends rounds (parse_loop rounds) (length ts) (λ q k. ends q (omega arith))
      (process_token t (record p { tokens = ts }))
      ((process_token-Sound t).runs (record p { tokens = ts })).fewer

finish_if-ends :
    (ended : Bool) (p : Parser) (rest : Parsed)
    → is_answer rest ≡ true
    → is_answer (finish_if ended p rest) ≡ true
finish_if-ends true p rest h = finish-ends p
finish_if-ends false p rest h = h

at_eof-ends :
    (rounds : ℕ) (p : Parser)
    → 0 < rounds
    → p.is_eof ≡ true
    → is_answer (parse_loop rounds p) ≡ true
unfolding parse_loop
at_eof-ends zero p h e = absurd (omega arith)
at_eof-ends (suc rounds) p h e = rw e (finish-ends p)

parse_loop-ends :
    (rounds : ℕ) (p : Parser)
    → length p.tokens + 1 < rounds
    → is_answer (parse_loop rounds p) ≡ true
unfolding parse_loop process_next_token get_next_token
parse_loop-ends zero p h = absurd (omega arith)
parse_loop-ends (suc rounds) p h = finish_if-ends p.is_eof p _ (
    step-ends rounds p p.tokens (omega arith) (parse_loop-ends rounds)
      (λ q e. at_eof-ends rounds q (omega arith) e))

-- The loop of `parse` ends on any tokens.
pub parse-ends : (tokens : List Token) (behind : Behind) → is_answer (parse tokens behind) ≡ true
unfolding parse
parse-ends tokens behind =
    parse_loop-ends (length tokens + 2) (new_parser tokens behind) (omega arith)
