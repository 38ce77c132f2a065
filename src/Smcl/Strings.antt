-- ===== src/Smcl/Strings.antt =====
-- A string that is written with escapes is read as it was.
use smc_server_client.Common.{
  ℕ, false, [], ◌∷◌, ◌++◌, Bytes, ◌==◌, if◌then◌else◌, ◌≡◌, refl, sym, ap, ◌∙◌, append-nil,
  append_assoc, Bool-cases, inl, inr, ==_iff,
}
use smc_server_client.Smcl.Lexer.{
  string, text, token, lexed, skip_spaces, simple_token, get_escape_char, string_loop, build_token,
  next_token,
}

-- A byte of a string between quotes: a backslash and a quote need an escape, the other bytes stand for
-- themselves.
abbrev pub written : ℕ → Bytes
written c = if c == 92 then 92 ∷ 92 ∷ [] else if c == b'"' then 92 ∷ b'"' ∷ [] else c ∷ []

abbrev pub written_all : Bytes → Bytes
written_all [] = []
written_all (c ∷ str) = written c ++ written_all str

reads_byte :
    (seen : Bytes) (c : ℕ) (later : Bytes)
    → string_loop false seen (written c ++ later) ≡ string_loop false (seen ++ (c ∷ [])) later
unfolding string_loop get_escape_char
reads_byte seen c later = elim (Bool-cases (c == 92)) [
  | inl slash ↦
      rw slash (ap (λ x. string_loop false (seen ++ (x ∷ [])) later) (sym ((==_iff c 92).0 slash)))
  | inr other ↦ elim (Bool-cases (c == b'"')) [
    | inl quote ↦
        rw (other, quote)
          (ap (λ x. string_loop false (seen ++ (x ∷ [])) later) (sym ((==_iff c b'"').0 quote)))
    | inr plain ↦ rw (other, plain) (rw (other, plain) refl)
  ]
]

reads_all :
    (seen str rest : Bytes)
    → string_loop false seen (written_all str ++ (b'"' ∷ rest))
      ≡ lexed (token string (text (seen ++ str))) rest
unfolding string_loop
reads_all seen [] rest = ap (λ s. lexed (token string (text s)) rest) (sym (append-nil seen))
reads_all seen (c ∷ str) rest =
    ap (string_loop false seen) (append_assoc (written c) (written_all str) (b'"' ∷ rest))
    ∙ reads_byte seen c (written_all str ++ (b'"' ∷ rest))
    ∙ reads_all (seen ++ (c ∷ [])) str rest
    ∙ ap (λ s. lexed (token string (text s)) rest) (append_assoc seen (c ∷ []) str)

-- Any string, written between quotes with its backslashes and quotes escaped, is read as one token that
-- holds the string, and the lexer then stands behind the closing quote.
pub next_token-written_all :
    (str rest : Bytes)
    → next_token (b'"' ∷ (written_all str ++ (b'"' ∷ rest))) ≡ lexed (token string (text str)) rest
unfolding next_token skip_spaces build_token simple_token
next_token-written_all str rest = reads_all [] str rest
