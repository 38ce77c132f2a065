-- ===== src/Shell/Quoted.antt =====
-- Words in double quotes are the words of the line.
use smc_server_client.Common.{
  ℕ, true, false, List, [], ◌∷◌, ◌++◌, Bytes, ◌==◌, ◌≡◌, refl, sym, ap, ◌∙◌, append-nil,
  append_assoc, Bool-cases, inl, inr,
}
use smc_server_client.Shell.CommandLine.{
  CommandLine, flush_token, process_simple_quotes, process_double_quotes, process_plain,
  process_char, process_line, tokenize,
}

abbrev pub quoted : Bytes → Bytes
quoted word = b'"' ∷ (word ++ (b'"' ∷ b' ' ∷ []))

abbrev pub quoted_line : List Bytes → Bytes
quoted_line [] = []
quoted_line (word ∷ words) = quoted word ++ quoted_line words

abbrev pub NoQuote : Bytes → Type 0
NoQuote [] = Unit
NoQuote (c ∷ cs) = (c == b'"' ≡ false) × NoQuote cs

abbrev pub NoQuotes : List Bytes → Type 0
NoQuotes [] = Unit
NoQuotes (word ∷ words) = NoQuote word × NoQuotes words

-- Between words.
abbrev between : List Bytes → ℕ → CommandLine
between words last = record {
  tokenized_line = words;
  current_item = [];
  is_in_simple_quotes = false;
  is_in_double_quotes = false;
  last = last;
}

-- Inside of a word.
abbrev inside : List Bytes → Bytes → ℕ → CommandLine
inside words item last = record {
  tokenized_line = words;
  current_item = item;
  is_in_simple_quotes = false;
  is_in_double_quotes = true;
  last = last;
}

process_line-append :
    (a b : Bytes) (l : CommandLine) → process_line (a ++ b) l ≡ process_line b (process_line a l)
unfolding process_line
process_line-append [] b l = refl
process_line-append (c ∷ a) b l = process_line-append a b (process_char c l)

opens :
    (words : List Bytes) (last : ℕ)
    → last == b'"' ≡ false
    → process_char b'"' (between words last) ≡ inside words [] b'"'
unfolding process_char process_simple_quotes process_double_quotes flush_token
opens words last fresh = rw fresh refl

stays :
    (words : List Bytes) (item : Bytes) (last c : ℕ)
    → c == b'"' ≡ false
    → process_char c (inside words item last) ≡ inside words (item ++ (c ∷ [])) c
unfolding process_char process_simple_quotes process_double_quotes process_plain
stays words item last c other = elim (Bool-cases (c == 39)) [
  | inl simple ↦ rw (simple, other) refl
  | inr plain ↦ rw (plain, other) refl
]

-- All of a word goes into the item.
stays_in :
    (words : List Bytes) (item word : Bytes) (last : ℕ)
    → NoQuote word
    → (l : ℕ) × (process_line word (inside words item last) ≡ inside words (item ++ word) l)
unfolding process_line
stays_in words item [] last clean = (last, ap (λ t. inside words t last) (sym (append-nil item)))
stays_in words item (c ∷ word) last clean =
    let rest = stays_in words (item ++ (c ∷ [])) word c clean.1 in
    (
      rest.0,
      ap (process_line word) (stays words item last c clean.0)
          ∙ rest.1
          ∙ ap (λ t. inside words t rest.0) (append_assoc item (c ∷ []) word),
    )

-- The last byte of a word without quotes is no quote.
last_plain :
    (words : List Bytes) (item word : Bytes) (c : ℕ)
    → NoQuote (c ∷ word)
    → (last : ℕ)
    → (l : ℕ) × (l == b'"' ≡ false)
      × (process_line (c ∷ word) (inside words item last) ≡ inside words (item ++ (c ∷ word)) l)
unfolding process_line
last_plain words item [] c clean last = (c, clean.0, stays words item last c clean.0)
last_plain words item (d ∷ word) c clean last =
    let rest = last_plain words (item ++ (c ∷ [])) word d clean.1 c in
    (
      rest.0,
      rest.1,
      ap (process_line (d ∷ word)) (stays words item last c clean.0)
          ∙ rest.2
          ∙ ap (λ t. inside words t rest.0) (append_assoc item (c ∷ []) (d ∷ word)),
    )

closes :
    (words : List Bytes) (c : ℕ) (item : Bytes) (last : ℕ)
    → last == b'"' ≡ false
    → process_char b'"' (inside words (c ∷ item) last) ≡ between (words ++ ((c ∷ item) ∷ [])) b'"'
unfolding process_char process_simple_quotes process_double_quotes flush_token
closes words c item last plain = rw plain refl

closes_empty :
    (words : List Bytes)
    → process_char b'"' (inside words [] b'"') ≡ between (words ++ ([] ∷ [])) b'"'
unfolding process_char process_simple_quotes process_double_quotes flush_token
closes_empty words = refl

passes_space : (words : List Bytes) → process_char b' ' (between words b'"') ≡ between words b' '
unfolding process_char process_simple_quotes process_double_quotes process_plain flush_token
passes_space words = refl

reads_word :
    (words : List Bytes) (word : Bytes) (last : ℕ)
    → NoQuote word
    → last == b'"' ≡ false
    → process_line (quoted word) (between words last) ≡ between (words ++ (word ∷ [])) b' '
unfolding process_line
reads_word words [] last clean fresh =
    ap (λ l. process_char b' ' (process_char b'"' l)) (opens words last fresh)
    ∙ ap (process_char b' ') (closes_empty words)
    ∙ passes_space (words ++ ([] ∷ []))
reads_word words (c ∷ word) last clean fresh =
    let filled = last_plain words [] word c clean b'"' in
    ap (process_line ((c ∷ word) ++ (b'"' ∷ b' ' ∷ []))) (opens words last fresh)
    ∙ process_line-append (c ∷ word) (b'"' ∷ b' ' ∷ []) (inside words [] b'"')
    ∙ ap (process_line (b'"' ∷ b' ' ∷ [])) filled.2
    ∙ ap (process_char b' ') (closes words c word filled.0 filled.1)
    ∙ passes_space (words ++ ((c ∷ word) ∷ []))

reads_words :
    (seen words : List Bytes) (last : ℕ)
    → NoQuotes words
    → last == b'"' ≡ false
    → (l : ℕ) × (process_line (quoted_line words) (between seen last) ≡ between (seen ++ words) l)
unfolding process_line
reads_words seen [] last clean fresh = (last, ap (λ t. between t last) (sym (append-nil seen)))
reads_words seen (word ∷ words) last clean fresh =
    let rest = reads_words (seen ++ (word ∷ [])) words b' ' clean.1 refl in
    (
      rest.0,
      process_line-append (quoted word) (quoted_line words) (between seen last)
          ∙ ap (process_line (quoted_line words)) (reads_word seen word last clean.0 fresh)
          ∙ rest.1
          ∙ ap (λ t. between t rest.0) (append_assoc seen (word ∷ []) words),
    )

-- A line of words in double quotes, each followed by a space, is split into just these words, empty
-- words and words with spaces included, if no word has a double quote.
pub tokenize-quoted_line :
    (words : List Bytes) → NoQuotes words → tokenize (quoted_line words) ≡ words
unfolding tokenize flush_token
tokenize-quoted_line words clean =
    ap (λ l. (flush_token l).tokenized_line) (reads_words [] words 0 clean refl).1
