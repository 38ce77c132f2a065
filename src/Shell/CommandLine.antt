-- ===== src/Shell/CommandLine.antt =====
-- src/shell/command_line.cpp: a line in words, some of them in quotes.
use smc_server_client.Common.{
  ℕ, Bool, true, false, not, ◌||◌, List, [], ◌∷◌, ◌++◌, Bytes, ◌==◌, if◌then◌else◌,
}
use smc_server_client.Text.{is_space}

pub record CommandLine : Type 0 where
  pub tokenized_line : List Bytes
  pub current_item : Bytes
  pub is_in_simple_quotes : Bool
  pub is_in_double_quotes : Bool
  pub last : ℕ

abbrev pub new_line : CommandLine
new_line = record {
  tokenized_line = [];
  current_item = [];
  is_in_simple_quotes = false;
  is_in_double_quotes = false;
  last = 0;
}

abbrev pub push_token : Bytes → CommandLine → CommandLine
push_token item l = record l { tokenized_line = l.tokenized_line ++ (item ∷ []) }

unfoldable pub flush_token : CommandLine → CommandLine
flush_token l = elim l.current_item [
  | [] ↦ l
  | c ∷ item ↦ record (push_token (c ∷ item) l) { current_item = [] }
]

-- What a quote does when its kind of quotes was toggled.
abbrev pub end_item : ℕ → CommandLine → CommandLine
end_item quote l = if l.last == quote then push_token [] l else flush_token l

unfoldable pub process_simple_quotes : ℕ → CommandLine → Bool × CommandLine
process_simple_quotes c l =
    if not (c == 39) || l.is_in_double_quotes
    then (false, l)
    else (true, end_item 39 (record l { is_in_simple_quotes = not l.is_in_simple_quotes }))

unfoldable pub process_double_quotes : ℕ → CommandLine → Bool × CommandLine
process_double_quotes c l =
    if not (c == b'"') || l.is_in_simple_quotes
    then (false, l)
    else (true, end_item b'"' (record l { is_in_double_quotes = not l.is_in_double_quotes }))

unfoldable pub process_plain : ℕ → CommandLine → CommandLine
process_plain c l =
    if l.is_in_simple_quotes || (l.is_in_double_quotes || not (is_space c))
    then record l { current_item = l.current_item ++ (c ∷ []) }
    else flush_token l

abbrev pub process_unless : Bool × CommandLine → (CommandLine → CommandLine) → CommandLine
process_unless (true, l) f = l
process_unless (false, l) f = f l

unfoldable pub process_char : ℕ → CommandLine → CommandLine
process_char c l =
    let processed =
      process_unless (process_simple_quotes c l)
        (λ l'. process_unless (process_double_quotes c l') (process_plain c)) in
    record processed { last = c }

unfoldable pub process_line : Bytes → CommandLine → CommandLine
process_line [] l = l
process_line (c ∷ cs) l = process_line cs (process_char c l)

unfoldable pub tokenize : Bytes → List Bytes
tokenize raw_line = (flush_token (process_line raw_line new_line)).tokenized_line
