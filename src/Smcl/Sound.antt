-- ===== src/Smcl/Sound.antt =====
-- What every step of the parser keeps: its scopes are those of the sections, and it takes tokens only
-- from the front.
use smc_server_client.Common.{
  ◌≤◌, Bool, true, false, Option, none, some, List, [], ◌∷◌, ◌++◌, Bytes, length, if◌then◌else◌,
  Fallible, ◌>>=◌, pure, fail, continue, bind-continue, ◌≡◌, arith,
}
use smc_server_client.Smcl.Lexer.{TokenId, Token}
use smc_server_client.Smcl.Parser.{
  Parser, is_id, content_to_string, take_token, get_next_token, require, update, expects_token,
  identifier_loop, string_value_loop,
}
use smc_server_client.Smcl.Steps.{list_value_loop}

-- There are as many sections as scopes, and none in the header, which is then defined.
pub record Scoped (p : Parser) : Type 0 where
  pub sections_are : length p.curr_sections ≡ p.scope_index
  pub header_outside : p.is_in_header ≡ true → p.scope_index ≡ 0
  pub header_defined : p.is_in_header ≡ true → p.is_header_defined ≡ true

pub record Follows (p q : Parser) : Type 0 where
  pub fewer : length q.tokens ≤ length p.tokens
  pub scoped : Scoped p → Scoped q

pub record Sound {A : Type 0} (m : Fallible Parser A) : Type 0 where
  pub runs : (p : Parser) → Follows p (m p).1

pub follows-refl : (p : Parser) → Follows p p
follows-refl p = record { fewer = omega arith; scoped = λ s. s }

pub follows-trans : (p q r : Parser) → Follows p q → Follows q r → Follows p r
follows-trans p q r a b = record {
  fewer = omega (arith, a.fewer, b.fewer);
  scoped = λ s. b.scoped (a.scoped s);
}

-- A parser that has fewer tokens and is otherwise the same in what `Scoped` looks at.
pub follows-tokens :
    (p : Parser) (ts : List Token)
    → length ts ≤ length p.tokens
    → Follows p (record p { tokens = ts })
follows-tokens p ts h = record {
  fewer = h;
  scoped = λ s. record {
    sections_are = s.sections_are;
    header_outside = s.header_outside;
    header_defined = s.header_defined;
  };
}

module _ {A B : Type 0} where
  continues :
      (p : Parser) (f : A → Fallible Parser B)
      → ((v : A) → Sound (f v))
      → (t : Option A × Parser) → Follows p t.1
      → Follows p (continue f t).1
  continues p f g (none, q) h = h
  continues p f g (some v, q) h = follows-trans p q (f v q).1 h ((g v).runs q)

  pub bind-Sound :
      (m : Fallible Parser A) (f : A → Fallible Parser B)
      → Sound m
      → ((v : A) → Sound (f v))
      → Sound (m >>= f)
  bind-Sound m f h g = record {
    runs = λ p. rw (bind-continue m f p) (continues p f g (m p) (h.runs p));
  }

pub pure-Sound : {A : Type 0} (v : A) → Sound (pure v)
pure-Sound v = record { runs = follows-refl }

pub fail-Sound : {A : Type 0} → Sound (fail {S = Parser} {A = A})
fail-Sound = record { runs = follows-refl }

pub require-Sound : (test : Bool) → Sound (require test)
require-Sound test = record { runs = follows-refl }

pub update-Sound : (f : Parser → Parser) → ((p : Parser) → Follows p (f p)) → Sound (update f)
update-Sound f h = record { runs = h }

pub if-Sound :
    {A : Type 0} (test : Bool) (m n : Fallible Parser A)
    → Sound m
    → Sound n
    → Sound (if test then m else n)
if-Sound true m n h k = h
if-Sound false m n h k = k

taken : (p : Parser) (ts : List Token) → length ts ≤ length p.tokens → Follows p (take_token ts p).1
taken p [] h = follows-refl p
taken p (t ∷ ts) h = follows-tokens p ts (omega arith)

pub get_next_token-Sound : Sound get_next_token
unfolding get_next_token
get_next_token-Sound = record { runs = λ p. taken p p.tokens (omega arith) }

pub expects_token-Sound : (id : TokenId) → Sound (expects_token id)
unfolding expects_token
expects_token-Sound id =
    bind-Sound get_next_token (λ t. require (is_id id t) >>= λ _. pure t) get_next_token-Sound
      (λ t.
        bind-Sound (require (is_id id t)) (λ _. pure t) (require-Sound (is_id id t))
          (λ _. pure-Sound t))

pub fewer-identifier_loop :
    (end_token : TokenId) (name : Bytes) (started point : Bool) (ts : List Token)
    → length (identifier_loop end_token name started point ts).1 ≤ length ts
unfolding identifier_loop
fewer-identifier_loop end_token name started point [] = omega arith
fewer-identifier_loop end_token name started point (t ∷ ts) =
    let dotted = fewer-identifier_loop end_token (name ++ (b'.' ∷ [])) started true ts in
    let more = fewer-identifier_loop end_token (name ++ content_to_string t) true false ts in
    ground arith

pub fewer-string_value_loop :
    (ids : List TokenId) (value : Bytes) (some_string : Bool) (ts : List Token)
    → length (string_value_loop ids value some_string ts).1 ≤ length ts
unfolding string_value_loop
fewer-string_value_loop ids value some_string [] = omega arith
fewer-string_value_loop ids value some_string (t ∷ ts) =
    let more = fewer-string_value_loop ids (value ++ content_to_string t) true ts in ground arith

pub fewer-list_value_loop :
    (begins value : Bytes) (some_string : Bool) (list : List Bytes) (ts : List Token)
    → length (list_value_loop begins value some_string list ts).1 ≤ length ts
unfolding list_value_loop
fewer-list_value_loop begins value some_string list [] = omega arith
fewer-list_value_loop begins value some_string list (t ∷ ts) =
    let more = fewer-list_value_loop begins (value ++ content_to_string t) true list ts in
    let next = fewer-list_value_loop begins begins false (list ++ (value ∷ [])) ts in ground arith
