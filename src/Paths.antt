-- ===== src/Paths.antt =====
-- What the programs use of `std::filesystem::path`, in the form that Windows gives it. A path is what
-- its iterator shows: the root name, the root directory, and the file names, of which the last is
-- empty behind a separator at the end. How often a separator is repeated, and which of `/` and `\` it
-- is, is not kept.
pub mod Normal
use smc_server_client.Common.{
  ℕ, zero, suc, Bool, true, false, not, ◌&&◌, ◌||◌, List, [], ◌∷◌, ◌++◌, Bytes, length, take, drop,
  text_eq, leb, ◌==◌, if◌then◌else◌,
}

pub record FilePath : Type 0 where
  pub root_name : Bytes
  pub has_root : Bool
  pub elements : List Bytes

abbrev pub no_path : FilePath
no_path = record { root_name = []; has_root = false; elements = [] }

abbrev pub is_separator : ℕ → Bool
is_separator c = c == b'/' || c == 92

abbrev pub is_letter : ℕ → Bool
is_letter c = (leb b'a' c && leb c b'z') || (leb b'A' c && leb c b'Z')

abbrev pub is_empty {ℓ} : {A : Type ℓ} → List A → Bool
is_empty [] = true
is_empty (x ∷ xs) = false

abbrev pub starts_with_separator : Bytes → Bool
starts_with_separator [] = false
starts_with_separator (c ∷ text) = is_separator c

-- The bytes before the first separator.
unfoldable pub name_size : Bytes → ℕ
name_size [] = 0
name_size (c ∷ text) = let rest = suc (name_size text) in if is_separator c then 0 else rest

-- The size of a root name that begins with a separator: `\??` before a separator, or `\\server`.
unfoldable pub server_size : Bytes → ℕ
unfolding name_size
server_size (c ∷ d ∷ text) =
    if (c == b'?' && d == b'?') && starts_with_separator text
    then 3
    else if is_separator c && not (is_separator d)
    then suc (suc (name_size (d ∷ text)))
    else 0
server_size _ = 0

unfoldable pub root_name_size : Bytes → ℕ
unfolding server_size
root_name_size (c ∷ d ∷ text) =
    if is_letter c && d == b':' then 2 else if is_separator c then server_size (d ∷ text) else 0
root_name_size _ = 0

-- The file names of a text that is behind the root, `name` being read; a separator ends a name, and
-- further ones are passed.
unfoldable pub split_names : Bool → Bytes → Bytes → List Bytes
split_names after_separator name [] = name ∷ []
split_names after_separator name (c ∷ text) =
    let next = name ∷ split_names true [] text in
    let pass = split_names true [] text in
    let more = split_names false (name ++ (c ∷ [])) text in
    if is_separator c then (if after_separator then pass else next) else more

unfoldable pub skip_separators : Bytes → Bytes
skip_separators [] = []
skip_separators (c ∷ text) = if is_separator c then skip_separators text else c ∷ text

abbrev pub names_of : Bytes → List Bytes
names_of [] = []
names_of (c ∷ text) = split_names false [] (c ∷ text)

-- The constructor from a text.
unfoldable pub path_of : Bytes → FilePath
unfolding root_name_size split_names skip_separators
path_of text =
    let rest = drop (root_name_size text) text in
    record {
      root_name = take (root_name_size text) text;
      has_root = starts_with_separator rest;
      elements = names_of (skip_separators rest);
    }

-- The names with separators between them.
unfoldable pub join_names : ℕ → List Bytes → Bytes
join_names separator [] = []
join_names separator (name ∷ []) = name
join_names separator (name ∷ next ∷ names) =
    name ++ (separator ∷ join_names separator (next ∷ names))

abbrev pub root_text : ℕ → Bool → Bytes
root_text separator true = separator ∷ []
root_text separator false = []

abbrev pub generic_name : Bytes → Bytes
generic_name [] = []
generic_name (c ∷ name) = (if c == 92 then b'/' else c) ∷ generic_name name

unfoldable pub generic_string : FilePath → Bytes
unfolding join_names
generic_string p =
    generic_name p.root_name ++ (root_text b'/' p.has_root ++ join_names b'/' p.elements)

-- `string`, where every separator is the preferred one.
unfoldable pub string : FilePath → Bytes
unfolding join_names
string p = p.root_name ++ (root_text 92 p.has_root ++ join_names 92 p.elements)

unfoldable pub is_absolute : FilePath → Bool
is_absolute p = if length p.root_name == 2 then p.has_root else not (is_empty p.root_name)

-- The names of a path that another is appended to.
unfoldable pub append_names : List Bytes → List Bytes → List Bytes
append_names [] names = names
append_names (last ∷ []) names =
    let end = if is_empty names then [] ∷ [] else names in if is_empty last then end else last ∷ end
append_names (name ∷ next ∷ front) names = name ∷ append_names (next ∷ front) names

infixl 70 ◌/path◌
unfoldable pub ◌/path◌ : FilePath → FilePath → FilePath
unfolding is_absolute append_names
p /path q =
    if is_absolute q || (not (is_empty q.root_name) && not (text_eq p.root_name q.root_name))
    then q
    else if q.has_root
    then record q { root_name = p.root_name }
    else record p {
      has_root = p.has_root || is_absolute p;
      elements = append_names p.elements q.elements;
    }

abbrev pub front {ℓ} : {A : Type ℓ} → List A → List A
front [] = []
front (x ∷ []) = []
front (x ∷ y ∷ xs) = x ∷ front (y ∷ xs)

abbrev pub last_name : List Bytes → Bytes
last_name [] = []
last_name (x ∷ []) = x
last_name (x ∷ y ∷ xs) = last_name (y ∷ xs)

abbrev pub parent_path : FilePath → FilePath
parent_path p = record p { elements = front p.elements }

abbrev pub filename : FilePath → Bytes
filename p = last_name p.elements

-- A path that is one file name.
abbrev pub name_path : Bytes → FilePath
name_path name = record no_path { elements = if is_empty name then [] else name ∷ [] }

-- What the iterator shows: the root name, the root directory, the file names.
unfoldable pub iterate : FilePath → List Bytes
iterate p =
    (if is_empty p.root_name then [] else p.root_name ∷ [])
    ++ ((if p.has_root then (b'/' ∷ []) ∷ [] else []) ++ p.elements)

unfoldable pub names_eq : List Bytes → List Bytes → Bool
names_eq [] [] = true
names_eq (x ∷ xs) (y ∷ ys) = text_eq x y && names_eq xs ys
names_eq _ _ = false

abbrev pub bool_eq : Bool → Bool → Bool
bool_eq true b = b
bool_eq false b = not b

unfoldable pub path_eq : FilePath → FilePath → Bool
unfolding names_eq
path_eq p q =
    text_eq p.root_name q.root_name
    && (bool_eq p.has_root q.has_root && names_eq p.elements q.elements)

-- `lexically_normal`: `stack` has the names so far, the last one first, and `at_separator` says that a
-- separator follows them.
abbrev pub dot_dot : Bytes
dot_dot = b'.' ∷ b'.' ∷ []

abbrev pub keeps_up : List Bytes → Bool
keeps_up [] = true
keeps_up (name ∷ stack) = text_eq name dot_dot

abbrev pub tail : List Bytes → List Bytes
tail [] = []
tail (name ∷ stack) = stack

unfoldable pub normal_names : Bool → List Bytes → Bool → List Bytes → List Bytes × Bool
normal_names has_root stack at_separator [] = (stack, at_separator)
normal_names has_root stack at_separator (name ∷ names) =
    let stay = normal_names has_root stack true names in
    let up = normal_names has_root (tail stack) true names in
    let skip = normal_names has_root stack at_separator names in
    let push = normal_names has_root (name ∷ stack) false names in
    if is_empty name || text_eq name (b'.' ∷ [])
    then stay
    else if not (text_eq name dot_dot)
    then push
    else if not (keeps_up stack)
    then up
    else if has_root && is_empty stack
    then skip
    else push

unfoldable pub onto : List Bytes → List Bytes → List Bytes
onto [] names = names
onto (name ∷ stack) names = onto stack (name ∷ names)

abbrev pub or_dot : FilePath → FilePath
or_dot p =
    if is_empty p.elements && (is_empty p.root_name && not p.has_root)
    then record p { elements = (b'.' ∷ []) ∷ [] }
    else p

abbrev pub closed_names : List Bytes × Bool → List Bytes
closed_names (stack, at_separator) =
    onto stack (if at_separator && not (keeps_up stack) then [] ∷ [] else [])

abbrev pub has_names : FilePath → Bool
has_names p = not (is_empty p.elements) || (not (is_empty p.root_name) || p.has_root)

unfoldable pub lexically_normal : FilePath → FilePath
unfolding normal_names onto
lexically_normal p =
    if has_names p
    then or_dot (record p { elements = closed_names (normal_names p.has_root [] false p.elements) })
    else p
