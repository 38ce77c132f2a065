-- ===== src/Text.antt =====
-- Shared/src/util/string.cpp and string.ipp, with the parts of the standard library that they and
-- their callers use (`std::to_string`, `std::stoi`).
pub mod Decimal
pub mod Utf8
use smc_server_client.Common.{
  ℕ, zero, suc, ◌+◌, ◌-◌, ◌*◌, ◌/◌, ◌%◌, ◌^◌, Bool, true, false, Option, none, some, List, [], ◌∷◌,
  ◌++◌, Bytes, codes, length, take, drop, ltb, leb, ◌==◌, ◌&&◌, ◌||◌, if◌then◌else◌,
}

-- `std::to_string` of an unsigned number. Every round drops a digit, so a number has fewer digits
-- than `suc value`.
pub decimal : ℕ → ℕ → Bytes
decimal zero value = []
decimal (suc fuel) value =
    let rest = decimal fuel (value / 10) ++ ((48 + value % 10) ∷ []) in
    if ltb value 10 then (48 + value) ∷ [] else rest

unfoldable pub to_string : ℕ → Bytes
unfolding decimal
to_string value = decimal (suc value) value

-- `std::isspace` and `std::isdigit` in the C locale.
abbrev pub is_space : ℕ → Bool
is_space c = c == 32 || (leb 9 c && leb c 13)

abbrev pub is_digit : ℕ → Bool
is_digit c = leb 48 c && leb c 57

-- `std::tolower` in the C locale.
abbrev pub lower : ℕ → ℕ
lower c = if leb 65 c && leb c 90 then c + 32 else c

unfoldable pub to_lowercase : Bytes → Bytes
to_lowercase [] = []
to_lowercase (c ∷ cs) = lower c ∷ to_lowercase cs

-- `makeFilledString`. The counter is a `uint32_t` and the size a `uint64_t`: from 2 ^ 32 characters
-- on the counter wraps and the loop does not end, which is `none` here.
filled_loop : ℕ → ℕ → Bytes → Bytes
filled_loop zero fill_char result = result
filled_loop (suc rounds) fill_char result =
    filled_loop rounds fill_char (result ++ (fill_char ∷ []))

unfoldable pub make_filled_string : ℕ → ℕ → Option Bytes
unfolding filled_loop
make_filled_string size fill_char =
    if ltb size (2 ^ 32) then some (filled_loop size fill_char []) else none

-- `{:02}` pads with zeros to two characters.
abbrev pad2 : ℕ → Bytes
pad2 n = if ltb n 10 then 48 ∷ to_string n else to_string n

unfoldable pub seconds_to_dhms : ℕ → Bytes
seconds_to_dhms secs =
    let days = secs / 86400 in
    let secs' = secs % 86400 in
    let hours = secs' / 3600 in
    let secs'' = secs' % 3600 in
    to_string days
    ++ (58 ∷ (pad2 hours ++ (58 ∷ (pad2 (secs'' / 60) ++ (58 ∷ pad2 (secs'' % 60))))))

-- How many bytes `utf8Length` passes for a first byte.
unfoldable pub utf8_step : ℕ → ℕ
utf8_step c =
    if ltb c 128
    then 1
    else if leb 192 c && ltb c 224
    then 2
    else if leb 224 c && ltb c 240
    then 3
    else if leb 240 c && ltb c 248
    then 4
    else 1

-- The loop over the bytes at and behind index `i`; every round passes a byte at least.
unfoldable pub utf8_loop : ℕ → Bytes → ℕ → ℕ
utf8_loop zero rest count = count
utf8_loop (suc fuel) [] count = count
utf8_loop (suc fuel) (c ∷ rest) count = utf8_loop fuel (drop (utf8_step c) (c ∷ rest)) (count + 1)

unfoldable pub utf8_length : Bytes → ℕ
unfolding utf8_loop utf8_step
utf8_length str = utf8_loop (length str) str 0

-- The index of the first zero among the first `size` bytes, or `size`.
unfoldable pub zero_offset : ℕ → Bytes → ℕ
zero_offset zero array = 0
zero_offset (suc size) [] = suc size
zero_offset (suc size) (c ∷ array) =
    let later = suc (zero_offset size array) in if c == 0 then 0 else later

unfoldable pub get_string_from_array : Bytes → ℕ → Bytes
unfolding zero_offset
get_string_from_array array size = take (zero_offset size array) array

-- The loop of `findOccurences` from index `i` on.
unfoldable pub find_loop : ℕ → ℕ → Bytes → List ℕ
find_loop i chr_to_find [] = []
find_loop i chr_to_find (c ∷ str) =
    let later = find_loop (i + 1) chr_to_find str in if c == chr_to_find then i ∷ later else later

unfoldable pub find_occurences : Bytes → ℕ → List ℕ
unfolding find_loop
find_occurences str chr_to_find = find_loop 0 chr_to_find str

-- `std::string::substr` for a position within the string.
abbrev pub substr : Bytes → ℕ → ℕ → Bytes
substr str position count = take count (drop position str)

-- `std::stoi`: blanks, a sign, and the longest row of digits. The value is a sign, true for minus,
-- and a magnitude; `none` is an exception (no digit, or outside of `int`).
unfoldable pub read_digits : ℕ → Bytes → ℕ
read_digits acc [] = acc
read_digits acc (c ∷ cs) =
    let rest = read_digits (acc * 10 + (c - 48)) cs in if is_digit c then rest else acc

unfoldable pub read_magnitude : Bool → Bytes → Option (Bool × ℕ)
read_magnitude negative [] = none
read_magnitude negative (c ∷ cs) =
    if is_digit c
    then (let magnitude = read_digits 0 (c ∷ cs) in
        if ltb (if negative then 2 ^ 31 else 2 ^ 31 - 1) magnitude
        then none
        else some (negative, magnitude))
    else none

unfoldable pub stoi_int : Bytes → Option (Bool × ℕ)
unfolding read_magnitude read_digits
stoi_int [] = none
stoi_int (c ∷ cs) =
    let later = stoi_int cs in
    if is_space c
    then later
    else if c == 45
    then read_magnitude true cs
    else if c == 43
    then read_magnitude false cs
    else read_magnitude false (c ∷ cs)

-- `util::string::stoi<T>` for an unsigned `T` of the given range: the conversion wraps.
unfoldable pub stoi : ℕ → Bytes → Option ℕ
stoi range str = elim (stoi_int str) [
  | none ↦ none
  | some (true, magnitude) ↦ some ((range - magnitude % range) % range)
  | some (false, magnitude) ↦ some (magnitude % range)
]
