-- ===== src/Wire.antt =====
-- Shared/src/network/array_editor.cpp and array_editor.ipp: the cursor over a received message
-- (`ArrayAnalyzer`) and the growing message (`ArrayBuilder`). A width is `sizeof(T)` of an unsigned
-- type `T`; the protocol's types are all unsigned.
pub mod Digits
pub mod Analyze
pub mod RoundTrip
pub mod PathFields
use smc_server_client.Common.{
  ℕ, zero, suc, ◌+◌, ◌-◌, ◌*◌, ◌/◌, ◌%◌, ◌^◌, Bool, true, false, Option, none, some, List, [], ◌∷◌,
  ◌++◌, Bytes, codes, length, get_or, take, ltb, ◌==◌, not, if◌then◌else◌, Fallible, ◌>>=◌, pure,
}
use smc_server_client.Text.{to_string}

-- `std::numeric_limits<T>::max() + 1`.
abbrev pub int_range : ℕ → ℕ
int_range width = 2 ^ (8 * width)

abbrev pub size_range : ℕ
size_range = 2 ^ 64

-- `a - b` on `size_t`.
abbrev pub sub_size : ℕ → ℕ → ℕ
sub_size a b = (a + size_range - b) % size_range

pub record Analyzer : Type 0 where
  pub bytes : Bytes
  pub cursor : ℕ
  pub last_error : Bytes

abbrev pub new_analyzer : Analyzer
new_analyzer = record { bytes = []; cursor = 0; last_error = [] }

-- An extraction reports failure by `none`, and keeps what it did to the analyzer before.
abbrev pub Extract : Type 0 → Type 0
Extract = Fallible Analyzer

unfoldable pub set_data : Bytes → Analyzer → Analyzer
set_data bytes a = record a { bytes = bytes; cursor = 0 }

unfoldable pub clear_error : Analyzer → Analyzer
clear_error a = record a { last_error = [] }

unfoldable pub is_error : Analyzer → Bool
is_error a = elim a.last_error [ [] ↦ false | _ ∷ _ ↦ true ]

unfoldable pub set_size_error : Bytes → ℕ → Analyzer → Analyzer
set_size_error extract_target size_required a = record a {
  last_error =
      codes "error while extracting "
      ++ (extract_target
          ++ (codes ": needed "
              ++ (to_string (a.cursor + size_required)
                  ++ (codes " bytes, got " ++ (to_string (length a.bytes) ++ codes " bytes")))));
}

-- The loop of `extractInt` at round `i`. The bits of the rounds are disjoint, so `|=` adds them.
unfoldable pub extract_loop : ℕ → ℕ → Bytes → ℕ → ℕ → ℕ
extract_loop zero i bytes cursor value = value
extract_loop (suc rounds) i bytes cursor value =
    extract_loop rounds (i + 1) bytes cursor (value + get_or bytes (cursor + i) 0 * 2 ^ (i * 8))

unfoldable pub extract_int : ℕ → Extract ℕ
unfolding extract_loop
extract_int width a =
    if ltb (sub_size (length a.bytes) a.cursor) width
    then (none, set_size_error (codes "int") width a)
    else (some (extract_loop width 0 a.bytes a.cursor 0), record a { cursor = a.cursor + width })

-- `output[i] = data[cursor + i]` for `size` rounds.
unfoldable pub copy_loop : ℕ → ℕ → Bytes → ℕ → Bytes
copy_loop zero i bytes cursor = []
copy_loop (suc rounds) i bytes cursor =
    get_or bytes (cursor + i) 0 ∷ copy_loop rounds (i + 1) bytes cursor

unfoldable pub take_buffer : ℕ → Extract Bytes
unfolding copy_loop
take_buffer size a =
    if ltb (sub_size (length a.bytes) a.cursor) size
    then (none, set_size_error (codes "buffer") size a)
    else (some (copy_loop size 0 a.bytes a.cursor), record a { cursor = a.cursor + size })

unfoldable pub extract_buffer : ℕ → Extract Bytes
extract_buffer width = do size ← extract_int width; take_buffer size

-- `extractString`: a string is its bytes.
unfoldable pub extract_string : ℕ → Extract Bytes
extract_string width = do buffer ← extract_buffer width; pure buffer

unfoldable pub extract_bool : Extract Bool
extract_bool = do byte ← extract_int 1; pure (not (byte == 0))

-- One byte of `insertInt`: `(value >> (i * 8)) & 0xFF`.
abbrev pub byte_at : ℕ → ℕ → ℕ
byte_at value i = value / 2 ^ (i * 8) % 256

unfoldable pub insert_loop : ℕ → ℕ → ℕ → Bytes
insert_loop zero i value = []
insert_loop (suc rounds) i value = byte_at value i ∷ insert_loop rounds (i + 1) value

-- The builder is its `data`.
unfoldable pub insert_int : ℕ → ℕ → Bytes → Bytes
unfolding insert_loop
insert_int width value bytes = bytes ++ insert_loop width 0 value

-- The size that is written, and the part of the buffer that is copied, are truncated alike.
unfoldable pub insert_buffer : ℕ → Bytes → Bytes → Bytes
insert_buffer width buffer bytes =
    let max_size = int_range width - 1 in
    let buffer_size = if ltb max_size (length buffer) then max_size else length buffer in
    insert_int width (buffer_size % int_range width) bytes ++ take buffer_size buffer

unfoldable pub insert_string : ℕ → Bytes → Bytes → Bytes
insert_string width str = insert_buffer width str

unfoldable pub insert_bool : Bool → Bytes → Bytes
insert_bool value = insert_int 1 (if value then 1 else 0)
