-- ===== src/Server/Names.antt =====
-- Server/src/io/sfs.cpp, `isValidName`, with the tables of Server/include/io/sfs.hpp: the names that a
-- file may be given.
pub mod Separators
use smc_server_client.Common.{
  ℕ, Bool, true, false, not, ◌||◌, List, [], ◌∷◌, ◌++◌, Bytes, codes, text_eq, ◌==◌, if◌then◌else◌,
}
use smc_server_client.Text.{to_lowercase}

-- `"<>:\"/\\|?*"`.
abbrev pub invalid_filename_chars : Bytes
invalid_filename_chars = b'<' ∷ b'>' ∷ b':' ∷ b'"' ∷ b'/' ∷ 92 ∷ b'|' ∷ b'?' ∷ b'*' ∷ []

abbrev pub reserved_file_names : List Bytes
reserved_file_names =
    codes "con"
    ∷ codes "prn"
    ∷ codes "aux"
    ∷ codes "nul"
    ∷ codes "com1"
    ∷ codes "com2"
    ∷ codes "com3"
    ∷ codes "com4"
    ∷ codes "com5"
    ∷ codes "com6"
    ∷ codes "com7"
    ∷ codes "lpt8"
    ∷ codes "lpt9"
    ∷ codes "lpt1"
    ∷ codes "lpt2"
    ∷ codes "lpt3"
    ∷ codes "lpt4"
    ∷ codes "lpt5"
    ∷ codes "lpt6"
    ∷ codes "lpt7"
    ∷ codes "lpt8"
    ∷ codes "lpt9"
    ∷ []

-- `find` of a byte, compared with `npos`.
unfoldable pub contains : ℕ → Bytes → Bool
contains x [] = false
contains x (c ∷ cs) = c == x || contains x cs

unfoldable pub any_invalid : Bytes → Bool
any_invalid [] = false
any_invalid (c ∷ name) = contains c invalid_filename_chars || any_invalid name

-- `name.back()`, of a name that begins with a byte.
abbrev pub back : ℕ → Bytes → ℕ
back c [] = c
back c (d ∷ name) = back d name

-- `rfind(prefix, 0) == 0`.
unfoldable pub starts_with : Bytes → Bytes → Bool
starts_with [] text = true
starts_with (c ∷ prefix) [] = false
starts_with (c ∷ prefix) (d ∷ text) = if c == d then starts_with prefix text else false

unfoldable pub is_reserved : Bytes → List Bytes → Bool
is_reserved lower_name [] = false
is_reserved lower_name (reserved ∷ names) =
    (text_eq lower_name reserved || starts_with (reserved ++ (b'.' ∷ [])) lower_name)
    || is_reserved lower_name names

unfoldable pub is_valid_name : Bytes → Bool
is_valid_name [] = false
is_valid_name (c ∷ name) =
    if any_invalid (c ∷ name) || (back c name == b' ' || back c name == b'.')
    then false
    else not (is_reserved (to_lowercase (c ∷ name)) reserved_file_names)
