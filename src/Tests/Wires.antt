-- ===== src/Tests/Wires.antt =====
-- Messages, versions and codes.
use smc_server_client.Common.{
  ℕ, ◌<◌, ◌↔◌, ◌⊎◌, true, some, List, [], ◌∷◌, codes, length, map, ◌≡◌, arith,
}
use smc_server_client.Wire.{
  Analyzer, size_range, insert_int, insert_bool, insert_buffer, insert_loop, new_analyzer, set_data,
}
use smc_server_client.Wire.Analyze.{IsValid}
use smc_server_client.Wire.RoundTrip.{
  Field, int_field, bool_field, buffer_field, shape, insert_all, extract_all,
  extract_all-insert_all,
}
use smc_server_client.Text.{utf8_length}
use smc_server_client.Text.Utf8.{utf8_text, utf8_length-text}
use smc_server_client.Version.{Version, IsVersion, version, version_text, combine, set_from_string}
use smc_server_client.Version.Order.{combine_lt}
use smc_server_client.Version.RoundTrip.{set_from_string-version_text}

abbrev row : List Field
row = int_field 2 513 ∷ bool_field true ∷ buffer_field 1 (codes "abc") ∷ []

row_fits : length (insert_all row []) < size_range
unfolding insert_int insert_bool insert_buffer insert_loop
row_fits = omega arith

extract_all-insert_all_example :
    extract_all (map shape row) (set_data (insert_all row []) new_analyzer) ≡ (
      some row,
      record { bytes = insert_all row []; cursor = length (insert_all row []); last_error = [] },
    )
extract_all-insert_all_example =
    extract_all-insert_all row (omega arith, (tt, (omega arith, tt))) row_fits

-- A size of three with two bytes behind it.
abbrev short_message : Analyzer
short_message = record { bytes = 3 ∷ codes "ab"; cursor = 0; last_error = [] }

short_message-IsValid : IsValid short_message
short_message-IsValid = record { within = omega arith; in_memory = omega arith }

abbrev old : Version
old = version 1 12 7

abbrev recent : Version
recent = version 2 0 0

old-IsVersion : IsVersion old
old-IsVersion = record { major_lt = omega arith; minor_lt = omega arith; patch_lt = omega arith }

recent-IsVersion : IsVersion recent
recent-IsVersion = record { major_lt = omega arith; minor_lt = omega arith; patch_lt = omega arith }

combine_lt_example : (combine old < combine recent) ↔ (
    (old.major < recent.major)
    ⊎ ((old.major ≡ recent.major)
        × ((old.minor < recent.minor) ⊎ ((old.minor ≡ recent.minor) × (old.patch < recent.patch)))))
combine_lt_example = combine_lt old recent old-IsVersion recent-IsVersion

set_from_string-version_text_example : set_from_string (version_text b'.' old) recent ≡ (true, old)
set_from_string-version_text_example = set_from_string-version_text old recent old-IsVersion

-- A letter of one byte, an accented one of two, the sign of the euro of three, a face of four.
abbrev letters : List ℕ
letters = 97 ∷ 233 ∷ 8364 ∷ 128512 ∷ []

utf8_length-text_example : utf8_length (utf8_text letters) ≡ 4
utf8_length-text_example =
    utf8_length-text letters (omega arith, (omega arith, (omega arith, (omega arith, tt))))
