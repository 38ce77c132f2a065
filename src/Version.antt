-- ===== src/Version.antt =====
-- Shared/src/util/version.cpp: a version, its packed form on the wire, its text.
pub mod Order
pub mod RoundTrip
use smc_server_client.Common.{
  ℕ, ◌+◌, ◌*◌, ◌/◌, ◌%◌, ◌^◌, ◌<◌, Bool, true, false, Option, none, some, List, [], ◌∷◌, ◌++◌,
  Bytes, length,
}
use smc_server_client.Text.{to_string, find_occurences, substr, stoi}

pub record Version : Type 0 where
  pub major : ℕ
  pub minor : ℕ
  pub patch : ℕ

-- The fields are `uint16_t`.
pub record IsVersion (v : Version) : Type 0 where
  pub major_lt : v.major < 2 ^ 16
  pub minor_lt : v.minor < 2 ^ 16
  pub patch_lt : v.patch < 2 ^ 16

abbrev pub version : ℕ → ℕ → ℕ → Version
version major minor patch = record { major = major; minor = minor; patch = patch }

-- `toString`, with any delimiter.
unfoldable pub version_text : ℕ → Version → Bytes
version_text delim v =
    to_string v.major ++ (delim ∷ (to_string v.minor ++ (delim ∷ to_string v.patch)))

-- The three parts have no bit in common, so `|` adds them.
unfoldable pub combine : Version → ℕ
combine v = v.major * 2 ^ 32 + v.minor * 2 ^ 16 + v.patch

unfoldable pub set_from_combined : ℕ → Version
set_from_combined combined = record {
  major = combined / 2 ^ 32 % 2 ^ 16;
  minor = combined / 2 ^ 16 % 2 ^ 16;
  patch = combined % 2 ^ 16;
}

-- The parts are set one after the other, until one is no number.
pub set_patch : Option ℕ → Version → Bool × Version
set_patch none v = (false, v)
set_patch (some n) v = (true, record v { patch = n })

pub set_minor : Option ℕ → Option ℕ → Version → Bool × Version
unfolding set_patch
set_minor none patch v = (false, v)
set_minor (some n) patch v = set_patch patch (record v { minor = n })

pub set_major : Option ℕ → Option ℕ → Option ℕ → Version → Bool × Version
unfolding set_minor
set_major none minor patch v = (false, v)
set_major (some n) minor patch v = set_minor minor patch (record v { major = n })

pub set_at : List ℕ → Bytes → Version → Bool × Version
unfolding set_major
set_at (first ∷ second ∷ []) str v =
    set_major (stoi (2 ^ 16) (substr str 0 first)) (stoi (2 ^ 16) (substr str (first + 1) second))
      (stoi (2 ^ 16) (substr str (second + 1) (length str))) v
set_at _ str v = (false, v)

unfoldable pub set_from_string : Bytes → Version → Bool × Version
unfolding set_at
set_from_string str v = set_at (find_occurences str b'.') str v
