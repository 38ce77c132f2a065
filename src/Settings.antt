-- ===== src/Settings.antt =====
-- `boost::property_tree::ptree` with its INI files, as both programs use it for their configuration.
-- A `none` is the `ptree_error` that the library throws.
use smc_server_client.Common.{ℕ, Bool, Option, some, Bytes, text_eq, false, ◌≡◌}

pub record PropertyTree (T : Type 0) : Type 0 where
  pub get_string : Bytes → T → Option Bytes
  pub get_number : Bytes → T → Option ℕ
  pub get_bool : Bytes → T → Option Bool
  pub put : Bytes → Bytes → T → T
  pub read_ini : Option T
  pub write_ini : T → Bool

-- `put` sets the value of its key and of no other, and a number is read from the text of its key, which
-- `parse` may refuse.
pub record IsTree {T : Type 0} (lib : PropertyTree T) (parse : Bytes → Option ℕ) : Type 0 where
  pub get-put : (key value : Bytes) (t : T) → lib.get_string key (lib.put key value t) ≡ some value
  pub get-put_other :
      (key other value : Bytes) (t : T)
      → text_eq key other ≡ false
      → lib.get_string key (lib.put other value t) ≡ lib.get_string key t
  pub get_number-text :
      (key value : Bytes) (t : T)
      → lib.get_string key t ≡ some value
      → lib.get_number key t ≡ parse value
