-- ===== src/Client/Config.antt =====
-- src/shell/config.cpp: the configuration of the client. The one instance is the state.
pub mod Kept
use smc_server_client.Common.{
  ℕ, Bool, true, false, Option, none, some, List, pure, [], ◌∷◌, Bytes, codes, Fallible, ◌>>◌,
  text_eq, if◌then◌else◌, ◌≡◌, ◌≢◌, refl, sym, ap, ◌∙◌, arith, Keeps, bind-Keeps, elim_holds,
  text_eq_iff,
}
use smc_server_client.Settings.{PropertyTree, IsTree}
use smc_server_client.Shell.EnvVars.{Environment, resolve}

pub record ConfigValues : Type 0 where
  pub server_address : Bytes
  pub server_port : ℕ
  pub client_connect_at_launch : Bool
  pub shell_verbose : Bool
  pub shell_print_addr_prefix : Bool
  pub shell_language : Bytes
  pub cmd_download_output : Bytes
  pub cmd_download_buffer_size : ℕ
  pub cmd_upload_buffer_size : ℕ

pub record Config (T : Type 0) : Type 0 where
  pub property_tree : T
  pub values : ConfigValues

-- A statement of `loadValuesFromTree`: the type it asks for, the key, and the field that it sets.
pub data Read : Type 0 where
  text : Bytes → (Bytes → ConfigValues → ConfigValues) → Read
  number : Bytes → (ℕ → ConfigValues → ConfigValues) → Read
  flag : Bytes → (Bool → ConfigValues → ConfigValues) → Read

abbrev pub config_reads : List Read
config_reads =
    text (codes "server.address") (λ v c. record c { server_address = v })
    ∷ number (codes "server.port") (λ v c. record c { server_port = v })
    ∷ flag (codes "client.connect_at_launch") (λ v c. record c { client_connect_at_launch = v })
    ∷ flag (codes "shell.verbose") (λ v c. record c { shell_verbose = v })
    ∷ flag (codes "shell.print_addr_prefix") (λ v c. record c { shell_print_addr_prefix = v })
    ∷ text (codes "shell.language") (λ v c. record c { shell_language = v })
    ∷ text (codes "commands.download_output") (λ v c. record c { cmd_download_output = v })
    ∷ number (codes "commands.download_buffer_size")
        (λ v c. record c { cmd_download_buffer_size = v })
    ∷ number (codes "commands.upload_buffer_size") (λ v c. record c { cmd_upload_buffer_size = v })
    ∷ []

module _ {T : Type 0} (lib : PropertyTree T) (env : Environment) where
  -- A value read from the tree and put into a field.
  unfoldable pub read_value :
      {A : Type 0} → (T → Option A) → (A → ConfigValues → ConfigValues) → Fallible (Config T) Unit
  read_value get set c = elim (get c.property_tree) [
    | none ↦ (none, c)
    | some v ↦ (some tt, record c { values = set v c.values })
  ]

  -- `getValueFromTree` for a string, whose variables are resolved.
  unfoldable pub get_text : Bytes → T → Option Bytes
  get_text key tree = elim (lib.get_string key tree) [
    | none ↦ none
    | some raw_val ↦ some (resolve env raw_val)
  ]

  unfoldable pub read_one : Read → Fallible (Config T) Unit
  unfolding read_value get_text
  read_one (text key set) = read_value (get_text key) set
  read_one (number key set) = read_value (lib.get_number key) set
  read_one (flag key set) = read_value (lib.get_bool key) set

  unfoldable pub read_all : List Read → Fallible (Config T) Unit
  unfolding read_one
  read_all [] = pure tt
  read_all (r ∷ rs) = read_one r >> read_all rs

  unfoldable pub load_values_from_tree : Fallible (Config T) Unit
  unfolding read_all
  load_values_from_tree = read_all config_reads

  abbrev is_done : Option (Unit {0}) × Config T → Bool × Config T
  is_done (none, c) = (false, c)
  is_done (some v, c) = (true, c)

  -- The values that were read before the one that is missing stay.
  unfoldable pub try_to_load_values_from_tree : Config T → Bool × Config T
  unfolding load_values_from_tree
  try_to_load_values_from_tree c = is_done (load_values_from_tree c)

  -- `load`; a file that is not read leaves the tree as it is.
  unfoldable pub load_config : Config T → Bool × Config T
  unfolding try_to_load_values_from_tree
  load_config c = elim lib.read_ini [
    | none ↦ (false, c)
    | some tree ↦ try_to_load_values_from_tree (record c { property_tree = tree })
  ]

  unfoldable pub update_file : Config T → Bool
  update_file c = lib.write_ini c.property_tree

  abbrev or_undefined : Option Bytes → (Bytes → Bytes) → Bytes
  or_undefined none f = codes "undefined"
  or_undefined (some []) f = codes "undefined"
  or_undefined (some (c ∷ cs)) f = f (c ∷ cs)

  unfoldable pub get_value : Bytes → Config T → Bytes
  get_value key c = or_undefined (lib.get_string key c.property_tree) (λ v. v)

  unfoldable pub get_resolved_value : Bytes → Config T → Bytes
  get_resolved_value key c = or_undefined (lib.get_string key c.property_tree) (resolve env)

  unfoldable pub set_value : Bytes → Bytes → Config T → Bool × Config T
  unfolding try_to_load_values_from_tree
  set_value key value c =
      try_to_load_values_from_tree (record c { property_tree = lib.put key value c.property_tree })
