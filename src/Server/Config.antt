-- ===== src/Server/Config.antt =====
-- Server/src/server/config.cpp and Server/include/server/config.hpp: the configuration of the server,
-- with the directories that it sets.
use smc_server_client.Common.{ℕ, Bool, true, false, none, some, List, [], ◌∷◌, Bytes, codes}
use smc_server_client.Paths.{path_of}
use smc_server_client.Settings.{PropertyTree}
use smc_server_client.Version.{Version, set_from_string}
use smc_server_client.Server.Sfs.{Directories, set_logs, set_storage}
use smc_server_client.Server.Variables.{Environment, resolve}

pub record ConfigValues : Type 0 where
  pub server_port : ℕ
  pub dirs_storage : Bytes
  pub dirs_logs : Bytes
  pub client_min_version : Version
  pub client_max_version : Version
  pub time_format : Bytes
  pub io_load_max_buffer_size : ℕ

pub record Config (T : Type 0) : Type 0 where
  pub property_tree : T
  pub values : ConfigValues
  pub dirs : Directories

-- How a read ends: with a value, or with one of two exceptions. `runtime_error` is thrown for a text
-- that is not resolved, `ptree_error` for a key that the tree does not have in the type.
pub data Attempt (A : Type 0) : Type 0 where
  got : A → Attempt A
  ptree_error runtime_error : Attempt A

pub data Read : Type 0 where
  text : Bytes → (Bytes → ConfigValues → ConfigValues) → Read
  number : Bytes → (ℕ → ConfigValues → ConfigValues) → Read

abbrev pub config_reads : List Read
config_reads =
    number (codes "server.port") (λ v c. record c { server_port = v })
    ∷ text (codes "dirs.storage") (λ v c. record c { dirs_storage = v })
    ∷ text (codes "dirs.logs") (λ v c. record c { dirs_logs = v })
    ∷ text (codes "client.min_version")
        (λ v c. record c { client_min_version = (set_from_string v c.client_min_version).1 })
    ∷ text (codes "client.max_version")
        (λ v c. record c { client_max_version = (set_from_string v c.client_max_version).1 })
    ∷ text (codes "time.format") (λ v c. record c { time_format = v })
    ∷ number (codes "io_load.max_buffer_size") (λ v c. record c { io_load_max_buffer_size = v })
    ∷ []

-- What `load` returns, or that an exception leaves it.
pub data Loaded : Type 0 where
  loaded not_loaded escaped : Loaded

module _ {T : Type 0} (lib : PropertyTree T) (env : Environment) where
  abbrev if_resolved : Bool × Bytes → Attempt Bytes
  if_resolved (true, output) = got output
  if_resolved (false, output) = runtime_error

  -- `getValueFromTree` for a string.
  unfoldable pub get_text : Bytes → T → Attempt Bytes
  get_text key tree = elim (lib.get_string key tree) [
    | none ↦ ptree_error
    | some raw_val ↦ if_resolved (resolve true env raw_val)
  ]

  -- `getValueFromTree` for a number.
  unfoldable pub get_number_value : Bytes → T → Attempt ℕ
  get_number_value key tree = elim (lib.get_number key tree) [ none ↦ ptree_error | some v ↦ got v ]

  abbrev store :
      {A : Type 0}
      → (A → ConfigValues → ConfigValues)
      → Config T
      → Attempt A
      → Attempt (Unit {0}) × Config T
  store set c (got v) = (got tt, record c { values = set v c.values })
  store set c ptree_error = (ptree_error, c)
  store set c runtime_error = (runtime_error, c)

  unfoldable pub read_one : Read → Config T → Attempt (Unit {0}) × Config T
  unfolding get_text get_number_value
  read_one (text key set) c = store set c (get_text key c.property_tree)
  read_one (number key set) c = store set c (get_number_value key c.property_tree)

  abbrev unless_thrown :
      (Config T → Attempt (Unit {0}) × Config T)
      → Attempt (Unit {0}) × Config T
      → Attempt (Unit {0}) × Config T
  unless_thrown next (got v, c) = next c
  unless_thrown next (ptree_error, c) = (ptree_error, c)
  unless_thrown next (runtime_error, c) = (runtime_error, c)

  unfoldable pub read_all : List Read → Config T → Attempt (Unit {0}) × Config T
  unfolding read_one
  read_all [] c = (got tt, c)
  read_all (r ∷ rs) c = unless_thrown (read_all rs) (read_one r c)

  unfoldable pub load_values_from_tree : Config T → Attempt (Unit {0}) × Config T
  unfolding read_all
  load_values_from_tree c = read_all config_reads c

  -- Only `ptree_error` is caught.
  abbrev caught : Attempt (Unit {0}) × Config T → Loaded × Config T
  caught (got v, c) = (loaded, c)
  caught (ptree_error, c) = (not_loaded, c)
  caught (runtime_error, c) = (escaped, c)

  unfoldable pub try_to_load_values_from_tree : Config T → Loaded × Config T
  unfolding load_values_from_tree
  try_to_load_values_from_tree c = caught (load_values_from_tree c)

  unfoldable pub set_dirs_values : Config T → Config T
  set_dirs_values c = record c {
    dirs =
        set_storage (path_of c.values.dirs_storage) (set_logs (path_of c.values.dirs_logs) c.dirs);
  }

  abbrev after_values : Loaded × Config T → Loaded × Config T
  after_values (loaded, c) = (loaded, set_dirs_values c)
  after_values (not_loaded, c) = (not_loaded, c)
  after_values (escaped, c) = (escaped, c)

  unfoldable pub load_config : Config T → Loaded × Config T
  unfolding try_to_load_values_from_tree set_dirs_values
  load_config c = elim lib.read_ini [
    | none ↦ (not_loaded, c)
    | some tree ↦ after_values (try_to_load_values_from_tree (record c { property_tree = tree }))
  ]
