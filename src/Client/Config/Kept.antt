-- ===== src/Client/Config/Kept.antt =====
-- src/shell/config.cpp: what becomes of a key that is set.
use smc_server_client.Common.{List, [], ◌∷◌, Bytes, ◌≡◌, Bool, false, ◌||◌, text_eq}
use smc_server_client.Settings.{PropertyTree}
use smc_server_client.Shell.EnvVars.{Environment}
use smc_server_client.Client.Config.{Config, Read, text, number, flag}

module _ {T : Type 0} (lib : PropertyTree T) (env : Environment) (tree : T) where
  abbrev HasTree : Config T → Type 0
  HasTree c = c.property_tree ≡ tree

-- Whether a number is asked for under a key.
abbrev pub asks_number : Bytes → List Read → Bool
asks_number key [] = false
asks_number key (text k set ∷ rs) = asks_number key rs
asks_number key (flag k set ∷ rs) = asks_number key rs
asks_number key (number k set ∷ rs) = text_eq k key || asks_number key rs
