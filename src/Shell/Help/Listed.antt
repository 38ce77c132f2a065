-- ===== src/Shell/Help/Listed.antt =====
-- src/shell/commands/help.cpp and src/shell.cpp: the list of the help and the checks of the shell.
use mathlib.Core.List.{Permᴰ}
use smc_server_client.Common.{
  Bool, false, not, ◌&&◌, List, [], ◌∷◌, if◌then◌else◌, ◌≡◌, refl, sym, ◌∙◌, arith, ◌==◌,
}
use smc_server_client.Protocol.Roles.{role_code}
use smc_server_client.Shell.Commands.{Entry, commands_infos}
use smc_server_client.Shell.Dispatch.{Shell, can_execute_cmd_instance}
use smc_server_client.Shell.Dispatch.Named.{matches, matches-perm}
use smc_server_client.Shell.Help.{can_see, is_passed, listed}

-- The commands that the shell would run.
unfoldable pub allowed : {S : Type 0} → Shell S → List Entry → List Entry
allowed sh [] = []
allowed sh (e ∷ es) =
    let rest = allowed sh es in if (can_execute_cmd_instance e.1 sh).0 then e ∷ rest else rest

-- A command that everyone may run asks for no role: for another one the two would differ.
abbrev asks_in_vain : Entry → Bool
asks_in_vain e = not e.1.must_be_logged && not (role_code e.1.min_role == 0)

none_asks : matches asks_in_vain commands_infos ≡ 0
unfolding role_code
none_asks = refl

module _ {S : Type 0} (sh : Shell S) where
  is_passed-allowed :
      (e : Entry)
      → asks_in_vain e ≡ false
      → is_passed sh.client e.1 ≡ not (can_execute_cmd_instance e.1 sh).0
  unfolding is_passed can_see can_execute_cmd_instance
  is_passed-allowed e h = ground arith

  listed-allowed :
      (es : List Entry) → matches asks_in_vain es ≡ 0 → listed sh.client es ≡ allowed sh es
  unfolding listed allowed
  listed-allowed [] h = refl
  listed-allowed (e ∷ es) h = grind (arith, is_passed-allowed e, listed-allowed es)

  -- In whatever order the map goes through the commands, the help lists just those that the shell would
  -- let the client run, whether it is logged in or not and whatever its role is.
  pub listed_commands :
      (entries : List Entry)
      → Permᴰ commands_infos entries
      → listed sh.client entries ≡ allowed sh entries
  listed_commands entries order =
      listed-allowed entries (sym (matches-perm asks_in_vain order) ∙ none_asks)
