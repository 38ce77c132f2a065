-- ===== src/Shell/Help.antt =====
-- src/shell/commands/help.cpp: which commands are listed, and the description of one.
pub mod Listed
use smc_server_client.Common.{
  Bool, true, false, not, ◌&&◌, ◌||◌, Option, none, some, List, [], ◌∷◌, ◌++◌, Bytes, codes, ltb,
  if◌then◌else◌,
}
use smc_server_client.Text.{to_lowercase}
use smc_server_client.Protocol.Roles.{role_code, role_name}
use smc_server_client.Client.Connection.{Client, User}
use smc_server_client.Shell.Commands.{CommandInfos, Entry}
use smc_server_client.Shell.Dispatch.{
  ExitCode, success, error, Line, inf, err, Shell, show, is_named,
}

unfoldable pub can_see : User → CommandInfos → Bool
can_see user cmd = not (ltb (role_code user.role) (role_code cmd.min_role))

abbrev find_entry : (Entry → Bool) → List Entry → Option Entry
find_entry f [] = none
find_entry f (e ∷ es) = let rest = find_entry f es in if f e then some e else rest

abbrev description_key : Bytes → Bytes → Bytes
description_key name kind = codes "command_info." ++ (name ++ kind)

module _ {S : Type 0} where
  -- The test of the loop, which passes over a command.
  unfoldable pub is_passed : Client S → CommandInfos → Bool
  unfolding can_see
  is_passed client cmd =
      (cmd.must_be_logged && not client.is_logged) || not (can_see client.user cmd)

  -- The commands that `printAllCommandsInfos` prints, a line for each.
  unfoldable pub listed : Client S → List Entry → List Entry
  unfolding is_passed
  listed client [] = []
  listed client (e ∷ es) =
      let rest = listed client es in if is_passed client e.1 then rest else e ∷ rest

  -- `exists` is whether the language file has a key.
  module _ (exists : Bytes → Bool) where
    unfoldable pub print_long_description_of : Entry → Shell S → Shell S
    unfolding can_see
    print_long_description_of (name, cmd) sh =
        let long_key = description_key name (codes ".long_description") in
        let short_key = description_key name (codes ".short_description") in
        let user = sh.client.user in
        if can_see user cmd
        then show (inf (if exists long_key then long_key else short_key) []) sh
        else show (err (codes "command.help.error.cannot_use_cmd") (role_name user.role ∷ [])) sh

    unfoldable pub print_long_description : List Entry → Bytes → Shell S → ExitCode × Shell S
    unfolding print_long_description_of
    print_long_description entries arg sh =
        elim (find_entry (is_named (to_lowercase arg)) entries) [
          | none ↦ (error, show (err (codes "command.help.error.unknown_cmd") (arg ∷ [])) sh)
          | some e ↦ (success, print_long_description_of e sh)
        ]
