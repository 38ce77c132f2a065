-- ===== src/Shell/Dispatch.antt =====
-- src/shell.cpp: how the shell finds a command, checks that it may run, and runs it.
pub mod Named
use smc_server_client.Common.{
  ℕ, Bool, true, false, not, ◌||◌, Option, none, some, List, [], ◌∷◌, ◌++◌, Bytes, codes, text_eq,
  ltb, if◌then◌else◌,
}
use smc_server_client.Text.{to_lowercase}
use smc_server_client.Protocol.Roles.{role_code}
use smc_server_client.Client.Connection.{Client}
use smc_server_client.Shell.CommandLine.{tokenize}
use smc_server_client.Shell.Commands.{CommandClass, CommandInfos, Entry}

pub data ExitCode : Type 0 where
  success error invalid_args silent : ExitCode

-- What the console shows: a text of the language file by its key, several of them, or a plain text.
pub data Line : Type 0 where
  inf err : Bytes → List Bytes → Line
  texts : List (Bytes × List Bytes) → Line
  plain : Bytes → Line

-- `is_running` is the variable of `common`. The time that a command takes is not part of the state.
pub record Shell (S : Type 0) : Type 0 where
  pub client : Client S
  pub printed : List Line
  pub is_running : Bool

module _ {S : Type 0} where
  abbrev pub show : Line → Shell S → Shell S
  show line sh = record sh { printed = sh.printed ++ (line ∷ []) }

  unfoldable pub can_execute_cmd_instance : CommandInfos → Shell S → Bool × Shell S
  can_execute_cmd_instance cmd sh =
      if not cmd.must_be_logged
      then (true, sh)
      else if not sh.client.is_logged
      then (false, show (err (codes "command._global.error.cannot_run_cmd.not_logged") []) sh)
      else if ltb (role_code sh.client.user.role) (role_code cmd.min_role)
      then (false, show (err (codes "command._global.error.cannot_run_cmd.invalid_perms") []) sh)
      else (true, sh)

-- The test of `getCommandInstanceFromName`.
unfoldable pub is_named : Bytes → Entry → Bool
is_named name e = text_eq name e.0 || text_eq name e.1.short_name

abbrev pub find_infos : (Entry → Bool) → List Entry → Option CommandInfos
find_infos f [] = none
find_infos f (e ∷ es) = let rest = find_infos f es in if f e then some e.1 else rest

-- `entries` are the commands in the order in which `std::unordered_map` goes through them. The
-- element behind `cmd_name` is the one that the loop is at.
unfoldable pub get_command_instance_from_name : List Entry → Bytes → Option CommandClass
unfolding is_named
get_command_instance_from_name entries name = elim (find_infos (is_named name) entries) [
  | none ↦ none
  | some cmd ↦ some cmd.cmd
]

-- The infos that `canExecuteCmdName` checks: those of the full name, or else of the short name.
unfoldable pub infos_to_check : List Entry → Bytes → Option CommandInfos
infos_to_check entries name = elim (find_infos (λ e. text_eq name e.0) entries) [
  | none ↦ find_infos (λ e. text_eq name e.1.short_name) entries
  | some cmd ↦ some cmd
]

module _ {S : Type 0} (entries : List Entry) where
  unfoldable pub can_execute_cmd_name : Bytes → Shell S → Bool × Shell S
  can_execute_cmd_name name sh = elim (infos_to_check entries name) [
    | none ↦ (true, show (err (codes "command._global.error.no_cmd_found_for") (name ∷ [])) sh)
    | some cmd ↦ can_execute_cmd_instance cmd sh
  ]

  module _ (run : CommandClass → List Bytes → Shell S → ExitCode × Shell S) where
    -- What is done with the instance, once there is one.
    unfoldable pub run_instance : Bytes → List Bytes → CommandClass → Shell S → ExitCode × Shell S
    run_instance name args command sh =
        let (allowed, checked) = can_execute_cmd_name name sh in
        let ran = run command args checked in if allowed then ran else (error, checked)

    -- `command_tokens[0]` and the rest of the tokens.
    unfoldable pub run_shell_command : Bytes → List Bytes → Shell S → ExitCode × Shell S
    unfolding run_instance
    run_shell_command first args sh =
        let name = to_lowercase first in
        elim (get_command_instance_from_name entries name) [
          | none ↦ (silent, show (err (codes "command._global.error.unknown_cmd") (name ∷ [])) sh)
          | some command ↦ run_instance name args command sh
        ]
