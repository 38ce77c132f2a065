-- ===== src/Shell/Prompt.antt =====
-- src/shell.cpp: a round of the shell, from the prompt to the message at the end of a command.
use smc_server_client.Common.{ℕ, List, [], ◌∷◌, ◌++◌, Bytes, codes, not, if◌then◌else◌}
use smc_server_client.Text.{to_string}
use smc_server_client.Paths.{FilePath}
use smc_server_client.Client.Config.{ConfigValues}
use smc_server_client.Client.Connection.{Client}
use smc_server_client.Shell.CommandLine.{tokenize}
use smc_server_client.Shell.EnvVars.{Environment, resolve}
use smc_server_client.Shell.Commands.{CommandClass, Entry}
use smc_server_client.Shell.Dispatch.{
  ExitCode, success, error, invalid_args, silent, err, plain, texts, Shell, show, run_shell_command,
}

unfoldable pub exit_code : ExitCode → ℕ
exit_code success = 0
exit_code error = 1
exit_code invalid_args = 2
exit_code silent = 3

abbrev finished : Bytes → ExitCode → Bytes × List Bytes
finished time code = (codes "shell.command_finished", time ∷ to_string (exit_code code) ∷ [])

abbrev current_dir_text : Bytes → Bytes
current_dir_text [] = b'.' ∷ []
current_dir_text (c ∷ cs) = c ∷ cs

abbrev addr_prefix : ConfigValues → Bytes
addr_prefix values =
    if values.shell_print_addr_prefix
    then values.server_address ++ (b':' ∷ (to_string values.server_port ++ codes " -> "))
    else []

-- `getCommandTokens`, of the line that was typed: its variables are resolved, and an empty line has no
-- tokens.
unfoldable pub get_command_tokens : Environment → Bytes → List Bytes
get_command_tokens env line = elim (resolve env line) [ [] ↦ [] | c ∷ cs ↦ tokenize (c ∷ cs) ]

module _ {S : Type 0} where
  -- The time that the command took is a text here; the line begins with an empty one.
  unfoldable pub print_final_cmd_message : Bytes → ExitCode → Shell S → Shell S
  unfolding exit_code
  print_final_cmd_message time silent sh = sh
  print_final_cmd_message time invalid_args sh =
      show (err (codes "command._global.error.invalid_args") []) sh
  print_final_cmd_message time error sh =
      show (texts (finished time error ∷ (codes "shell.command_is_err", []) ∷ [])) sh
  print_final_cmd_message time success sh = show (texts (finished time success ∷ [])) sh

-- `shown` is `string` of a path, with the separators that it was given.
module _ {S : Type 0} (values : ConfigValues) (shown : FilePath → Bytes) where
  unfoldable pub get_command_input_start_info : Client S → Bytes
  get_command_input_start_info client =
      if not client.is_connected
      then codes "NOT_CONNECTED"
      else if not client.is_logged
      then addr_prefix values ++ codes "NOT_LOGGED"
      else addr_prefix values
        ++ (client.user.name ++ (codes " @" ++ current_dir_text (shown client.user.current_dir)))

  module _ (entries : List Entry)
      (run : CommandClass → List Bytes → Shell S → ExitCode × Shell S) where
    unfoldable pub run_tokens : Bytes → List Bytes → Shell S → Shell S
    unfolding print_final_cmd_message
    run_tokens time [] sh = sh
    run_tokens time (first ∷ args) sh =
        let (code, ran) = run_shell_command entries run first args sh in
        show (plain []) (print_final_cmd_message time code ran)

    unfoldable pub process_new_command : Environment → Bytes → Bytes → Shell S → Shell S
    unfolding get_command_input_start_info get_command_tokens run_tokens
    process_new_command env line time sh =
        let prompt = get_command_input_start_info sh.client ++ codes "> " in
        run_tokens time (get_command_tokens env line) (show (plain prompt) sh)
