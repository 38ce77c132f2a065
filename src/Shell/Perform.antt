-- ===== src/Shell/Perform.antt =====
-- src/shell/commands: the commands that change the client or ask the server for one thing, each run as
-- `Shell::runCommand` does.
pub mod Coherent
pub mod Ran
pub mod Whole
use smc_server_client.Common.{
  ℕ, Bool, true, false, Option, none, some, List, [], ◌∷◌, ◌++◌, Bytes, codes, text_eq,
  if◌then◌else◌,
}
use smc_server_client.Text.{to_lowercase, to_string}
use smc_server_client.Version.{Version, version, combine, version_text}
use smc_server_client.Paths.{FilePath}
use smc_server_client.Network.{Transport}
use smc_server_client.Protocol.Request.{
  login, logout, get_version, run_syscmd, server_restart, io_create_file, io_create_directory,
  io_delete_file, io_set_file_name, io_copy_file, io_move_file, io_get_real_path, io_get_file_type,
}
use smc_server_client.Client.Connection.{client_version, no_user, connect, close}
use smc_server_client.Client.Requests.{
  request_login, request_logout, request_version, request_syscmd, request_restart,
}
use smc_server_client.Client.Files.{
  request_create, request_delete, request_file_name, request_two_paths, request_real_path,
  request_file_type,
}
use smc_server_client.Shell.Commands.{
  CommandClass, infos_command, quit_command, print_command, login_command, logout_command,
  client_command, server_command, chdir_command, syscmd_command, mkfile_command, mkdir_command,
  delete_command, rename_command, edit_command, user_command, move_command, copy_command,
}
use smc_server_client.Shell.Dispatch.{
  ExitCode, success, error, invalid_args, Line, inf, err, plain, Shell, show,
}
use smc_server_client.Shell.Run.{
  code_of_bool, code_of, run_handler, set_session, here, run_print, check_arguments, set_connected,
  leave, enter, can_restart, sub_option, restart_mode, unknown_option,
}

module _ {S : Type 0} (net : Transport S) (connect_to_server : S → Bool × S) where
  unfoldable pub run_login_command : List Bytes → Shell S → ExitCode × Shell S
  run_login_command (username ∷ password ∷ args) sh =
      let (valid, checked) = check_arguments username password sh in
      let asked = run_handler login (request_login net username password) checked in
      if valid then set_connected username password asked else (error, checked)
  run_login_command _ sh = (invalid_args, sh)

  unfoldable pub run_logout_command : Shell S → ExitCode × Shell S
  run_logout_command sh = leave (run_handler logout (request_logout net) sh)

  unfoldable pub run_connect_option : Shell S → Bool × Shell S
  run_connect_option sh =
      let (done, c) = connect net connect_to_server sh.client in (done, record sh { client = c })

  unfoldable pub run_disconnect_option : Shell S → Bool × Shell S
  run_disconnect_option sh = (true, record sh { client = close net sh.client })

  unfoldable pub run_client_option : Bytes → Shell S → Bool × Shell S
  unfolding run_connect_option run_disconnect_option
  run_client_option option sh =
      if text_eq option (codes "connect")
      then run_connect_option sh
      else if text_eq option (codes "disconnect")
      then run_disconnect_option sh
      else unknown_option option sh

  unfoldable pub run_client : List Bytes → Shell S → ExitCode × Shell S
  unfolding run_client_option
  run_client [] sh = (invalid_args, sh)
  run_client (option ∷ args) sh = code_of_bool (run_client_option (to_lowercase option) sh)

  unfoldable pub show_version : Option Version × Shell S → Bool × Shell S
  show_version (none, sh) = (false, sh)
  show_version (some v, sh) = (
    true,
    show (inf (codes "command.server.version") (version_text b'.' v ∷ to_string (combine v) ∷ []))
        sh,
  )

  unfoldable pub after_restart : Option (Unit {0}) × Shell S → Bool × Shell S
  after_restart (none, sh) = (false, sh)
  after_restart (some v, sh) =
      let out = set_session false no_user sh in (true, record out { client = close net out.client })

  unfoldable pub restart_as : Bytes → Shell S → Bool × Shell S
  unfolding after_restart
  restart_as option sh = elim (restart_mode option) [
    | none ↦ (false, show (err (codes "command._global.error.unknown_sub_option") (option ∷ [])) sh)
    | some mode ↦ after_restart (run_handler server_restart (request_restart net mode) sh)
  ]

  unfoldable pub run_restart_sub_option : List Bytes → Shell S → Bool × Shell S
  unfolding restart_as
  run_restart_sub_option args sh =
      let (allowed, checked) = can_restart sh in
      if allowed then restart_as (sub_option args) checked else (false, checked)

  unfoldable pub run_server_option : Bytes → List Bytes → Shell S → Bool × Shell S
  unfolding show_version run_restart_sub_option
  run_server_option option args sh =
      if text_eq option (codes "get-version")
      then show_version (run_handler get_version (request_version net) sh)
      else if text_eq option (codes "restart")
      then run_restart_sub_option args sh
      else unknown_option option sh

  unfoldable pub run_server : List Bytes → Shell S → ExitCode × Shell S
  unfolding run_server_option
  run_server [] sh = (invalid_args, sh)
  run_server (option ∷ args) sh =
      code_of_bool (run_server_option (to_lowercase option) (option ∷ args) sh)

  unfoldable pub enter_target : Option FilePath × Shell S → ExitCode × Shell S
  enter_target (none, sh) = (error, sh)
  enter_target (some target, sh) =
      enter target (run_handler io_get_file_type (request_file_type net target) sh)

  unfoldable pub run_chdir : List Bytes → Shell S → ExitCode × Shell S
  unfolding enter_target
  run_chdir [] sh = (invalid_args, sh)
  run_chdir (arg ∷ args) sh =
      enter_target (run_handler io_get_real_path (request_real_path net (here sh arg)) sh)

  abbrev output_text : Bytes → Bytes
  output_text [] = codes "output: (empty)"
  output_text (c ∷ cs) = codes "output:" ++ (10 ∷ c ∷ cs)

  unfoldable pub show_output : Option Bytes × Shell S → ExitCode × Shell S
  show_output (none, sh) = (error, sh)
  show_output (some output, sh) = (success, show (plain (output_text output)) sh)

  unfoldable pub run_syscmd_command : List Bytes → Shell S → ExitCode × Shell S
  unfolding show_output
  run_syscmd_command [] sh = (invalid_args, sh)
  run_syscmd_command (command ∷ args) sh =
      show_output (run_handler run_syscmd (request_syscmd net command) sh)

  unfoldable pub run_mkfile : List Bytes → Shell S → ExitCode × Shell S
  run_mkfile [] sh = (invalid_args, sh)
  run_mkfile (arg ∷ args) sh =
      code_of (run_handler io_create_file (request_create net (here sh arg)) sh)

  unfoldable pub run_mkdir : List Bytes → Shell S → ExitCode × Shell S
  run_mkdir [] sh = (invalid_args, sh)
  run_mkdir (arg ∷ args) sh =
      code_of (run_handler io_create_directory (request_create net (here sh arg)) sh)

  unfoldable pub run_delete : List Bytes → Shell S → ExitCode × Shell S
  run_delete [] sh = (invalid_args, sh)
  run_delete (arg ∷ args) sh =
      code_of (run_handler io_delete_file (request_delete net (here sh arg)) sh)

  unfoldable pub run_rename : List Bytes → Shell S → ExitCode × Shell S
  run_rename (arg ∷ new_name ∷ args) sh =
      code_of (run_handler io_set_file_name (request_file_name net (here sh arg) new_name) sh)
  run_rename _ sh = (invalid_args, sh)

  unfoldable pub run_move : List Bytes → Shell S → ExitCode × Shell S
  run_move (from ∷ to ∷ args) sh =
      code_of (run_handler io_move_file (request_two_paths net (here sh from) (here sh to)) sh)
  run_move _ sh = (invalid_args, sh)

  unfoldable pub run_copy : List Bytes → Shell S → ExitCode × Shell S
  run_copy (from ∷ to ∷ args) sh =
      code_of (run_handler io_copy_file (request_two_paths net (here sh from) (here sh to)) sh)
  run_copy _ sh = (invalid_args, sh)

  unfoldable pub run_user : List Bytes → Shell S → ExitCode × Shell S
  run_user [] sh = (invalid_args, sh)
  run_user (arg ∷ args) sh = (success, sh)

  unfoldable pub run_infos : Shell S → ExitCode × Shell S
  run_infos sh = (
    success,
    show (inf (codes "global.begin_message") (version_text b'.' client_version ∷ [])) sh,
  )

  unfoldable pub run_quit : Shell S → ExitCode × Shell S
  run_quit sh = (success, record sh { is_running = false })

  -- `command->run()`. The other commands, for the help, the console, the configuration, the language
  -- and the transfers, have no access to the session: they leave another socket and further lines.
  module _ (other : CommandClass → List Bytes → Shell S → ExitCode × (S × List Line)) where
    unfoldable pub run_other : CommandClass → List Bytes → Shell S → ExitCode × Shell S
    run_other command args sh =
        let (code, (s, lines)) = other command args sh in
        (
          code,
          record sh { client = record sh.client { socket = s }; printed = sh.printed ++ lines },
        )

    unfoldable pub run_class : CommandClass → List Bytes → Shell S → ExitCode × Shell S
    unfolding run_other
    run_class infos_command args sh = run_infos sh
    run_class quit_command args sh = run_quit sh
    run_class print_command args sh = run_print args sh
    run_class login_command args sh = run_login_command args sh
    run_class logout_command args sh = run_logout_command sh
    run_class client_command args sh = run_client args sh
    run_class server_command args sh = run_server args sh
    run_class chdir_command args sh = run_chdir args sh
    run_class syscmd_command args sh = run_syscmd_command args sh
    run_class mkfile_command args sh = run_mkfile args sh
    run_class mkdir_command args sh = run_mkdir args sh
    run_class delete_command args sh = run_delete args sh
    run_class rename_command args sh = run_rename args sh
    run_class edit_command args sh = (success, sh)
    run_class user_command args sh = run_user args sh
    run_class move_command args sh = run_move args sh
    run_class copy_command args sh = run_copy args sh
    run_class command args sh = run_other command args sh
