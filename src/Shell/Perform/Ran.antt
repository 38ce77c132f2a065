-- ===== src/Shell/Perform/Ran.antt =====
-- src/shell/commands: what each command leaves of the user of a client that is not logged in.
use smc_server_client.Common.{
  Bool, true, false, not, Option, none, some, List, [], ◌∷◌, Bytes, codes, text_eq, ◌≡◌, refl,
  arith, if_holds, elim_holds,
}
use smc_server_client.Text.{to_lowercase}
use smc_server_client.Paths.{FilePath}
use smc_server_client.Network.{Transport}
use smc_server_client.Protocol.Request.{
  logout, get_version, run_syscmd, server_restart, io_get_real_path, io_get_file_type,
}
use smc_server_client.Version.{Version}
use smc_server_client.Client.Connection.{no_user}
use smc_server_client.Client.Requests.{
  request_logout, request_version, request_syscmd, request_restart,
}
use smc_server_client.Client.Files.{request_real_path, request_file_type}
use smc_server_client.Shell.Commands.{
  CommandClass, CommandInfos, infos_command, quit_command, print_command, login_command,
  logout_command, client_command, server_command, chdir_command, syscmd_command, mkfile_command,
  mkdir_command, delete_command, rename_command, edit_command, user_command, move_command,
  copy_command, help_command, clear_command, conf_command, dir_command, download_command,
  upload_command, lang_command,
}
use smc_server_client.Shell.Dispatch.{ExitCode, Line, Shell, can_execute_cmd_instance}
use smc_server_client.Shell.Run.{
  run_handler, code_of, check_arguments, can_restart, restart_mode, sub_option, run_print, here,
  set_session,
}
use smc_server_client.Shell.Perform.{
  run_login_command, run_logout_command, run_client, run_server, run_chdir, run_syscmd_command,
  run_class, run_mkfile, run_mkdir, run_delete, run_rename, run_move, run_copy, run_user, run_infos,
  run_quit, run_other, show_version, after_restart, restart_as, show_output, enter_target,
  run_client_option, run_server_option, run_connect_option, run_disconnect_option,
  run_restart_sub_option,
}
use smc_server_client.Shell.Perform.Coherent.{
  IsCoherent, ShellIsCoherent, EndIsCoherent, set_connected-IsCoherent, leave-IsCoherent,
  enter-IsCoherent, check_arguments-IsCoherent, can_restart-IsCoherent, connect-IsCoherent,
  close-IsCoherent,
}

module _ {S : Type 0} where
  code_of-IsCoherent :
      {A : Type 0} (r : Option A × Shell S) → ShellIsCoherent r.1 → ShellIsCoherent (code_of r).1
  code_of-IsCoherent (none, sh) h = h
  code_of-IsCoherent (some v, sh) h = h

module _ {S : Type 0} (net : Transport S) (connect_to_server : S → Bool × S) where
  run_login_command-IsCoherent :
      (args : List Bytes) (sh : Shell S)
      → ShellIsCoherent sh
      → ShellIsCoherent (run_login_command net connect_to_server args sh).1
  unfolding run_login_command IsCoherent
  run_login_command-IsCoherent [] sh h = h
  run_login_command-IsCoherent (username ∷ []) sh h = h
  run_login_command-IsCoherent (username ∷ password ∷ args) sh h =
      let checked = check_arguments-IsCoherent username password sh h in
      if_holds EndIsCoherent (check_arguments username password sh).0 _ _
        (set_connected-IsCoherent username password _ checked) checked

  run_logout_command-IsCoherent :
      (sh : Shell S)
      → ShellIsCoherent sh
      → ShellIsCoherent (run_logout_command net connect_to_server sh).1
  unfolding run_logout_command IsCoherent
  run_logout_command-IsCoherent sh h =
      leave-IsCoherent (run_handler logout (request_logout net) sh) h

  run_client-IsCoherent :
      (args : List Bytes) (sh : Shell S)
      → ShellIsCoherent sh
      → ShellIsCoherent (run_client net connect_to_server args sh).1
  unfolding run_client run_client_option run_connect_option run_disconnect_option IsCoherent
  run_client-IsCoherent [] sh h = h
  run_client-IsCoherent (option ∷ args) sh h =
      if_holds EndIsCoherent (text_eq (to_lowercase option) (codes "connect")) _ _
        (connect-IsCoherent net connect_to_server sh.client)
        (if_holds EndIsCoherent (text_eq (to_lowercase option) (codes "disconnect")) _ _
          (close-IsCoherent net connect_to_server sh.client) h)

  after_restart-IsCoherent :
      (r : Option (Unit {0}) × Shell S)
      → ShellIsCoherent r.1
      → ShellIsCoherent (after_restart net connect_to_server r).1
  unfolding after_restart
  after_restart-IsCoherent (none, sh) h = h
  after_restart-IsCoherent (some v, sh) h =
      close-IsCoherent net connect_to_server (set_session false no_user sh).client

  restart_as-IsCoherent :
      (option : Bytes) (sh : Shell S)
      → ShellIsCoherent sh
      → ShellIsCoherent (restart_as net connect_to_server option sh).1
  unfolding restart_as IsCoherent
  restart_as-IsCoherent option sh h = elim_holds EndIsCoherent (restart_mode option) _ _ h (λ mode.
      after_restart-IsCoherent (run_handler server_restart (request_restart net mode) sh) h)

  show_version-IsCoherent :
      (r : Option Version × Shell S)
      → ShellIsCoherent r.1
      → ShellIsCoherent (show_version net connect_to_server r).1
  unfolding show_version IsCoherent
  show_version-IsCoherent (none, sh) h = h
  show_version-IsCoherent (some v, sh) h = h

  run_server-IsCoherent :
      (args : List Bytes) (sh : Shell S)
      → ShellIsCoherent sh
      → ShellIsCoherent (run_server net connect_to_server args sh).1
  unfolding run_server run_server_option run_restart_sub_option IsCoherent
  run_server-IsCoherent [] sh h = h
  run_server-IsCoherent (option ∷ args) sh h =
      let allowed = can_restart-IsCoherent sh h in
      if_holds EndIsCoherent (text_eq (to_lowercase option) (codes "get-version")) _ _
        (show_version-IsCoherent (run_handler get_version (request_version net) sh) h)
        (if_holds EndIsCoherent (text_eq (to_lowercase option) (codes "restart")) _ _
          (if_holds EndIsCoherent (can_restart sh).0 _ _
            (restart_as-IsCoherent (sub_option (option ∷ args)) (can_restart sh).1 allowed) allowed)
          h)

  enter_target-IsCoherent :
      (r : Option FilePath × Shell S)
      → r.1.client.is_logged ≡ true
      → ShellIsCoherent r.1
      → ShellIsCoherent (enter_target net connect_to_server r).1
  unfolding enter_target
  enter_target-IsCoherent (none, sh) l h = h
  enter_target-IsCoherent (some target, sh) l h =
      enter-IsCoherent target (run_handler io_get_file_type (request_file_type net target) sh) l

  run_chdir-IsCoherent :
      (args : List Bytes) (sh : Shell S)
      → sh.client.is_logged ≡ true
      → ShellIsCoherent sh
      → ShellIsCoherent (run_chdir net connect_to_server args sh).1
  unfolding run_chdir IsCoherent
  run_chdir-IsCoherent [] sh l h = h
  run_chdir-IsCoherent (arg ∷ args) sh l h =
      enter_target-IsCoherent
        (run_handler io_get_real_path (request_real_path net (here sh arg)) sh) l h

  show_output-IsCoherent :
      (r : Option Bytes × Shell S)
      → ShellIsCoherent r.1
      → ShellIsCoherent (show_output net connect_to_server r).1
  unfolding show_output IsCoherent
  show_output-IsCoherent (none, sh) h = h
  show_output-IsCoherent (some output, sh) h = h

  module _ (other : CommandClass → List Bytes → Shell S → ExitCode × (S × List Line)) where
    pub run_class-IsCoherent :
        (command : CommandClass) (args : List Bytes) (sh : Shell S)
        → (command ≡ chdir_command → sh.client.is_logged ≡ true)
        → ShellIsCoherent sh
        → ShellIsCoherent (run_class net connect_to_server other command args sh).1
    unfolding run_class run_other IsCoherent run_print run_infos run_quit run_syscmd_command
        run_mkfile run_mkdir run_delete run_rename run_move run_copy run_user
    run_class-IsCoherent infos_command args sh l h = h
    run_class-IsCoherent quit_command args sh l h = h
    run_class-IsCoherent print_command args sh l h = h
    run_class-IsCoherent login_command args sh l h = run_login_command-IsCoherent args sh h
    run_class-IsCoherent logout_command args sh l h = run_logout_command-IsCoherent sh h
    run_class-IsCoherent client_command args sh l h = run_client-IsCoherent args sh h
    run_class-IsCoherent server_command args sh l h = run_server-IsCoherent args sh h
    run_class-IsCoherent chdir_command args sh l h = run_chdir-IsCoherent args sh (l refl) h
    run_class-IsCoherent syscmd_command [] sh l h = h
    run_class-IsCoherent syscmd_command (command ∷ args) sh l h =
        show_output-IsCoherent (run_handler run_syscmd (request_syscmd net command) sh) h
    run_class-IsCoherent mkfile_command [] sh l h = h
    run_class-IsCoherent mkfile_command (arg ∷ args) sh l h = code_of-IsCoherent _ h
    run_class-IsCoherent mkdir_command [] sh l h = h
    run_class-IsCoherent mkdir_command (arg ∷ args) sh l h = code_of-IsCoherent _ h
    run_class-IsCoherent delete_command [] sh l h = h
    run_class-IsCoherent delete_command (arg ∷ args) sh l h = code_of-IsCoherent _ h
    run_class-IsCoherent rename_command [] sh l h = h
    run_class-IsCoherent rename_command (arg ∷ []) sh l h = h
    run_class-IsCoherent rename_command (arg ∷ name ∷ args) sh l h = code_of-IsCoherent _ h
    run_class-IsCoherent edit_command args sh l h = h
    run_class-IsCoherent user_command [] sh l h = h
    run_class-IsCoherent user_command (arg ∷ args) sh l h = h
    run_class-IsCoherent move_command [] sh l h = h
    run_class-IsCoherent move_command (from ∷ []) sh l h = h
    run_class-IsCoherent move_command (from ∷ to ∷ args) sh l h = code_of-IsCoherent _ h
    run_class-IsCoherent copy_command [] sh l h = h
    run_class-IsCoherent copy_command (from ∷ []) sh l h = h
    run_class-IsCoherent copy_command (from ∷ to ∷ args) sh l h = code_of-IsCoherent _ h
    run_class-IsCoherent help_command args sh l h = h
    run_class-IsCoherent clear_command args sh l h = h
    run_class-IsCoherent conf_command args sh l h = h
    run_class-IsCoherent dir_command args sh l h = h
    run_class-IsCoherent download_command args sh l h = h
    run_class-IsCoherent upload_command args sh l h = h
    run_class-IsCoherent lang_command args sh l h = h

  pub can_execute_cmd_instance-IsCoherent :
      (cmd : CommandInfos) (sh : Shell S)
      → ShellIsCoherent sh
      → ShellIsCoherent (can_execute_cmd_instance cmd sh).1
  unfolding can_execute_cmd_instance IsCoherent
  can_execute_cmd_instance-IsCoherent cmd sh h =
      if_holds EndIsCoherent (not cmd.must_be_logged) _ _ h
        (if_holds EndIsCoherent (not sh.client.is_logged) _ _ h (if_holds EndIsCoherent _ _ _ h h))

  pub can_execute_cmd_instance-logged :
      (cmd : CommandInfos) (sh : Shell S)
      → cmd.must_be_logged ≡ true
      → (can_execute_cmd_instance cmd sh).0 ≡ true
      → (can_execute_cmd_instance cmd sh).1.client.is_logged ≡ true
  unfolding can_execute_cmd_instance
  can_execute_cmd_instance-logged cmd sh must allowed = ground arith
