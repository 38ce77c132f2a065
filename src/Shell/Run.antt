-- ===== src/Shell/Run.antt =====
-- src/shell/commands: what the commands do that change the client, and those that ask the server for
-- one thing. A handler shows an error of the server itself, which is not among the lines here.
use smc_server_client.Common.{
  ℕ, Bool, true, false, not, ◌&&◌, Option, none, some, List, [], ◌∷◌, ◌++◌, Bytes, codes, text_eq,
  length, ltb, ◌==◌, if◌then◌else◌, Fallible,
}
use smc_server_client.Paths.{
  FilePath, path_of, ◌/path◌, lexically_normal, generic_string, is_letter,
}
use smc_server_client.Protocol.Request.{RequestId}
use smc_server_client.Protocol.Files.{FileInfo, FileType}
use smc_server_client.Protocol.Roles.{Role, role_code, role_name, developer}
use smc_server_client.Client.Connection.{User, no_user, build_user}
use smc_server_client.Client.Handler.{ClientRh, new_request}
use smc_server_client.Client.Files.{is_directory_type}
use smc_server_client.Shell.Dispatch.{
  ExitCode, success, error, silent, inf, err, plain, Shell, show,
}

abbrev pub joined : List Bytes → Bytes
joined [] = []
joined (arg ∷ args) = 9 ∷ (arg ++ joined args)

unfoldable pub message_of : List Bytes → Bytes
message_of [] = []
message_of (arg ∷ args) = arg ++ joined args

-- The user that the handler has built of the name, the password and the role of the answer.
abbrev pub connected_user : Bytes → Bytes → Role → User
connected_user username password role =
    build_user (record no_user { name = username; password = password; role = role })

-- The current directory of a target: a bare drive gets its root.
abbrev is_drive : Bytes → Bool
is_drive (c ∷ d ∷ []) = is_letter c && d == b':'
is_drive _ = false

unfoldable pub new_current_dir : FilePath → FilePath
new_current_dir target =
    let normal = lexically_normal target in
    let text = generic_string normal in
    if is_drive text then lexically_normal (path_of (text ++ (92 ∷ []))) else normal

abbrev pub sub_option : List Bytes → Bytes
sub_option (option ∷ (c ∷ sub) ∷ args) = c ∷ sub
sub_option _ = codes "program"

-- The mode for either option of a restart is the one of a restart of the program, whose code is 1.
unfoldable pub restart_mode : Bytes → Option ℕ
restart_mode option =
    if text_eq option (codes "program")
    then some 1
    else if text_eq option (codes "machine")
    then some 1
    else none

module _ {S : Type 0} where
  abbrev pub code_of_bool : Bool × Shell S → ExitCode × Shell S
  code_of_bool (done, sh) = (if done then success else error, sh)

  -- `setClient` and `run` of a new handler: the handler works on the socket of the client.
  abbrev pub run_handler : {A : Type 0} → RequestId → Fallible (ClientRh S) A → Fallible (Shell S) A
  run_handler id m sh =
      let (r, h) = m (new_request id sh.client.socket) in
      (r, record sh { client = record sh.client { socket = h.socket } })

  abbrev pub code_of : {A : Type 0} → Option A × Shell S → ExitCode × Shell S
  code_of (none, sh) = (error, sh)
  code_of (some v, sh) = (success, sh)

  abbrev pub set_session : Bool → User → Shell S → Shell S
  set_session logged user sh = record sh {
    client = record sh.client { user = user; is_logged = logged };
  }

  -- `user.current_dir / args[0]`.
  abbrev pub here : Shell S → Bytes → FilePath
  here sh arg = sh.client.user.current_dir /path path_of arg

  unfoldable pub run_print : List Bytes → Shell S → ExitCode × Shell S
  run_print args sh = (silent, show (plain (message_of args)) sh)

  unfoldable pub check_username : Bytes → Shell S → Bool × Shell S
  check_username username sh =
      if text_eq username []
      then (false, show (err (codes "command.login.error.empty_username") []) sh)
      else if ltb 16 (length username)
      then (false, show (err (codes "command.login.error.long_username") []) sh)
      else (true, sh)

  unfoldable pub check_login_password : Bytes → Shell S → Bool × Shell S
  check_login_password password sh =
      if ltb 16 (length password)
      then (false, show (err (codes "command.login.error.long_password") []) sh)
      else (true, sh)

  unfoldable pub check_arguments : Bytes → Bytes → Shell S → Bool × Shell S
  unfolding check_username check_login_password
  check_arguments username password sh =
      let (valid, checked) = check_username username sh in
      if valid then check_login_password password checked else (false, checked)

  unfoldable pub set_connected : Bytes → Bytes → Option Role × Shell S → ExitCode × Shell S
  set_connected username password (none, sh) = (error, sh)
  set_connected username password (some role, sh) = (
    success,
    show (inf (codes "command.login.successfull_connect") (username ∷ role_name role ∷ []))
        (set_session true (connected_user username password role) sh),
  )

  unfoldable pub leave : Option (Unit {0}) × Shell S → ExitCode × Shell S
  leave (none, sh) = (error, sh)
  leave (some v, sh) = (success, set_session false no_user sh)

  abbrev set_current_dir : FilePath → Shell S → Shell S
  set_current_dir dir sh = record sh {
    client = record sh.client { user = record sh.client.user { current_dir = dir } };
  }

  unfoldable pub enter : FilePath → Option FileType × Shell S → ExitCode × Shell S
  unfolding new_current_dir
  enter target (none, sh) = (error, sh)
  enter target (some type, sh) =
      if is_directory_type type
      then (success, set_current_dir (new_current_dir target) sh)
      else (error, show (err (codes "io.error.path_not_directory") []) sh)

  unfoldable pub can_restart : Shell S → Bool × Shell S
  can_restart sh =
      if not sh.client.is_logged
      then (false, show (err (codes "command._global.error.cannot_run_cmd.not_logged") []) sh)
      else if ltb (role_code sh.client.user.role) (role_code developer)
      then (false, show (err (codes "command._global.error.cannot_run_cmd.invalid_perms") []) sh)
      else (true, sh)

  abbrev pub unknown_option : Bytes → Shell S → Bool × Shell S
  unknown_option option sh =
      (false, show (err (codes "command._global.error.unknown_option") (option ∷ [])) sh)

-- `sortData` of `dir`.
unfoldable pub select : (FileInfo → Bool) → List FileInfo → List FileInfo
select f [] = []
select f (info ∷ data_) = let rest = select f data_ in if f info then info ∷ rest else rest

unfoldable pub sort_data : List FileInfo → List FileInfo
unfolding select
sort_data data_ =
    select (λ i. is_directory_type i.type) data_
    ++ select (λ i. not (is_directory_type i.type)) data_
