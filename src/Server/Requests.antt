-- ===== src/Server/Requests.antt =====
-- Server/src/network/request/handlers: the `_run` of the handlers that touch no file: login.cpp,
-- logout.cpp, get_version.cpp, run_syscmd.cpp and restart_server.cpp.
pub mod Login
use smc_server_client.Common.{
  ℕ, ◌+◌, ◌*◌, ◌%◌, ◌^◌, Bool, true, false, Option, none, some, List, [], ◌∷◌, ◌++◌, Bytes, codes,
  text_eq, ◌==◌, if◌then◌else◌, Fallible, ◌>>=◌, ◌>>◌,
}
use smc_server_client.Text.{to_string}
use smc_server_client.Wire.{Extract, extract_int, extract_string, insert_int, insert_string}
use smc_server_client.Version.{Version, combine}
use smc_server_client.Protocol.Response.{
  ResponseError, user_not_exists, invalid_password, open_pipe_error, unknown_restart_mode,
}
use smc_server_client.Protocol.Roles.{role_code}
use smc_server_client.Server.Users.{User, no_user, get, set}
use smc_server_client.Server.Reply.{insert, build_error, build_error_from_invalid_request}
use smc_server_client.Server.Handler.{Rh, RestartMode, machine, program, other_mode}

-- `_popen` and `_pclose` for a command, which may change what is around the session, the disk for one:
-- none where no pipe opens; else the text that the command prints and its return code, as a sign and a
-- magnitude.
abbrev pub Popen : Type 0 → Type 0
Popen S = Bytes → S → Option (Bytes × (Bool × ℕ)) × S

-- The handler of a login with its field `user`.
pub record LoginRh (S : Type 0) : Type 0 where
  pub handler : Rh S
  pub user : User

-- The wait is a `timestamp_t`, of 64 bits; the count has 32.
abbrev pub wait_time : User → ℕ
wait_time user = user.wrong_password_count * user.wrong_password_count % 2 ^ 64

abbrev pub count_wrong_password : User → User
count_wrong_password user = record user {
  wrong_password_count = (user.wrong_password_count + 1) % 2 ^ 32;
}

abbrev pub code_text : Bool × ℕ → Bytes
code_text (negative, code) = if negative then b'-' ∷ to_string code else to_string code

unfoldable pub restart_mode_of_code : ℕ → RestartMode
restart_mode_of_code code =
    if code == 0 then machine else if code == 1 then program else other_mode code

module _ {S : Type 0} where
  -- An extraction from the request of a handler.
  abbrev pub extracting : {A : Type 0} → Extract A → Fallible (Rh S) A
  extracting m h = let (r, request) = m h.request in (r, record h { request = request })

  abbrev pub extract_or_error : {A : Type 0} → Option A × Rh S → Option A × Rh S
  extract_or_error (some v, h) = (some v, h)
  extract_or_error (none, h) =
      (none, record h { response = build_error_from_invalid_request h.request h.response })

  -- `extractUsername` and `extractPassword`, whose sizes have one byte.
  unfoldable pub extract_credential : Fallible (LoginRh S) Bytes
  extract_credential l =
      let (r, h) = extract_or_error (extracting (extract_string 1) l.handler) in
      (r, record l { handler = h })

  unfoldable pub get_user_from_username : Bytes → Fallible (LoginRh S) Unit
  get_user_from_username username l =
      let user = get username l.handler.session.users in
      if user.is_valid then (some tt, record l { user = user }) else (
        none,
        record {
          handler = record l.handler {
            response = build_error user_not_exists [] l.handler.response;
          };
          user = user;
        },
      )

  -- `users_manager.set(user)`, with its result.
  abbrev pub store_user : User → LoginRh S → Bool × LoginRh S
  store_user user l =
      let (found, users) = set user l.handler.session.users in
      (
        found,
        record {
          handler = record l.handler { session = record l.handler.session { users = users } };
          user = user;
        },
      )

  abbrev pub refuse_password : LoginRh S → LoginRh S
  refuse_password l = record l {
    handler = record l.handler {
      session = record l.handler.session { slept = l.handler.session.slept + wait_time l.user };
      response = build_error invalid_password [] l.handler.response;
    };
  }

  unfoldable pub check_password : Bytes → Fallible (LoginRh S) Unit
  check_password password l =
      let (found, accepted) = store_user (record l.user { wrong_password_count = 0 }) l in
      let refused = refuse_password l in
      if text_eq password l.user.password
      then (if found then some tt else none, accepted)
      else (none, (store_user (count_wrong_password l.user) refused).1)

  unfoldable pub check_login : Fallible (LoginRh S) Unit
  check_login = do
    username ← extract_credential
    password ← extract_credential
    get_user_from_username username >> check_password password

  -- `insertUserRole`, `setUser` and `setLogged`, which `_run` goes on with whatever the checks said.
  abbrev pub finish_login : LoginRh S → Rh S
  finish_login l = record l.handler {
    response = insert (insert_int 1 (role_code l.user.role)) l.handler.response;
    session = record l.handler.session {
      client = record l.handler.session.client { user = l.user; is_logged = true };
    };
  }

  unfoldable pub run_login : Rh S → Rh S
  run_login h = finish_login (check_login (record { handler = h; user = no_user })).1

  unfoldable pub run_logout : Rh S → Rh S
  run_logout h = record h {
    session = record h.session {
      client = record h.session.client { is_logged = false; user = no_user };
    };
  }

  unfoldable pub run_get_version : Version → Rh S → Rh S
  run_get_version server_version h = record h {
    response = insert (insert_int 8 (combine server_version)) h.response;
  }

  -- `runCommand` and `insertOutput`.
  unfoldable pub run_command : Popen S → Bytes → Rh S → Rh S
  run_command popen command h =
      let redirected = command ++ codes " 2>&1" in
      let (r, around) = popen redirected h.session.socket in
      let ran = record h {
        session = record h.session {
          socket = around;
          commands = h.session.commands ++ (redirected ∷ []);
        };
      } in
      elim r [
        | none ↦ record ran { response = build_error open_pipe_error [] h.response }
        | some (output, (negative, code)) ↦
            let shown =
              if code == 0
              then output
              else output ++ ((10 ∷ codes "return code: ") ++ code_text (negative, code)) in
            record ran { response = insert (insert_string 4 shown) h.response }
      ]

  unfoldable pub run_run_syscmd : Popen S → Rh S → Rh S
  run_run_syscmd popen h =
      let (r, h') = extracting (extract_string 4) h in
      elim r [ none ↦ h' | some command ↦ run_command popen command h' ]

  -- `getRestartFuncPtr`, and the thread that restarts after a second.
  unfoldable pub start_restart : RestartMode → Rh S → Rh S
  start_restart (other_mode code) h = record h {
    response =
        build_error unknown_restart_mode (codes "unknown restart mode: " ++ to_string code)
          h.response;
  }
  start_restart mode h = record h { session = record h.session { restart = some mode } }

  unfoldable pub run_restart_server : Rh S → Rh S
  run_restart_server h =
      let (r, h') = extract_or_error (extracting (extract_int 1) h) in
      elim r [ none ↦ h' | some mode_int ↦ start_restart (restart_mode_of_code mode_int) h' ]
