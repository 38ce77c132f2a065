-- ===== src/Server/Handler.antt =====
-- Server/src/network/request/handler.cpp: what every request handler does around its own `_run`,
-- with the state of the session that it may change.
pub mod Guards
use smc_server_client.Common.{
  ℕ, Bool, true, false, not, ◌&&◌, Option, none, some, List, [], Bytes, ltb, if◌then◌else◌,
  Fallible, ◌>>=◌, ◌>>◌,
}
use smc_server_client.Wire.{Analyzer, is_error}
use smc_server_client.Version.{Version, combine}
use smc_server_client.Network.{Transport, send_buffer}
use smc_server_client.Protocol.Response.{
  ResponseType, ok, error, ResponseError, invalid_request_data, version_too_old, not_logged,
  invalid_permissions,
}
use smc_server_client.Protocol.Roles.{Role, role_code}
use smc_server_client.Server.Users.{User}
use smc_server_client.Server.Reply.{ResponseBuilder, build_normal, build_error}

pub record Requirements : Type 0 where
  pub min_version : Version
  pub must_be_logged : Bool
  pub min_role : Role

pub record Client : Type 0 where
  pub version : Version
  pub is_connected : Bool
  pub is_logged : Bool
  pub user : User

-- Shared/include/Shared/server/restart_modes.hpp.
pub data RestartMode : Type 0 where
  machine program : RestartMode
  other_mode : ℕ → RestartMode

-- A session: the client, the users of the server, the socket (or all that is around it), the seconds that its thread has slept,
-- the restart that it has set off, and the commands that it has given to the machine.
pub record Session (S : Type 0) : Type 0 where
  pub client : Client
  pub users : List User
  pub socket : S
  pub slept : ℕ
  pub restart : Option RestartMode
  pub commands : List Bytes

-- A handler at work.
pub record Rh (S : Type 0) : Type 0 where
  pub session : Session S
  pub request : Analyzer
  pub response : ResponseBuilder
  pub response_sent : Bool

module _ {S : Type 0} where
  abbrev pub fail_with : ResponseError → Fallible (Rh S) Unit
  fail_with id h = (none, record h { response = build_error id [] h.response })

  unfoldable pub check_version : Requirements → Fallible (Rh S) Unit
  check_version requirements h =
      if ltb (combine h.session.client.version) (combine requirements.min_version)
      then fail_with version_too_old h
      else (some tt, h)

  unfoldable pub check_must_be_logged : Requirements → Fallible (Rh S) Unit
  check_must_be_logged requirements h =
      if requirements.must_be_logged && not h.session.client.is_logged
      then fail_with not_logged h
      else (some tt, h)

  unfoldable pub check_min_role : Requirements → Fallible (Rh S) Unit
  check_min_role requirements h =
      if ltb (role_code h.session.client.user.role) (role_code requirements.min_role)
      then fail_with invalid_permissions h
      else (some tt, h)

  unfoldable pub check_requirements : Requirements → Fallible (Rh S) Unit
  check_requirements requirements =
      check_version requirements
      >> (check_must_be_logged requirements >> check_min_role requirements)

  unfoldable pub report_invalid_request : Rh S → Rh S
  report_invalid_request h =
      if is_error h.request
      then record h { response = build_error invalid_request_data h.request.last_error h.response }
      else h

  abbrev pub run_if_ok : ResponseType → (Rh S → Rh S) → Rh S → Rh S
  run_if_ok ok body h = body h
  run_if_ok error body h = h

module _ {S : Type 0} (net : Transport S) where
  unfoldable pub send_response : Rh S → Bool × Rh S
  send_response h =
      let (sent, s) = send_buffer net h.response.bytes h.session.socket in
      if h.response_sent
      then (false, h)
      else (sent, record h { response_sent = true; session = record h.session { socket = s } })

  unfoldable pub send_if_unsent : Rh S → Rh S
  unfolding send_response
  send_if_unsent h = if h.response_sent then h else (send_response h).1

  -- `run`; the argument `body` is the handler's `_run`.
  unfoldable pub run : Requirements → (Rh S → Rh S) → Rh S → Rh S
  unfolding check_requirements report_invalid_request send_if_unsent
  run requirements body h =
      let checked : Rh S =
        (check_requirements requirements (record h { response = build_normal h.response })).1 in
      send_if_unsent (report_invalid_request (run_if_ok checked.response.type body checked))
