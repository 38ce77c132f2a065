-- ===== src/Server/Session.antt =====
-- Server/src/network/client.cpp and Server/include/network/request/factory.hpp: how a session takes
-- requests from its socket and hands them to their handlers, and Server/src/network/request/handlers
-- for what each handler requires.
pub mod Access
pub mod Versions
pub mod Start
use smc_server_client.Common.{
  ℕ, zero, suc, Bool, true, false, ◌&&◌, Option, none, some, List, [], ◌∷◌, Bytes, if◌then◌else◌,
}
use smc_server_client.Wire.{new_analyzer, set_data}
use smc_server_client.Version.{Version, version, combine, set_from_combined}
use smc_server_client.Network.{Transport, send_int, read_int, send_buffer, read_buffer}
use smc_server_client.Protocol.Request.{
  RequestId, get_version, quit, login, logout, run_syscmd, io_file_exists, io_get_dir_content,
  io_get_file_type, io_get_file_size, io_get_file_content, io_get_real_path, io_set_file_content,
  io_set_file_name, io_create_file, io_create_directory, io_delete_file, io_move_file, io_copy_file,
  server_restart, other_request, request_of_code,
}
use smc_server_client.Protocol.Response.{unknown_request}
use smc_server_client.Protocol.Roles.{user, developer}
use smc_server_client.Server.Reply.{new_response, build_error}
use smc_server_client.Server.Handler.{Requirements, Session, Rh, run}
use smc_server_client.Server.Requests.{
  Popen, run_login, run_logout, run_get_version, run_run_syscmd, run_restart_server,
}

-- `VERSION` of Server/include/common.hpp.
abbrev pub server_version : Version
server_version = version 1 0 0

-- The `REQUIREMENTS` of the handlers.
abbrev pub anyone : Requirements
anyone = record { min_version = version 1 0 0; must_be_logged = false; min_role = user }

abbrev pub logged_user : Requirements
logged_user = record anyone { must_be_logged = true }

abbrev pub logged_developer : Requirements
logged_developer = record {
  min_version = version 1 0 0;
  must_be_logged = true;
  min_role = developer;
}

-- What the handler that `handler_map` holds for a request requires; none where it holds none.
unfoldable pub requirements : RequestId → Option Requirements
requirements get_version = some anyone
requirements quit = none
requirements login = some anyone
requirements logout = some logged_user
requirements run_syscmd = some logged_developer
requirements io_file_exists = some logged_user
requirements io_get_dir_content = some logged_user
requirements io_get_file_type = some logged_user
requirements io_get_file_size = some logged_user
requirements io_get_file_content = some logged_user
requirements io_get_real_path = some logged_user
requirements io_set_file_content = some logged_user
requirements io_set_file_name = some logged_user
requirements io_create_file = some logged_user
requirements io_create_directory = some logged_user
requirements io_delete_file = some logged_user
requirements io_move_file = some anyone
requirements io_copy_file = some anyone
requirements server_restart = some logged_developer
requirements (other_request code) = none

module _ {S : Type 0} where
  -- A handler after `setClient` and `setRequestContent`.
  abbrev pub new_handler : Bytes → Session S → Rh S
  new_handler request_content session = record {
    session = session;
    request = set_data request_content new_analyzer;
    response = new_response;
    response_sent = false;
  }

  abbrev pub disconnect : Session S → Session S
  disconnect session = record session { client = record session.client { is_connected = false } }

-- The handlers of files are not modelled here: `run_io` is their `_run`, whatever it does.
module _ {S : Type 0} (net : Transport S) (popen : Popen S) (run_io : RequestId → Rh S → Rh S) where
  -- The `_run` of the handler of a request.
  unfoldable pub body : RequestId → Rh S → Rh S
  body get_version h = run_get_version server_version h
  body login h = run_login h
  body logout h = run_logout h
  body run_syscmd h = run_run_syscmd popen h
  body server_restart h = run_restart_server h
  body request h = run_io request h

  unfoldable pub send_response_error : Session S → Session S
  send_response_error session =
      let (sent, s) =
        send_buffer net (build_error unknown_request [] new_response).bytes session.socket in
      record session { socket = s }

  abbrev pub handle : Option Requirements → RequestId → Bytes → Session S → Session S
  handle none request request_content session = send_response_error session
  handle (some required) request request_content session =
      (run net required (body request) (new_handler request_content session)).session

  unfoldable pub process_received_request : RequestId → Bytes → Session S → Session S
  process_received_request quit request_content session = disconnect session
  process_received_request request request_content session =
      handle (requirements request) request request_content session

  abbrev pub take_request : Bytes → Session S → Session S
  take_request [] session = session
  take_request (request_id ∷ request_content) session =
      process_received_request (request_of_code request_id) request_content session

  unfoldable pub handle_new_request : Session S → Session S
  handle_new_request session =
      let (r, s) = read_buffer net session.socket in
      elim r [
        | none ↦ disconnect (record session { socket = s })
        | some request_full_content ↦
            take_request request_full_content (record session { socket = s })
      ]

  -- Any number of turns of the loop of `startCommunication`, while the client is connected and no
  -- shutdown is requested.
  unfoldable pub serve : ℕ → Session S → Session S
  serve zero session = session
  serve (suc turns) session =
      let rest = serve turns (handle_new_request session) in
      if session.client.is_connected then rest else session

module _ {S : Type 0} (net : Transport S) where
  -- `checkVersion` after the client's version was read.
  unfoldable pub send_versions : Version → Version → S → S
  send_versions client_min_version client_max_version s =
      let (sent, s1) = send_int net 8 (combine server_version) s in
      let (sent_min, s2) = send_int net 8 (combine client_min_version) s1 in
      let (sent_max, s3) = send_int net 8 (combine client_max_version) s2 in
      if sent then (if sent_min then s3 else s2) else s1

  unfoldable pub check_client_version : Version → Version → Session S → Session S
  check_client_version client_min_version client_max_version session =
      let (r, s) = read_int net 8 session.socket in
      elim r [
        | none ↦ record session { socket = s }
        | some version_int ↦ record session {
          client = record session.client { version = set_from_combined version_int };
          socket = send_versions client_min_version client_max_version s;
        }
      ]
