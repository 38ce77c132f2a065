-- ===== src/Tests/Sessions.antt =====
-- A session over a pipe with one known user, and requests of a stranger.
use smc_server_client.Common.{
  ℕ, ◌+◌, ◌*◌, ◌%◌, ◌^◌, if◌then◌else◌, ◌<◌, true, false, none, some, [], ◌∷◌, Bytes, codes,
  text_eq, ◌≡◌, refl, arith,
}
use smc_server_client.Wire.{
  Analyzer, is_error, extract_int, extract_loop, take_buffer, copy_loop, extract_buffer,
  extract_string, insert_int,
}
use smc_server_client.Version.{version, combine}
use smc_server_client.Network.{send_buffer}
use smc_server_client.Network.Stream.{pipe}
use smc_server_client.Protocol.Request.{RequestId, run_syscmd}
use smc_server_client.Protocol.Response.{not_logged, invalid_password, invalid_request_data}
use smc_server_client.Protocol.Roles.{developer, admin, role_code}
use smc_server_client.Server.Users.{User, no_user, get, set}
use smc_server_client.Server.Reply.{new_response, build_normal, build_error, insert}
use smc_server_client.Server.Handler.{Client, Session, Rh, run}
use smc_server_client.Server.Handler.Guards.{refusal, run-refused, run-answers}
use smc_server_client.Server.Requests.{Popen, run_login, run_logout}
use smc_server_client.Server.Requests.Login.{run_login-right_password, run_login-wrong_password}
use smc_server_client.Server.Session.{anyone, logged_user, process_received_request}
use smc_server_client.Server.Session.Access.{
  OnlyRefused, process_received_request-unlogged, process_received_request-low_role,
}

abbrev pub bob : User
bob = record no_user {
  name = codes "bob";
  password = codes "pw";
  role = admin;
  wrong_password_count = 3;
}

abbrev pub stranger : Client
stranger = record {
  version = version 1 0 0;
  is_connected = true;
  is_logged = false;
  user = no_user;
}

abbrev pub quiet : Session Bytes
quiet = record {
  client = stranger;
  users = bob ∷ [];
  socket = [];
  slept = 0;
  restart = none;
  commands = [];
}

abbrev served : Session Bytes
served = record quiet { client = record stranger { is_logged = true; user = bob } }

abbrev login_bytes : Bytes
login_bytes = 3 ∷ 98 ∷ 111 ∷ 98 ∷ 2 ∷ 112 ∷ 119 ∷ []

abbrev request_at : ℕ → Analyzer
request_at cursor = record { bytes = login_bytes; cursor = cursor; last_error = [] }

abbrev bob_login : Rh Bytes
bob_login = record {
  session = quiet;
  request = request_at 0;
  response = new_response;
  response_sent = false;
}

bob_named : extract_string 1 (request_at 0) ≡ (some (codes "bob"), request_at 4)
unfolding extract_string extract_buffer extract_int take_buffer extract_loop copy_loop
bob_named = refl

bob_told : extract_string 1 (request_at 4) ≡ (some (codes "pw"), request_at 7)
unfolding extract_string extract_buffer extract_int take_buffer extract_loop copy_loop
bob_told = refl

pub bob_found : get (codes "bob") quiet.users ≡ bob
unfolding get text_eq
bob_found = refl

abbrev careless : User
careless = record bob { password = codes "PW" }

abbrev careless_login : Rh Bytes
careless_login = record bob_login { session = record quiet { users = careless ∷ [] } }

careless_found : get (codes "bob") careless_login.session.users ≡ careless
unfolding get text_eq
careless_found = refl

passwords_agree : text_eq (codes "pw") (codes "pw") ≡ true
unfolding text_eq
passwords_agree = refl

passwords_differ : text_eq (codes "pw") (codes "PW") ≡ false
unfolding text_eq
passwords_differ = refl

run_login-right_password_example : run_login bob_login ≡ record bob_login {
  request = request_at 7;
  response = insert (insert_int 1 (role_code admin)) new_response;
  session = record quiet {
    client = record stranger { user = record bob { wrong_password_count = 0 }; is_logged = true };
    users = (set (record bob { wrong_password_count = 0 }) quiet.users).1;
  };
}
run_login-right_password_example =
    run_login-right_password bob_login bob_named bob_told bob_found refl passwords_agree

abbrev counted : User
counted = record careless { wrong_password_count = (3 + 1) % 2 ^ 32 }

run_login-wrong_password_example :
    (run_login careless_login ≡ record careless_login {
      request = request_at 7;
      response =
          insert (insert_int 1 (role_code admin)) (build_error invalid_password [] new_response);
      session = record careless_login.session {
        client = record stranger { user = counted; is_logged = true };
        users = (set counted careless_login.session.users).1;
        slept = 0 + 3 * 3 % 2 ^ 64;
      };
    })
    × (get (codes "bob") (run_login careless_login).session.users ≡ counted)
run_login-wrong_password_example =
    run_login-wrong_password careless_login bob_named bob_told careless_found refl passwords_differ

abbrev pub no_command : {S : Type 0} → Popen S
no_command command s = (none, s)

abbrev pub no_io : RequestId → Rh Bytes → Rh Bytes
no_io request h = h

process_received_request-unlogged_example :
    OnlyRefused pipe quiet
      (process_received_request pipe no_command no_io run_syscmd login_bytes quiet)
process_received_request-unlogged_example =
    process_received_request-unlogged pipe no_command no_io login_bytes quiet run_syscmd refl refl

admin_lt_developer : role_code admin < role_code developer
unfolding role_code
admin_lt_developer = omega arith

process_received_request-low_role_example :
    OnlyRefused pipe served
      (process_received_request pipe no_command no_io run_syscmd login_bytes served)
process_received_request-low_role_example =
    process_received_request-low_role pipe no_command no_io login_bytes served run_syscmd refl
      admin_lt_developer

run-refused_example : run pipe logged_user run_logout bob_login ≡ record bob_login {
  response = build_error not_logged [] (build_normal new_response);
  response_sent = true;
  session = record quiet {
    socket = (send_buffer pipe (build_error not_logged [] (build_normal new_response)).bytes []).1;
  };
}
unfolding is_error combine
run-refused_example = run-refused pipe logged_user run_logout bob_login refl refl refl

pub login_open : refusal anyone stranger ≡ none
unfolding combine role_code
login_open = refl

abbrev bob_answers : Rh Bytes
bob_answers = run_login (record bob_login { response = build_normal new_response })

run-answers_example :
    let reply : Bytes =
      if is_error bob_answers.request
      then (build_error invalid_request_data bob_answers.request.last_error new_response).bytes
      else bob_answers.response.bytes in
    let ran = run pipe anyone run_login bob_login in
    (ran.response_sent ≡ true)
    × (ran.session ≡ (
        if bob_answers.response_sent then bob_answers.session else record bob_answers.session {
          socket = (send_buffer pipe reply bob_answers.session.socket).1;
        }))
run-answers_example = run-answers pipe anyone run_login bob_login login_open
