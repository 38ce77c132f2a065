-- ===== src/Client/Login.antt =====
-- A login from end to end: the request of the client, the session of the server, the answer.
use smc_server_client.Common.{
  ℕ, ◌+◌, ◌^◌, ◌<◌, true, Option, none, some, [], ◌++◌, Bytes, length, drop-drop, drop-append,
  text_eq, text_eq_iff, ◌>>◌, pure, bind-some, ◌≡◌, refl, sym, ap, ◌∙◌, arith, append-nil,
  append_assoc, length-append, if◌then◌else◌,
}
use smc_server_client.Wire.{
  Analyzer, new_analyzer, set_data, is_error, extract_int, extract_string, insert_int,
  insert_string,
}
use smc_server_client.Wire.Digits.{le_bytes}
use smc_server_client.Wire.Analyze.{IsValid, unread, advance, advance-IsValid, unread-advance}
use smc_server_client.Wire.RoundTrip.{insert_int-le_bytes, insert_buffer-fits, extract_int-le_bytes}
use smc_server_client.Network.{Transport, send_buffer, read_buffer}
use smc_server_client.Network.Stream.{IsStream}
use smc_server_client.Network.Delivery.{frame, send_buffer-pending, read_buffer-pending}
use smc_server_client.Protocol.Request.{RequestId, login, request_code, request_of_code}
use smc_server_client.Protocol.Roles.{role_code, role_of_code}
use smc_server_client.Server.Users.{User, get, set}
use smc_server_client.Server.Reply.{new_response, build_normal}
use smc_server_client.Server.Handler.{
  Session, Rh, report_invalid_request, send_if_unsent, send_response,
}
use smc_server_client.Server.Handler.Guards.{refusal, run-accepted}
use smc_server_client.Server.Requests.{Popen}
use smc_server_client.Server.Requests.Login.{run_login-right_password}
use smc_server_client.Server.Session.{
  anyone, requirements, body, new_handler, process_received_request, handle_new_request,
}
use smc_server_client.Client.Handler.{ClientRh, new_request, reading, send_request, check_response}
use smc_server_client.Client.Requests.{insert_user_infos, extract_user_role}
use smc_server_client.Client.Answers.{
  extract_string-le_bytes, build_normal-bytes, check_response-build_normal, holding, keep,
}

abbrev pub credentials : Bytes → Bytes → Bytes
credentials name password =
    le_bytes 1 (length name) ++ (name ++ (le_bytes 1 (length password) ++ password))

abbrev pub login_message : Bytes → Bytes → Bytes
login_message name password = le_bytes 1 (request_code login) ++ credentials name password

module _ (name password : Bytes) (k : length name < 2 ^ 8) (l : length password < 2 ^ 8) where
  length-credentials : length (credentials name password) ≡ 2 + length name + length password
  length-credentials = omega (arith, length-append name (le_bytes 1 (length password) ++ password))

  request-login_message :
      insert_string 1 password (insert_string 1 name (insert_int 1 (request_code login) []))
      ≡ login_message name password
  unfolding insert_string
  request-login_message =
      let code = le_bytes 1 (request_code login) in
      let told = le_bytes 1 (length password) ++ password in
      insert_buffer-fits 1 password _ l
      ∙ ap (λ t. t ++ told)
          (insert_buffer-fits 1 name _ k
            ∙ ap (λ t. t ++ (le_bytes 1 (length name) ++ name))
                (insert_int-le_bytes 1 (request_code login) []))
      ∙ append_assoc code (le_bytes 1 (length name) ++ name) told
      ∙ ap (λ t. code ++ t) (append_assoc (le_bytes 1 (length name)) name told)

  -- The server reads the name and the password that the client has inserted.
  abbrev start : Analyzer
  start = set_data (credentials name password) new_analyzer

  start-IsValid : IsValid start
  unfolding set_data
  start-IsValid = record { within = omega arith; in_memory = omega (arith, length-credentials) }

  abbrev named : Analyzer
  named = advance (1 + length name) start

  name_read : extract_string 1 start ≡ (some name, named)
  unfolding set_data
  name_read =
      extract_string-le_bytes start start-IsValid 1 name (le_bytes 1 (length password) ++ password)
        k refl

  password_read : extract_string 1 named ≡ (some password, advance (1 + length password) named)
  unfolding set_data
  password_read =
      let told = le_bytes 1 (length password) ++ password in
      let here : unread named ≡ le_bytes 1 (length password) ++ (password ++ []) =
        unread-advance (1 + length name) start
        ∙ sym (drop-drop 1 (length name) (credentials name password))
        ∙ drop-append (length name) name told refl
        ∙ ap (λ t. le_bytes 1 (length password) ++ t) (sym (append-nil password)) in
      extract_string-le_bytes named
        (advance-IsValid (1 + length name) start start-IsValid (omega (arith, length-credentials)))
        1 password [] l here

abbrev pub fresh : User → User
fresh user = record user { wrong_password_count = 0 }

-- What the server answers, and the session that a login then leaves.
abbrev pub welcome : User → Bytes
welcome user = insert_int 1 (role_code user.role) (build_normal new_response).bytes

abbrev pub welcomed : {S : Type 0} → Transport S → Session S → User → Session S
welcomed net session user = record session {
  client = record session.client { user = fresh user; is_logged = true };
  users = (set (fresh user) session.users).1;
  socket = (send_buffer net (welcome user) session.socket).1;
}

module _ {S : Type 0} (net : Transport S) (popen : Popen S) (run_io : RequestId → Rh S → Rh S)
    (session : Session S) (name : Bytes) (user : User) where
  pub process_received_request-login :
      length name < 2 ^ 8
      → length user.password < 2 ^ 8
      → refusal anyone session.client ≡ none
      → get name session.users ≡ user
      → user.is_valid ≡ true
      → process_received_request net popen run_io login (credentials name user.password) session
        ≡ welcomed net session user
  unfolding process_received_request requirements body report_invalid_request send_if_unsent
      send_response is_error set_data
  process_received_request-login k l free found valid =
      let password = user.password in
      let h : Rh S = new_handler (credentials name password) session in
      let begun : Rh S = record h { response = build_normal h.response } in
      let same : text_eq password password ≡ true = (text_eq_iff password password).1 refl in
      ap (λ t. t.session)
        (run-accepted net anyone (body net popen run_io login) h free
          ∙ ap (λ t. send_if_unsent net (report_invalid_request t))
              (run_login-right_password begun (name_read name password k l)
                (password_read name password k l) found valid same))

module _ {S : Type 0} {net : Transport S} {pending : S → Bytes} (up : IsStream net pending)
    (popen : Popen S) (run_io : RequestId → Rh S → Rh S) (session : Session S) (name : Bytes)
    (user : User) (s : S) (k : length name < 2 ^ 8) (l : length user.password < 2 ^ 8)
    (quiet : pending s ≡ []) where
  message : Bytes
  message = login_message name user.password

  sent : S
  sent = (send_buffer net message s).1

  message-small : length message < 2 ^ 32
  unfolding message
  message-small = omega (arith, length-credentials name user.password k l)

  wire : pending sent ≡ frame message ++ []
  unfolding sent
  wire =
      (send_buffer-pending up message s message-small).1
      ∙ ap (λ t. t ++ frame message) quiet
      ∙ sym (append-nil (frame message))

  client_sends :
      (insert_user_infos name user.password >> send_request net) (new_request login s)
      ≡ (some tt, record (new_request login s) { request = message; socket = sent })
  unfolding insert_user_infos send_request message sent
  client_sends =
      let all = request-login_message name user.password k l in
      bind-some (insert_user_infos name user.password) (λ _. send_request net) refl
      ∙ ap {B = Option Unit × ClientRh S}
          (λ m. (
            if (send_buffer net m s).0 then some tt else none,
            record (new_request login s) { request = m; socket = (send_buffer net m s).1 },
          ))
          all
      ∙ ap {B = Option Unit × ClientRh S}
          (λ b. (
            if b then some tt else none,
            record (new_request login s) { request = message; socket = sent },
          ))
          (send_buffer-pending up message s message-small).0

  server_handles :
      refusal anyone session.client ≡ none
      → get name session.users ≡ user
      → user.is_valid ≡ true
      → handle_new_request net popen run_io (record session { socket = sent })
        ≡ welcomed net (record session { socket = (read_buffer net sent).1 }) user
  unfolding handle_new_request message request_code request_of_code
  server_handles free found valid =
      let arrives = read_buffer-pending up message [] sent message-small wire in
      rw (arrives.0, handle_new_request)
        (process_received_request-login net popen run_io
          (record session { socket = (read_buffer net sent).1 }) name user k l free found valid)

  abbrev answered : ClientRh S
  answered = record (new_request login s) {
    request = message;
    socket = (send_buffer net (welcome user) (read_buffer net sent).1).1;
  }

  client_receives :
      role_code user.role < 2 ^ 8
      → ((check_response net >> extract_user_role) answered).0
        ≡ some (role_of_code (role_code user.role))
  unfolding extract_user_role set_data
  client_receives m =
      let role = le_bytes 1 (role_code user.role) in
      let shape : welcome user ≡ (build_normal new_response).bytes ++ role =
        insert_int-le_bytes 1 (role_code user.role) _ in
      let whole : welcome user ≡ le_bytes 1 0 ++ role =
        shape ∙ ap (λ t. t ++ role) (build_normal-bytes new_response) in
      let small : length (welcome user) < 2 ^ 32 = omega (arith, ap length whole) in
      let emptied = (read_buffer-pending up message [] sent message-small wire).1 in
      let back : pending answered.socket ≡ frame (welcome user) ++ [] =
        (send_buffer-pending up (welcome user) (read_buffer net sent).1 small).1
        ∙ ap (λ t. t ++ frame (welcome user)) emptied
        ∙ sym (append-nil (frame (welcome user))) in
      let checked =
        check_response-build_normal up answered (welcome user) [] small back new_response role
          shape in
      let held = holding net answered (welcome user) 1 in
      let valid : IsValid held.response = record {
        within = omega (arith, ap length whole);
        in_memory = omega arith;
      } in
      ap (λ t. t.0)
        (bind-some (check_response net) (λ _. extract_user_role) checked.0
          ∙ bind-some (reading (extract_int 1)) (λ byte. pure (role_of_code byte))
              (ap (keep {A = ℕ} held) (
                extract_int-le_bytes held.response valid 1 (role_code user.role) [] m
                  (checked.1 ∙ sym (append-nil role)))))

  -- A login from end to end: over a connection that is up and quiet, to a server that the version of the
  -- client is not too old for, the client sends the name and the password of a user that the server
  -- has; the server takes the request, and its client is then logged in as that user; and the role that
  -- the client reads in the answer is the user's. The name and the password are shorter than 256 bytes,
  -- and the role is one that the enumeration names.
  pub login-end_to_end :
      refusal anyone session.client ≡ none
      → get name session.users ≡ user
      → user.is_valid ≡ true
      → role_code user.role < 2 ^ 8
      → role_of_code (role_code user.role) ≡ user.role
      → let asked =
          (insert_user_infos name user.password >> send_request net) (new_request login s) in
        let served =
          handle_new_request net popen run_io (record session { socket = asked.1.socket }) in
        (asked.0 ≡ some tt)
        × (served.client ≡ record session.client { user = fresh user; is_logged = true })
        × (((check_response net >> extract_user_role) (record asked.1 { socket = served.socket })).0
            ≡ some user.role)
  login-end_to_end free found valid m known =
      rw client_sends
        (rw (server_handles free found valid) (refl, refl, client_receives m ∙ ap some known))
