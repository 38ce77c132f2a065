-- ===== src/Server/Session/Access.antt =====
-- Who may do what in a session.
use smc_server_client.Common.{
  arith, Bool, true, false, not, ◌&&◌, Option, none, some, [], Bytes, ltb, lt→ltb, Bool-cases, ◌⊎◌,
  ◌<◌, inl, inr, ◌≡◌, ◌≢◌, refl, ap,
}
use smc_server_client.Version.{combine}
use smc_server_client.Network.{Transport, send_buffer}
use smc_server_client.Wire.{set_data, is_error}
use smc_server_client.Protocol.Request.{
  RequestId, get_version, quit, login, io_move_file, io_copy_file, run_syscmd, server_restart,
  other_request,
}
use smc_server_client.Protocol.Response.{
  ResponseError, unknown_request, version_too_old, not_logged, invalid_permissions,
}
use smc_server_client.Protocol.Roles.{role_code, developer}
use smc_server_client.Server.Reply.{new_response, build_error}
use smc_server_client.Server.Handler.{Requirements, Client, Session, Rh}
use smc_server_client.Server.Handler.Guards.{refusal, run-refused}
use smc_server_client.Server.Requests.{Popen}
use smc_server_client.Server.Session.{
  requirements, anyone, logged_user, logged_developer, process_received_request,
  send_response_error, handle, new_handler, body,
}

-- What becomes of a session whose request is refused: an error is sent, without a message, and all
-- else stays, what the machine was asked to run and to restart included.
abbrev pub OnlyRefused : {S : Type 0} → Transport S → Session S → Session S → Type 0
OnlyRefused net before after =
    (id : ResponseError) × (after ≡ record before {
      socket = (send_buffer net (build_error id [] new_response).bytes before.socket).1;
    })

-- The requests that a client may make before it logs in, and those that a developer makes.
abbrev pub needs_no_login : RequestId → Bool
needs_no_login quit = true
needs_no_login login = true
needs_no_login get_version = true
needs_no_login io_move_file = true
needs_no_login io_copy_file = true
needs_no_login _ = false

abbrev pub needs_developer : RequestId → Bool
needs_developer run_syscmd = true
needs_developer server_restart = true
needs_developer _ = false

-- A request has no handler, or one for anyone, or one for who is logged in.
abbrev pub Classified : RequestId → Type 0
Classified request =
    (requirements request ≡ none)
    ⊎ ((requirements request ≡ some anyone)
        ⊎ ((required : Requirements) × (requirements request ≡ some required)
            × (required.must_be_logged ≡ true)))

pub classify : (request : RequestId) → Classified request
unfolding requirements
classify get_version = inr (inl refl)
classify quit = inl refl
classify login = inr (inl refl)
classify io_move_file = inr (inl refl)
classify io_copy_file = inr (inl refl)
classify (other_request code) = inl refl
classify run_syscmd = inr (inr (logged_developer, refl, refl))
classify server_restart = inr (inr (logged_developer, refl, refl))
classify _ = inr (inr (logged_user, refl, refl))

abbrev is_guarded : Option Requirements → Bool
is_guarded none = true
is_guarded (some required) = required.must_be_logged

not_free : (r : RequestId) → needs_no_login r ≡ false → requirements r ≢ some anyone
unfolding requirements
not_free quit c f = absurd (ground arith)
not_free login c f = absurd (ground arith)
not_free get_version c f = absurd (ground arith)
not_free io_move_file c f = absurd (ground arith)
not_free io_copy_file c f = absurd (ground arith)
not_free _ c f = let e = ap is_guarded f in absurd (ground arith)

-- Every other request has no handler, or one for who is logged in.
closed-requirements :
    (request : RequestId)
    → needs_no_login request ≡ false
    → (requirements request ≡ none)
      ⊎ ((required : Requirements) × (requirements request ≡ some required)
          × (required.must_be_logged ≡ true))
closed-requirements request closed = elim (classify request) [
  | inl unknown ↦ inl unknown
  | inr (inl free) ↦ absurd (not_free request closed free)
  | inr (inr known) ↦ inr known
]

-- A client that is not logged in, or whose role is too low, is refused, for this reason or another.
pub refusal-unlogged :
    (required : Requirements) (client : Client)
    → required.must_be_logged ≡ true
    → client.is_logged ≡ false
    → (id : ResponseError) × (refusal required client ≡ some id)
refusal-unlogged required client must unlogged =
    elim (Bool-cases (ltb (combine client.version) (combine required.min_version))) [
      | inl old ↦ (version_too_old, rw old refl)
      | inr recent ↦ (not_logged, rw (recent, must, unlogged) refl)
    ]

refusal-low_role :
    (required : Requirements) (client : Client)
    → role_code client.user.role < role_code required.min_role
    → (id : ResponseError) × (refusal required client ≡ some id)
refusal-low_role required client low =
    elim (Bool-cases (ltb (combine client.version) (combine required.min_version))) [
      | inl old ↦ (version_too_old, rw old refl)
      | inr recent ↦ elim (Bool-cases (required.must_be_logged && not client.is_logged)) [
        | inl unknown ↦ (not_logged, rw (recent, unknown) refl)
        | inr known ↦ (invalid_permissions, rw (recent, known, lt→ltb _ _ low) refl)
      ]
    ]

module _ {S : Type 0} (net : Transport S) (popen : Popen S) (run_io : RequestId → Rh S → Rh S)
    (request_content : Bytes) (session : Session S) where
  pub process-handle :
      (request : RequestId)
      → request ≢ quit
      → process_received_request net popen run_io request request_content session
        ≡ handle net popen run_io (requirements request) request request_content session
  unfolding process_received_request
  process-handle quit other = absurd (other refl)
  process-handle _ other = refl

  handle-refused :
      (request : RequestId) (required : Requirements) {id : ResponseError}
      → refusal required session.client ≡ some id
      → OnlyRefused net session
          (handle net popen run_io (some required) request request_content session)
  unfolding set_data is_error build_error
  handle-refused request required {id = id} refused = (
    id,
    ap (λ h. h.session)
        (run-refused net required (body net popen run_io request)
          (new_handler request_content session) refused refl refl),
  )

  -- A client that is not logged in can only quit, log in, ask for the version, move and copy: whatever
  -- other request it sends, it is answered with an error, and all else of its session stays as it is,
  -- no command is run and no restart set off. This holds for any body of the handlers of files.
  pub process_received_request-unlogged :
      (request : RequestId)
      → session.client.is_logged ≡ false
      → needs_no_login request ≡ false
      → OnlyRefused net session
          (process_received_request net popen run_io request request_content session)
  unfolding send_response_error
  process_received_request-unlogged request unlogged closed =
      let other : request ≢ quit = λ e. (let h = ap needs_no_login e in ground arith) in
      rw (process-handle request other) (elim (closed-requirements request closed) [
        | inl unknown ↦ rw unknown (unknown_request, refl)
        | inr (required, known, must) ↦ rw known (
            handle-refused request required
              (refusal-unlogged required session.client must unlogged).1)
      ])

  developer_requests :
      (request : RequestId)
      → needs_developer request ≡ true
      → (requirements request ≡ some logged_developer) × (request ≢ quit)
  unfolding requirements
  developer_requests run_syscmd needs = (refl, λ e. ground arith)
  developer_requests server_restart needs = (refl, λ e. ground arith)
  developer_requests _ needs = absurd (ground arith)

  -- A client whose role is below developer can neither run a command nor restart the server: it is
  -- answered with an error, and all else of its session stays as it is.
  pub process_received_request-low_role :
      (request : RequestId)
      → needs_developer request ≡ true
      → role_code session.client.user.role < role_code developer
      → OnlyRefused net session
          (process_received_request net popen run_io request request_content session)
  process_received_request-low_role request needs low =
      let (known, other) = developer_requests request needs in
      rw (process-handle request other, known)
        (handle-refused request logged_developer
          (refusal-low_role logged_developer session.client low).1)
