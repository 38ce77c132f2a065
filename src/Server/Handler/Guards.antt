-- ===== src/Server/Handler/Guards.antt =====
-- Which requests a handler refuses, and that a refused request does nothing but answer.
use smc_server_client.Common.{
  true, false, not, ◌&&◌, Option, none, some, [], Bytes, ltb, if◌then◌else◌, Bool-cases, inl, inr,
  Fallible, bind-some, bind-none, ◌>>◌, ◌≡◌, refl, ◌∙◌,
}
use smc_server_client.Wire.{is_error}
use smc_server_client.Version.{combine}
use smc_server_client.Network.{Transport, send_buffer}
use smc_server_client.Protocol.Response.{
  ResponseError, version_too_old, not_logged, invalid_permissions, invalid_request_data,
}
use smc_server_client.Protocol.Roles.{role_code}
use smc_server_client.Server.Reply.{ResponseBuilder, new_response, build_normal, build_error}
use smc_server_client.Server.Handler.{
  Requirements, Client, Rh, fail_with, check_version, check_must_be_logged, check_min_role,
  check_requirements, report_invalid_request, send_response, send_if_unsent, run,
}

-- The first requirement that a client does not meet.
abbrev pub refusal : Requirements → Client → Option ResponseError
refusal requirements client =
    if ltb (combine client.version) (combine requirements.min_version)
    then some version_too_old
    else if requirements.must_be_logged && not client.is_logged
    then some not_logged
    else if ltb (role_code client.user.role) (role_code requirements.min_role)
    then some invalid_permissions
    else none

module _ {S : Type 0} where
  abbrev answer : Option ResponseError → Fallible (Rh S) Unit
  answer none h = (some tt, h)
  answer (some id) h = fail_with id h

  check_requirements-refusal :
      (required : Requirements) (h : Rh S)
      → check_requirements required h ≡ answer (refusal required h.session.client) h
  unfolding check_requirements check_version check_must_be_logged check_min_role
  check_requirements-refusal required h =
      let client = h.session.client in
      let later = check_must_be_logged required >> check_min_role required in
      let passed : ltb (combine client.version) (combine required.min_version) ≡ false
          → check_requirements required h ≡ later h =
        λ recent.
          bind-some (check_version required) (λ _. later) {s = h} {s' = h} (rw recent refl) in
      let named : (required.must_be_logged && not client.is_logged) ≡ false
          → later h ≡ check_min_role required h =
        λ known.
          bind-some (check_must_be_logged required) (λ _. check_min_role required) {s = h} {s' = h}
            (rw known refl) in
      elim (Bool-cases (ltb (combine client.version) (combine required.min_version))) [
        | inl old ↦ rw old (bind-none (check_version required) (λ _. later) (rw old refl))
        | inr recent ↦ elim (Bool-cases (required.must_be_logged && not client.is_logged)) [
          | inl unknown ↦
              rw (recent, unknown)
                (passed recent
                  ∙ bind-none (check_must_be_logged required) (λ _. check_min_role required)
                      (rw unknown refl))
          | inr known ↦
              elim (Bool-cases (ltb (role_code client.user.role) (role_code required.min_role))) [
                | inl low ↦ rw (recent, known, low) (passed recent ∙ named known ∙ rw low refl)
                | inr high ↦ rw (recent, known, high) (passed recent ∙ named known ∙ rw high refl)
              ]
        ]
      ]

module _ {S : Type 0} (net : Transport S) (required : Requirements) (body : Rh S → Rh S)
    (h : Rh S) where
  -- The body runs on a fresh response, and what it leaves is reported and sent.
  pub run-accepted :
      refusal required h.session.client ≡ none
      → run net required body h
        ≡ send_if_unsent net
            (report_invalid_request (body (record h { response = build_normal h.response })))
  unfolding run build_normal
  run-accepted accepted =
      rw
        (
          check_requirements-refusal required (record h { response = build_normal h.response }),
          accepted,
        )
        refl

  abbrev begun : Rh S
  begun = record h { response = build_normal h.response }

  -- A handler whose requirements the client meets runs its body on a fresh response, and exactly one
  -- answer is then sent: where the body has sent one itself, nothing more; else the error of invalid
  -- data with the reason where the request was not read as it should, and else the body's response.
  -- Besides, the session is as the body left it.
  pub run-answers :
      refusal required h.session.client ≡ none
      → let done : Rh S = body begun in
        let reply : Bytes =
          if is_error done.request
          then (build_error invalid_request_data done.request.last_error new_response).bytes
          else done.response.bytes in
        let ran : Rh S = run net required body h in
        (ran.response_sent ≡ true)
        × (ran.session ≡ (
            if done.response_sent
            then done.session
            else record done.session { socket = (send_buffer net reply done.session.socket).1 }))
  unfolding report_invalid_request send_if_unsent send_response build_error
  run-answers accepted =
      let done : Rh S = body begun in
      rw (run-accepted accepted) (elim (Bool-cases done.response_sent) [
        | inl sent ↦ elim (Bool-cases (is_error done.request)) [
          | inl bad ↦ rw (bad, sent) (refl, refl)
          | inr good ↦ rw (good, sent) (refl, refl)
        ]
        | inr unsent ↦ elim (Bool-cases (is_error done.request)) [
          | inl bad ↦ rw (bad, unsent) (refl, refl)
          | inr good ↦ rw (good, unsent) (refl, refl)
        ]
      ])

  -- A handler whose requirements the client does not meet never runs its body: it sends the error of the
  -- first requirement that is not met, and leaves the session as it is but for the socket. The handler
  -- is a new one: its request has no error yet and it has sent nothing.
  pub run-refused :
      {id : ResponseError}
      → refusal required h.session.client ≡ some id
      → is_error h.request ≡ false
      → h.response_sent ≡ false
      → let reply : ResponseBuilder = build_error id [] (build_normal h.response) in
        run net required body h ≡ record h {
          response = reply;
          response_sent = true;
          session = record h.session { socket = (send_buffer net reply.bytes h.session.socket).1 };
        }
  unfolding run build_error send_if_unsent send_response report_invalid_request
  run-refused refused fresh unsent =
      rw
        (
          check_requirements-refusal required (record h { response = build_normal h.response }),
          refused,
          fresh,
          unsent,
        )
        refl
