-- ===== src/Client/Handler.antt =====
-- src/network/request/handler.cpp: what every request handler of the client shares.
use smc_server_client.Common.{
  ℕ, Option, none, some, [], Bytes, ◌==◌, if◌then◌else◌, Fallible, ◌>>=◌, ◌>>◌,
}
use smc_server_client.Wire.{
  Analyzer, new_analyzer, Extract, set_data, clear_error, extract_int, extract_string, insert_int,
}
use smc_server_client.Network.{Transport, send_buffer, read_buffer}
use smc_server_client.Protocol.Request.{RequestId, request_code}
use smc_server_client.Protocol.Response.{ResponseError, error_of_code, ok, error, type_code}

-- A handler of the client: `printed` is the error of the server that it has shown.
pub record ClientRh (S : Type 0) : Type 0 where
  pub request : Bytes
  pub response : Analyzer
  pub socket : S
  pub printed : Option (ResponseError × Bytes)

-- The constructor with the id, and the insertion that `run` begins with.
abbrev pub new_request : {S : Type 0} → RequestId → S → ClientRh S
new_request id s = record {
  request = insert_int 1 (request_code id) [];
  response = new_analyzer;
  socket = s;
  printed = none;
}

module _ {S : Type 0} where
  abbrev pub inserting : (Bytes → Bytes) → Fallible (ClientRh S) Unit
  inserting f h = (some tt, record h { request = f h.request })

  abbrev pub reading : {A : Type 0} → Extract A → Fallible (ClientRh S) A
  reading m h = let (r, a) = m h.response in (r, record h { response = a })

  unfoldable pub print_response_error : ResponseError → Bytes → Fallible (ClientRh S) Unit
  print_response_error error_id precision_msg h = (
    some tt,
    record h { response = clear_error h.response; printed = some (error_id, precision_msg) },
  )

  unfoldable pub process_response_error : Fallible (ClientRh S) Unit
  process_response_error = do
    error_id ← reading (extract_int 1)
    precision_msg ← reading (extract_string 2)
    print_response_error (error_of_code error_id) precision_msg

  unfoldable pub check_response_type : ℕ → Fallible (ClientRh S) Unit
  check_response_type response_type h =
      if response_type == type_code error
      then (none, (process_response_error h).1)
      else if response_type == type_code ok
      then (some tt, h)
      else (none, h)

module _ {S : Type 0} (net : Transport S) where
  unfoldable pub send_request : Fallible (ClientRh S) Unit
  send_request h =
      let (sent, s) = send_buffer net h.request h.socket in
      (if sent then some tt else none, record h { socket = s })

  unfoldable pub read_response : Fallible (ClientRh S) Unit
  read_response h =
      let (r, s) = read_buffer net h.socket in
      elim r [
        | none ↦ (none, record h { socket = s })
        | some buffer ↦ (some tt, record h { response = set_data buffer h.response; socket = s })
      ]

  unfoldable pub check_response : Fallible (ClientRh S) Unit
  check_response = do
    read_response
    response_type ← reading (extract_int 1)
    check_response_type response_type
