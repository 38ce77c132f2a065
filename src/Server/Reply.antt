-- ===== src/Server/Reply.antt =====
-- Server/src/network/response/builder.cpp: the response that a handler builds.
use smc_server_client.Common.{[], Bytes}
use smc_server_client.Wire.{Analyzer, insert_int, insert_string}
use smc_server_client.Protocol.Response.{
  ResponseType, ok, error, type_code, ResponseError, error_code, error_of_code,
  invalid_request_data,
}

pub record ResponseBuilder : Type 0 where
  pub bytes : Bytes
  pub type : ResponseType
  pub error_id : ResponseError
  pub error_message : Bytes

abbrev pub new_response : ResponseBuilder
new_response = record { bytes = []; type = ok; error_id = error_of_code 0; error_message = [] }

-- The insertions that `ArrayBuilder` gives the response.
abbrev pub insert : (Bytes → Bytes) → ResponseBuilder → ResponseBuilder
insert f r = record r { bytes = f r.bytes }

unfoldable pub insert_type : ResponseBuilder → ResponseBuilder
insert_type r = insert (insert_int 1 (type_code r.type)) r

unfoldable pub build_normal : ResponseBuilder → ResponseBuilder
unfolding insert_type
build_normal r = insert_type (record r { bytes = []; type = ok })

unfoldable pub build_error : ResponseError → Bytes → ResponseBuilder → ResponseBuilder
unfolding insert_type
build_error id precision_msg r =
    let typed =
      insert_type
        (record r { bytes = []; type = error; error_id = id; error_message = precision_msg }) in
    insert (λ b. insert_string 2 precision_msg (insert_int 1 (error_code id) b)) typed

unfoldable pub build_error_from_invalid_request : Analyzer → ResponseBuilder → ResponseBuilder
unfolding build_error
build_error_from_invalid_request request r = build_error invalid_request_data request.last_error r
