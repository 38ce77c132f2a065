-- ===== src/Protocol/Codes.antt =====
-- A byte of the wire and the enumeration value that it is cast to stand for one another.
use smc_server_client.Common.{ℕ, ◌≡◌, arith}
use smc_server_client.Protocol.Request.{request_code, request_of_code}
use smc_server_client.Protocol.Response.{error_code, error_of_code}
use smc_server_client.Protocol.Roles.{role_code, role_of_code}
use smc_server_client.Protocol.Files.{file_type_code, file_type_of_code}

request_code-of_code : (n : ℕ) → request_code (request_of_code n) ≡ n
unfolding request_code request_of_code
request_code-of_code n = ground arith

error_code-of_code : (n : ℕ) → error_code (error_of_code n) ≡ n
unfolding error_code error_of_code
error_code-of_code n = ground arith

role_code-of_code : (n : ℕ) → role_code (role_of_code n) ≡ n
unfolding role_code role_of_code
role_code-of_code n = ground arith

file_type_code-of_code : (n : ℕ) → file_type_code (file_type_of_code n) ≡ n
unfolding file_type_code file_type_of_code
file_type_code-of_code n = ground arith

-- Casting a byte to a request, an error, a role or a file type and back gives the byte, named by the
-- enumeration or not.
pub code-of_code :
    (n : ℕ)
    → (request_code (request_of_code n) ≡ n)
      × (error_code (error_of_code n) ≡ n)
      × (role_code (role_of_code n) ≡ n)
      × (file_type_code (file_type_of_code n) ≡ n)
code-of_code n =
    (request_code-of_code n, error_code-of_code n, role_code-of_code n, file_type_code-of_code n)
