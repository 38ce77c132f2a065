-- ===== src/Client/Requests.antt =====
-- src/network/request/handlers: login.cpp, logout.cpp, get_version.cpp, run_syscmd.cpp and
-- restart_server.cpp. A setter of the source is an argument, and a getter is the result.
use smc_server_client.Common.{ℕ, Bytes, Fallible, ◌>>=◌, ◌>>◌, pure}
use smc_server_client.Wire.{extract_int, extract_string, insert_int, insert_string}
use smc_server_client.Version.{Version, set_from_combined}
use smc_server_client.Network.{Transport}
use smc_server_client.Protocol.Roles.{Role, role_of_code}
use smc_server_client.Client.Handler.{ClientRh, inserting, reading, send_request, check_response}

module _ {S : Type 0} where
  unfoldable pub insert_user_infos : Bytes → Bytes → Fallible (ClientRh S) Unit
  insert_user_infos name password =
      inserting (λ b. insert_string 1 password (insert_string 1 name b))

  unfoldable pub extract_user_role : Fallible (ClientRh S) Role
  extract_user_role = do byte ← reading (extract_int 1); pure (role_of_code byte)

module _ {S : Type 0} (net : Transport S) where
  unfoldable pub request_login : Bytes → Bytes → Fallible (ClientRh S) Role
  request_login name password =
      insert_user_infos name password
      >> (send_request net >> (check_response net >> extract_user_role))

  unfoldable pub request_logout : Fallible (ClientRh S) Unit
  request_logout = send_request net >> check_response net

  unfoldable pub request_version : Fallible (ClientRh S) Version
  request_version = do
    send_request net
    check_response net
    combined ← reading (extract_int 8)
    pure (set_from_combined combined)

  unfoldable pub request_syscmd : Bytes → Fallible (ClientRh S) Bytes
  request_syscmd command = do
    inserting (insert_string 4 command)
    send_request net
    check_response net
    reading (extract_string 4)

  unfoldable pub request_restart : ℕ → Fallible (ClientRh S) Unit
  request_restart restart_mode = do
    inserting (insert_int 1 restart_mode)
    send_request net
    check_response net
