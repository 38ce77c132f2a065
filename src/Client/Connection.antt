-- ===== src/Client/Connection.antt =====
-- src/network/client.cpp: the connection to the server, from the welcome message to the end.
pub mod Exchange
use smc_server_client.Common.{
  ℕ, ◌*◌, Bool, true, false, Option, none, some, [], ◌∷◌, Bytes, codes, ◌++◌, ltb, ◌==◌,
  if◌then◌else◌, Fallible, ◌>>◌,
}
use smc_server_client.Version.{Version, version, combine, set_from_combined}
use smc_server_client.Paths.{FilePath, no_path, path_of, name_path, ◌/path◌}
use smc_server_client.Network.{Transport, send_int, read_int, send_buffer}
use smc_server_client.Protocol.Request.{request_code, quit}
use smc_server_client.Protocol.Roles.{Role, user, admin, developer, no_role}

-- `VERSION` of Client/include/constants.hpp.
abbrev pub client_version : Version
client_version = version 1 0 0

pub record User : Type 0 where
  pub name : Bytes
  pub password : Bytes
  pub role : Role
  pub current_dir : FilePath

abbrev pub no_user : User
no_user = record { name = []; password = []; role = no_role; current_dir = no_path }

-- `buildUser` of src/network/request/handlers/login.cpp: where a user begins.
abbrev pub perso : Bytes → FilePath
perso name = path_of (codes "perso." ++ name)

abbrev pub first_dir : Role → Bytes → FilePath → FilePath
first_dir user name current = perso name
first_dir admin name current = name_path (codes "network") /path perso name
first_dir developer name current = path_of (b'C' ∷ b':' ∷ 92 ∷ [])
first_dir _ name current = current

unfoldable pub build_user : User → User
build_user u = record u { current_dir = first_dir u.role u.name u.current_dir }

-- What `printVersionsMessage` prints.
pub data VersionsMessage : Type 0 where
  server_too_old client_too_old version_ok : VersionsMessage

pub record Client (S : Type 0) : Type 0 where
  pub server_ver : Version
  pub min_client_version : Version
  pub max_client_version : Version
  pub socket : S
  pub user : User
  pub is_logged : Bool
  pub is_connected : Bool
  pub shown : Option VersionsMessage

abbrev pub new_client : {S : Type 0} → S → Client S
new_client s = record {
  server_ver = version 0 0 0;
  min_client_version = version 0 0 0;
  max_client_version = version 0 0 0;
  socket = s;
  user = no_user;
  is_logged = false;
  is_connected = false;
  shown = none;
}

unfoldable pub versions_message : Version → Version → VersionsMessage
versions_message min_version max_version =
    if ltb (combine max_version) (combine client_version)
    then server_too_old
    else if ltb (combine client_version) (combine min_version)
    then client_too_old
    else version_ok

module _ {S : Type 0} where
  abbrev pub reset_state : Client S → Client S
  reset_state c = record c { user = no_user; is_logged = false; is_connected = false }

  unfoldable pub print_versions_message : Fallible (Client S) Unit
  print_versions_message c = (
    some tt,
    record c { shown = some (versions_message c.min_client_version c.max_client_version) },
  )

module _ {S : Type 0} (net : Transport S) where
  -- `readVersion`, which sets one of the fields.
  unfoldable pub read_version : (Version → Client S → Client S) → Fallible (Client S) Unit
  read_version set c =
      let (r, s) = read_int net 8 c.socket in
      elim r [
        | none ↦ (none, record c { socket = s })
        | some ver_int ↦ (some tt, set (set_from_combined ver_int) (record c { socket = s }))
      ]

  unfoldable pub send_version : Fallible (Client S) Unit
  send_version c =
      let (sent, s) = send_int net 8 (combine client_version) c.socket in
      (if sent then some tt else none, record c { socket = s })

  abbrev pub set_server_ver : Version → Client S → Client S
  set_server_ver v c = record c { server_ver = v }

  abbrev pub set_min : Version → Client S → Client S
  set_min v c = record c { min_client_version = v }

  abbrev pub set_max : Version → Client S → Client S
  set_max v c = record c { max_client_version = v }

  unfoldable pub read_versions : Fallible (Client S) Unit
  read_versions =
      read_version set_server_ver
      >> (read_version set_min >> (read_version set_max >> print_versions_message))

  unfoldable pub check_version : Fallible (Client S) Unit
  unfolding send_version read_versions
  check_version = send_version >> read_versions

  -- The answer to the welcome message is a `bool`, of one byte; a write that throws is not modelled.
  unfoldable pub check_welcome_message : Fallible (Client S) Unit
  check_welcome_message c =
      let (written, s) = net.write (b'S' ∷ b'M' ∷ b'C' ∷ []) c.socket in
      let (r, s') = read_int net 1 s in
      let answer = λ (response : ℕ). if response == 0 then none else some (tt {0}) in
      elim r [
        | none ↦ (none, record c { socket = s' })
        | some response ↦ (answer response, record c { socket = s' })
      ]

  -- `connect`; `connect_to_server` is the resolution and the connection that Boost.Asio makes.
  unfoldable pub connect : (S → Bool × S) → Client S → Bool × Client S
  connect connect_to_server client =
      let (connected, s) = connect_to_server client.socket in
      let begun = record (reset_state client) { is_connected = connected; socket = s } in
      let (welcome, c) = check_welcome_message begun in
      if connected
      then elim welcome [ none ↦ (false, c) | some v ↦ (true, (check_version c).1) ]
      else (false, begun)

  -- `close`, without the end of the socket.
  unfoldable pub close : Client S → Client S
  close client = record (reset_state client) {
    socket = (send_buffer net (request_code quit ∷ 0 ∷ []) client.socket).1;
  }
