-- ===== src/Server/Session/Start.antt =====
-- The start of a session, Client::startCommunication of Server/src/network/client.cpp.
use smc_server_client.Common.{
  ℕ, Bool, false, ◌&&◌, Option, none, some, ◌∷◌, Bytes, ◌==◌, length, if◌then◌else◌,
}
use smc_server_client.Version.{Version}
use smc_server_client.Network.{Transport, send_int}
use smc_server_client.Protocol.Request.{RequestId}
use smc_server_client.Server.Handler.{Session, Rh}
use smc_server_client.Server.Requests.{Popen}
use smc_server_client.Server.Session.{check_client_version, serve}

abbrev pub is_welcome_message : Bytes → Bool
is_welcome_message (a ∷ b ∷ c ∷ message) = a == b'S' && (b == b'M' && c == b'C')
is_welcome_message _ = false

-- `read_some` of Boost.Asio takes up to three bytes; `none` is a set error code.
abbrev pub is_welcome : Option Bytes → Bool
is_welcome none = false
is_welcome (some message) = if length message == 3 then is_welcome_message message else false

module _ {S : Type 0} (net : Transport S) (read_some : S → Option Bytes × S) (popen : Popen S)
    (run_io : RequestId → Rh S → Rh S) (min_version max_version : Version) where
  unfoldable pub check_welcome_message : Session S → Bool × Session S
  check_welcome_message session =
      let (r, s) = read_some session.socket in (is_welcome r, record session { socket = s })

  -- `startCommunication` with a number of turns of its loop, and `start`, which ends disconnected.
  unfoldable pub start_communication : ℕ → Session S → Session S
  unfolding check_welcome_message
  start_communication turns session =
      let (welcome, session') = check_welcome_message session in
      let (sent, s) = send_int net 1 (if welcome then 1 else 0) session'.socket in
      let answered = record session' { socket = s } in
      if welcome && sent
      then serve net popen run_io turns (check_client_version net min_version max_version answered)
      else answered

  unfoldable pub start : ℕ → Session S → Session S
  unfolding start_communication
  start turns session =
      let ended = start_communication turns session in
      record ended { client = record ended.client { is_connected = false } }
