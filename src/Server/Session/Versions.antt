-- ===== src/Server/Session/Versions.antt =====
-- The exchange of versions at the start of a session, Client::checkVersion of
-- Server/src/network/client.cpp.
use smc_server_client.Common.{◌^◌, ◌<◌, ◌++◌, Bytes, ◌≡◌, ap, ◌∙◌, arith, append_assoc}
use smc_server_client.Wire.Digits.{le_bytes}
use smc_server_client.Version.{Version, IsVersion, combine}
use smc_server_client.Version.Order.{set_from_combined-combine}
use smc_server_client.Network.{Transport, send_int, read_int}
use smc_server_client.Network.Stream.{IsStream}
use smc_server_client.Network.Delivery.{send_int-pending, read_int-pending}
use smc_server_client.Server.Handler.{Session}
use smc_server_client.Server.Session.{server_version, send_versions, check_client_version}

pub combine_small : (v : Version) → IsVersion v → combine v < 256 ^ 8
unfolding combine
combine_small v h = omega arith

-- The three versions that the server answers, as they stand on the wire.
abbrev pub answered_versions : Version → Version → Bytes
answered_versions client_min_version client_max_version =
    le_bytes 8 (combine server_version)
    ++ (le_bytes 8 (combine client_min_version) ++ le_bytes 8 (combine client_max_version))

module _ {S : Type 0} {net : Transport S} {pending : S → Bytes} (up : IsStream net pending)
    (client_min_version client_max_version : Version) where
  send_versions-pending :
      (s : S)
      → pending (send_versions net client_min_version client_max_version s)
        ≡ pending s ++ answered_versions client_min_version client_max_version
  unfolding send_versions
  send_versions-pending s =
      let first = send_int-pending up 8 (combine server_version) s in
      let s1 = (send_int net 8 (combine server_version) s).1 in
      let second = send_int-pending up 8 (combine client_min_version) s1 in
      let s2 = (send_int net 8 (combine client_min_version) s1).1 in
      let third = send_int-pending up 8 (combine client_max_version) s2 in
      let a = le_bytes 8 (combine server_version) in
      let b = le_bytes 8 (combine client_min_version) in
      let c = le_bytes 8 (combine client_max_version) in
      rw (first.0, second.0)
        (third.1
          ∙ ap (λ t. t ++ c) (second.1 ∙ ap (λ t. t ++ b) first.1)
          ∙ append_assoc (pending s ++ a) b c
          ∙ append_assoc (pending s) a (b ++ c))

  -- Over a connection that is up, a client whose version is in front of what is in flight is known by
  -- exactly that version, nothing else of the session changes but the socket, and the server's version
  -- and the least and the greatest version for clients stand, in this order, behind the rest of what
  -- is in flight.
  pub check_client_version-pending :
      (session : Session S) (v : Version) (rest : Bytes)
      → IsVersion v
      → pending session.socket ≡ le_bytes 8 (combine v) ++ rest
      → let checked = check_client_version net client_min_version client_max_version session in
        (checked ≡ record session {
          client = record session.client { version = v };
          socket = checked.socket;
        })
        × (pending checked.socket ≡ rest ++ answered_versions client_min_version client_max_version)
  unfolding check_client_version
  check_client_version-pending session v rest h wire =
      let arrives =
        read_int-pending up 8 (combine v) rest session.socket (combine_small v h) wire in
      let s = (read_int net 8 session.socket).1 in
      let known = set_from_combined-combine v h in
      rw (arrives.0, check_client_version)
        (
          ap
              (λ w. record session {
                client = record session.client { version = w };
                socket = send_versions net client_min_version client_max_version s;
              })
              known,
          send_versions-pending s
              ∙ ap (λ t. t ++ answered_versions client_min_version client_max_version) arrives.1,
        )
