-- ===== src/Client/Connection/Exchange.antt =====
-- The exchange of versions between the client and the server.
use smc_server_client.Common.{
  ◌<◌, true, false, ltb, ltb→lt, ltb→le, Bool-cases, ◌⊎◌, inl, inr, some, [], ◌++◌, Bytes, ◌>>◌,
  bind-some, ◌≡◌, refl, sym, ap, ◌∙◌, arith, append-nil,
}
use smc_server_client.Wire.Digits.{le_bytes}
use smc_server_client.Version.{Version, IsVersion, combine}
use smc_server_client.Version.Order.{set_from_combined-combine, combine_lt}
use smc_server_client.Network.{Transport, send_int, read_int}
use smc_server_client.Network.Stream.{IsStream}
use smc_server_client.Network.Delivery.{send_int-pending, read_int-pending}
use smc_server_client.Server.Handler.{Session}
use smc_server_client.Server.Session.{server_version, check_client_version}
use smc_server_client.Server.Session.Versions.{combine_small, check_client_version-pending}
use smc_server_client.Client.Connection.{
  VersionsMessage, server_too_old, client_too_old, version_ok, Client, client_version,
  versions_message, print_versions_message, read_version, send_version, set_server_ver, set_min,
  set_max, read_versions,
}

-- The order of versions: major, then minor, then patch numbers.
abbrev pub IsOlder : Version → Version → Type 0
IsOlder a b =
    (a.major < b.major)
    ⊎ ((a.major ≡ b.major) × ((a.minor < b.minor) ⊎ ((a.minor ≡ b.minor) × (a.patch < b.patch))))

-- What a message of the client says about itself and the bounds that the server has told.
abbrev pub IsRight : Version → Version → VersionsMessage → Type 0
IsRight min_version max_version server_too_old = IsOlder max_version client_version
IsRight min_version max_version client_too_old =
    (¬ IsOlder max_version client_version) × IsOlder client_version min_version
IsRight min_version max_version version_ok =
    (¬ IsOlder max_version client_version) × (¬ IsOlder client_version min_version)

client_version-IsVersion : IsVersion client_version
client_version-IsVersion = record {
  major_lt = omega arith;
  minor_lt = omega arith;
  patch_lt = omega arith;
}

IsOlder-if :
    (a b : Version) → IsVersion a → IsVersion b → ltb (combine a) (combine b) ≡ true → IsOlder a b
IsOlder-if a b ha hb h = (combine_lt a b ha hb).0 (ltb→lt _ _ h)

not-IsOlder_if :
    (a b : Version)
    → IsVersion a
    → IsVersion b
    → ltb (combine a) (combine b) ≡ false
    → ¬ IsOlder a b
not-IsOlder_if a b ha hb h older =
    let less = (combine_lt a b ha hb).1 older in
    let not_less = ltb→le (combine a) (combine b) h in omega arith

versions_message-IsRight :
    (min_version max_version : Version)
    → IsVersion min_version
    → IsVersion max_version
    → IsRight min_version max_version (versions_message min_version max_version)
unfolding versions_message
versions_message-IsRight min_version max_version hmin hmax =
    let own = client_version-IsVersion in
    elim (Bool-cases (ltb (combine max_version) (combine client_version))) [
      | inl above ↦ rw above (IsOlder-if max_version client_version hmax own above)
      | inr below ↦ elim (Bool-cases (ltb (combine client_version) (combine min_version))) [
        | inl early ↦
            rw (below, early)
              (
                not-IsOlder_if max_version client_version hmax own below,
                IsOlder-if client_version min_version own hmin early,
              )
        | inr late ↦
            rw (below, late)
              (
                not-IsOlder_if max_version client_version hmax own below,
                not-IsOlder_if client_version min_version own hmin late,
              )
      ]
    ]

module _ {S : Type 0} {net : Transport S} {pending : S → Bytes} (up : IsStream net pending) where
  -- A version that is in front of what is in flight is read.
  read_version-pending :
      (set : Version → Client S → Client S) (c : Client S) (v : Version) (rest : Bytes)
      → IsVersion v
      → pending c.socket ≡ le_bytes 8 (combine v) ++ rest
      → (s : S) × (pending s ≡ rest)
        × (read_version net set c ≡ (some tt, set v (record c { socket = s })))
  unfolding read_version
  read_version-pending set c v rest h wire =
      let arrives = read_int-pending up 8 (combine v) rest c.socket (combine_small v h) wire in
      let s = (read_int net 8 c.socket).1 in
      (
        s,
        arrives.1,
        rw (arrives.0, read_version)
            (ap (λ w. (some tt, set w (record c { socket = s }))) (set_from_combined-combine v h)),
      )

  -- The three versions are read in the order in which they stand.
  read_versions-pending :
      (c : Client S) (a b d : Version)
      → IsVersion a
      → IsVersion b
      → IsVersion d
      → pending c.socket
        ≡ le_bytes 8 (combine a) ++ (le_bytes 8 (combine b) ++ le_bytes 8 (combine d))
      → (s : S) × (pending s ≡ [])
        × (read_versions net c ≡ (
          some tt,
          record c {
            server_ver = a;
            min_client_version = b;
            max_client_version = d;
            socket = s;
            shown = some (versions_message b d);
          },
        ))
  unfolding read_versions print_versions_message
  read_versions-pending c a b d ha hb hd wire =
      let (s1, left1, e1) =
        read_version-pending (set_server_ver net) c a
          (le_bytes 8 (combine b) ++ le_bytes 8 (combine d)) ha wire in
      let c1 = record c { server_ver = a; socket = s1 } in
      let (s2, left2, e2) =
        read_version-pending (set_min net) c1 b (le_bytes 8 (combine d)) hb left1 in
      let c2 = record c1 { min_client_version = b; socket = s2 } in
      let (s3, left3, e3) =
        read_version-pending (set_max net) c2 d [] hd
          (left2 ∙ sym (append-nil (le_bytes 8 (combine d)))) in
      let c3 = record c2 { max_client_version = d; socket = s3 } in
      (
        s3,
        left3,
        bind-some (read_version net (set_server_ver net))
              (λ _.
                read_version net (set_min net)
                >> (read_version net (set_max net) >> print_versions_message))
              {s = c} {s' = c1} e1
            ∙ bind-some (read_version net (set_min net))
                (λ _. read_version net (set_max net) >> print_versions_message) {s = c1} {s' = c2}
                e2
            ∙ bind-some (read_version net (set_max net)) (λ _. print_versions_message) {s = c2}
                {s' = c3} e3,
      )

  -- The exchange of versions from end to end, over a connection that is up and quiet: the client sends
  -- its version, the server takes it and answers, and the client reads. Then the server knows exactly
  -- the client's version and the client exactly the server's and the two bounds, nothing is left in flight,
  -- and the client shows that the server is too old where the greatest version for clients is older
  -- than its own, else that it is too old itself where it is older than the least, and else that all
  -- is well.
  pub exchange_versions :
      (client : Client S) (session : Session S) (min_version max_version : Version)
      → IsVersion min_version
      → IsVersion max_version
      → pending client.socket ≡ []
      → let (sent, asked) = send_version net client in
        let served =
          check_client_version net min_version max_version
            (record session { socket = asked.socket }) in
        let (read, informed) = read_versions net (record asked { socket = served.socket }) in
        (sent ≡ some tt)
        × (served.client ≡ record session.client { version = client_version })
        × (read ≡ some tt)
        × ((message : VersionsMessage) × IsRight min_version max_version message
            × (informed ≡ record client {
              server_ver = server_version;
              min_client_version = min_version;
              max_client_version = max_version;
              socket = informed.socket;
              shown = some message;
            }))
        × (pending informed.socket ≡ [])
  unfolding send_version
  exchange_versions client session min_version max_version hmin hmax quiet =
      let own = client_version-IsVersion in
      let sends = send_int-pending up 8 (combine client_version) client.socket in
      let s1 = (send_int net 8 (combine client_version) client.socket).1 in
      let on_wire : pending s1 ≡ le_bytes 8 (combine client_version) ++ [] =
        sends.1
        ∙ ap (λ t. t ++ le_bytes 8 (combine client_version)) quiet
        ∙ sym (append-nil (le_bytes 8 (combine client_version))) in
      let checked =
        check_client_version-pending up min_version max_version (record session { socket = s1 })
          client_version [] own on_wire in
      let served =
        check_client_version net min_version max_version (record session { socket = s1 }) in
      let (s, left, e) =
        read_versions-pending (record client { socket = served.socket }) server_version min_version
          max_version own hmin hmax checked.1 in
      rw (sends.0, e)
        (
          refl,
          ap (λ t. t.client) checked.0,
          refl,
          (
            versions_message min_version max_version,
            versions_message-IsRight min_version max_version hmin hmax,
            refl,
          ),
          left,
        )
