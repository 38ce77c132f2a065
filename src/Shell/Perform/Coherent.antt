-- ===== src/Shell/Perform/Coherent.antt =====
-- src/network/client.cpp and src/shell/commands: the user of a client that is not logged in.
use smc_server_client.Common.{
  Bool, true, false, not, Option, none, some, [], ◌∷◌, Bytes, text_eq, length, ltb, if◌then◌else◌,
  ◌≡◌, refl, arith, Keeps, bind-Keeps, if_holds, elim_holds, ◌>>◌, ◌==◌,
}
use smc_server_client.Paths.{FilePath}
use smc_server_client.Network.{Transport, read_int}
use smc_server_client.Protocol.Roles.{Role}
use smc_server_client.Protocol.Files.{FileType}
use smc_server_client.Version.{Version, set_from_combined}
use smc_server_client.Client.Connection.{
  no_user, connect, close, Client, reset_state, read_version, set_server_ver, set_min, set_max,
  check_version, check_welcome_message, send_version, read_versions, print_versions_message,
}
use smc_server_client.Client.Files.{is_directory_type}
use smc_server_client.Shell.Dispatch.{Shell}
use smc_server_client.Shell.Run.{
  set_connected, leave, enter, check_arguments, check_username, check_login_password, can_restart,
}

unfoldable pub IsCoherent : {S : Type 0} → Client S → Type 0
IsCoherent c = c.is_logged ≡ false → c.user ≡ no_user

module _ {S : Type 0} where
  abbrev pub ShellIsCoherent : Shell S → Type 0
  ShellIsCoherent sh = IsCoherent sh.client

  abbrev pub EndIsCoherent : {A : Type 0} → A × Shell S → Type 0
  EndIsCoherent r = ShellIsCoherent r.1

  pub set_connected-IsCoherent :
      (username password : Bytes) (r : Option Role × Shell S)
      → ShellIsCoherent r.1
      → ShellIsCoherent (set_connected username password r).1
  unfolding IsCoherent set_connected
  set_connected-IsCoherent username password (none, sh) h = h
  set_connected-IsCoherent username password (some role, sh) h = λ out. ground arith

  pub leave-IsCoherent :
      (r : Option (Unit {0}) × Shell S) → ShellIsCoherent r.1 → ShellIsCoherent (leave r).1
  unfolding IsCoherent leave
  leave-IsCoherent (none, sh) h = h
  leave-IsCoherent (some v, sh) h = λ out. refl

  -- `chdir` is run by a client that is logged in.
  pub enter-IsCoherent :
      (target : FilePath) (r : Option FileType × Shell S)
      → r.1.client.is_logged ≡ true
      → ShellIsCoherent (enter target r).1
  unfolding IsCoherent enter
  enter-IsCoherent target (none, sh) h = λ out. ground arith
  enter-IsCoherent target (some type, sh) h =
      if_holds EndIsCoherent (is_directory_type type) _ _ (λ out. ground arith)
        (λ out. ground arith)

  check_username-IsCoherent :
      (username : Bytes) (sh : Shell S)
      → ShellIsCoherent sh
      → ShellIsCoherent (check_username username sh).1
  unfolding IsCoherent check_username
  check_username-IsCoherent username sh h =
      if_holds EndIsCoherent (text_eq username []) _ _ h (if_holds EndIsCoherent _ _ _ h h)

  check_login_password-IsCoherent :
      (password : Bytes) (sh : Shell S)
      → ShellIsCoherent sh
      → ShellIsCoherent (check_login_password password sh).1
  unfolding IsCoherent check_login_password
  check_login_password-IsCoherent password sh h =
      if_holds EndIsCoherent (ltb 16 (length password)) _ _ h h

  pub check_arguments-IsCoherent :
      (username password : Bytes) (sh : Shell S)
      → ShellIsCoherent sh
      → ShellIsCoherent (check_arguments username password sh).1
  unfolding check_arguments
  check_arguments-IsCoherent username password sh h =
      let named = check_username-IsCoherent username sh h in
      if_holds EndIsCoherent (check_username username sh).0 _ _
        (check_login_password-IsCoherent password _ named) named

  pub can_restart-IsCoherent :
      (sh : Shell S) → ShellIsCoherent sh → ShellIsCoherent (can_restart sh).1
  unfolding IsCoherent can_restart
  can_restart-IsCoherent sh h =
      if_holds EndIsCoherent (not sh.client.is_logged) _ _ h (if_holds EndIsCoherent _ _ _ h h)

module _ {S : Type 0} (net : Transport S) (connect_to_server : S → Bool × S) where
  abbrev IsNoOne : Client S → Type 0
  IsNoOne c = c.user ≡ no_user

  abbrev EndIsNoOne : {A : Type 0} → A × Client S → Type 0
  EndIsNoOne r = IsNoOne r.1

  read_version-Keeps :
      (set : Version → Client S → Client S)
      → ((v : Version) (c : Client S) → IsNoOne c → IsNoOne (set v c))
      → Keeps IsNoOne (read_version net set)
  unfolding read_version
  read_version-Keeps set same c h =
      let (r, s) = read_int net 8 c.socket in
      elim_holds EndIsNoOne r (none, record c { socket = s })
        (λ v. (some tt, set (set_from_combined v) (record c { socket = s }))) h
        (λ v. same (set_from_combined v) (record c { socket = s }) h)

  check_version-Keeps : Keeps IsNoOne (check_version net)
  unfolding check_version send_version read_versions print_versions_message
  check_version-Keeps =
      let shown = print_versions_message {S = S} in
      let last = read_version net (set_max net) >> shown in
      let later = read_version net (set_min net) >> last in
      bind-Keeps IsNoOne (send_version net) (λ _. read_versions net) (λ c h. h)
        (λ _.
          bind-Keeps IsNoOne (read_version net (set_server_ver net)) (λ _. later)
            (read_version-Keeps (set_server_ver net) (λ v c h. h))
            (λ _.
              bind-Keeps IsNoOne (read_version net (set_min net)) (λ _. last)
                (read_version-Keeps (set_min net) (λ v c h. h))
                (λ _.
                  bind-Keeps IsNoOne (read_version net (set_max net)) (λ _. shown)
                    (read_version-Keeps (set_max net) (λ v c h. h)) (λ _ c h. h))))

  check_welcome_message-Keeps : Keeps IsNoOne (check_welcome_message net)
  unfolding check_welcome_message
  check_welcome_message-Keeps c h =
      let (r, s) = read_int net 1 (net.write (b'S' ∷ b'M' ∷ b'C' ∷ []) c.socket).1 in
      elim_holds EndIsNoOne r (none, record c { socket = s })
        (λ response. (if response == 0 then none else some tt, record c { socket = s })) h
        (λ response. h)

  pub connect-IsCoherent : (c : Client S) → IsCoherent (connect net connect_to_server c).1
  unfolding IsCoherent connect
  connect-IsCoherent c =
      let (connected, s) = connect_to_server c.socket in
      let begun = record (reset_state c) { is_connected = connected; socket = s } in
      let (welcome, welcomed) = check_welcome_message net begun in
      let greeted : IsNoOne welcomed = check_welcome_message-Keeps begun refl in
      let done =
        if_holds EndIsNoOne connected
          (elim welcome [
            | none ↦ (false, welcomed)
            | some v ↦ (true, (check_version net welcomed).1)
          ])
          (false, begun)
          (elim_holds EndIsNoOne welcome (false, welcomed)
            (λ v. (true, (check_version net welcomed).1)) greeted
            (λ v. check_version-Keeps welcomed greeted))
          refl in
      λ out. done

  pub close-IsCoherent : (c : Client S) → IsCoherent (close net c)
  unfolding IsCoherent close
  close-IsCoherent c = λ out. refl
