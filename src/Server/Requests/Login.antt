-- ===== src/Server/Requests/Login.antt =====
-- What a login leaves behind.
use smc_server_client.Common.{
  ◌+◌, ◌*◌, ◌%◌, ◌^◌, true, false, some, [], Bytes, text_eq, bind-some, ◌>>=◌, ◌>>◌, ◌≡◌, refl, sym,
  ap, ◌∙◌,
}
use smc_server_client.Wire.{Analyzer, extract_string, insert_int}
use smc_server_client.Protocol.Response.{invalid_password}
use smc_server_client.Protocol.Roles.{role_code}
use smc_server_client.Server.Users.{User, no_user, get, set}
use smc_server_client.Server.Users.Update.{get-name, get-set_found}
use smc_server_client.Server.Reply.{insert, build_error}
use smc_server_client.Server.Handler.{Rh}
use smc_server_client.Server.Requests.{
  LoginRh, extract_credential, get_user_from_username, check_password, check_login, run_login,
  finish_login,
}

module _ {S : Type 0} (h : Rh S) {username password : Bytes} {after_name after_password : Analyzer}
    (named : extract_string 1 h.request ≡ (some username, after_name))
    (told : extract_string 1 after_name ≡ (some password, after_password)) where
  abbrev extracted : LoginRh S
  extracted = record { handler = record h { request = after_password }; user = no_user }

  -- With both strings in the request, the checks are those of the user and of the password.
  check_login-extracted :
      check_login (record { handler = h; user = no_user })
      ≡ (get_user_from_username username >> check_password password) extracted
  unfolding check_login extract_credential
  check_login-extracted =
      bind-some extract_credential
        (λ name. extract_credential >>= λ word. get_user_from_username name >> check_password word)
        {s = record { handler = h; user = no_user }} (rw named refl)
      ∙ bind-some extract_credential
          (λ word. get_user_from_username username >> check_password word)
          {s = record extracted { handler = record h { request = after_name } }} (rw told refl)

  module _ {user : User} (found : get username h.session.users ≡ user)
      (valid : user.is_valid ≡ true) where
    run_login-found :
        run_login h ≡ finish_login (check_password password (record extracted { user = user })).1
    unfolding run_login get_user_from_username
    run_login-found =
        ap (λ t. finish_login t.1)
          (check_login-extracted
            ∙ bind-some (get_user_from_username username) (λ _. check_password password)
                {s = extracted} (rw (found, valid) refl))

    -- A login with the password of the user that has the name sets the client's user, with the count
    -- of wrong passwords reset, there and in the list of users; it adds the user's role to the
    -- response, and it does not wait.
    pub run_login-right_password :
        text_eq password user.password ≡ true
        → let fresh : User = record user { wrong_password_count = 0 } in
          run_login h ≡ record h {
            request = after_password;
            response = insert (insert_int 1 (role_code user.role)) h.response;
            session = record h.session {
              client = record h.session.client { user = fresh; is_logged = true };
              users = (set fresh h.session.users).1;
            };
          }
    unfolding check_password
    run_login-right_password right = run_login-found ∙ rw right refl

    -- A login with another password waits for the square of the number of wrong passwords so far, in
    -- seconds, counts one more in the list of users, so that the next one who logs in under this name
    -- finds the higher count, and puts the error into the response; but then it too sets the client's
    -- user and marks the client as logged in.
    pub run_login-wrong_password :
        text_eq password user.password ≡ false
        → let count = user.wrong_password_count in
          let counted : User = record user { wrong_password_count = (count + 1) % 2 ^ 32 } in
          (run_login h ≡ record h {
            request = after_password;
            response =
                insert
                  (insert_int 1 (role_code user.role))
                  (build_error invalid_password [] h.response);
            session = record h.session {
              client = record h.session.client { user = counted; is_logged = true };
              users = (set counted h.session.users).1;
              slept = h.session.slept + count * count % 2 ^ 64;
            };
          })
          × (get username (run_login h).session.users ≡ counted)
    unfolding check_password
    run_login-wrong_password wrong =
        let counted : User = record user {
          wrong_password_count = (user.wrong_password_count + 1) % 2 ^ 32;
        } in
        let is_there : (get username h.session.users).is_valid ≡ true =
          ap (λ u. u.is_valid) found ∙ valid in
        let same : text_eq counted.name username ≡ true =
          ap (λ u. text_eq u.name username) (sym found)
          ∙ get-name username h.session.users is_there in
        let ran = run_login-found ∙ rw wrong refl in
        (
          ran,
          ap (λ t. get username t.session.users) ran
              ∙ get-set_found username counted h.session.users is_there same,
        )
