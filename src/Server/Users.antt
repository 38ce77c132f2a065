-- ===== src/Server/Users.antt =====
-- Server/src/users/manager.cpp and Server/include/users/user.hpp: the users that are known.
pub mod Update
use smc_server_client.Common.{ℕ, Bool, true, false, List, [], ◌∷◌, Bytes, text_eq, if◌then◌else◌}
use smc_server_client.Protocol.Roles.{Role, no_role}

pub record User : Type 0 where
  pub name : Bytes
  pub password : Bytes
  pub role : Role
  pub wrong_password_count : ℕ
  pub perso_directory : Bytes
  pub is_valid : Bool

-- `User{}`.
abbrev pub no_user : User
no_user = record {
  name = [];
  password = [];
  role = no_role;
  wrong_password_count = 0;
  perso_directory = [];
  is_valid = true;
}

unfoldable pub get : Bytes → List User → User
get username [] = record no_user { is_valid = false }
get username (user ∷ users) = if text_eq user.name username then user else get username users

unfoldable pub exists : Bytes → List User → Bool
unfolding get
exists username users = (get username users).is_valid

unfoldable pub set : User → List User → Bool × List User
set user [] = (false, [])
set user (curr_user ∷ users) =
    let (found, rest) = set user users in
    if text_eq user.name curr_user.name then (true, user ∷ users) else (found, curr_user ∷ rest)
