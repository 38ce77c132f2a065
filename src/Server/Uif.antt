-- ===== src/Server/Uif.antt =====
-- Server/src/users/uif/decoder.cpp and Server/src/users/loader.cpp: the user information files, and
-- the users that are loaded from them.
pub mod Blocks
use smc_server_client.Common.{
  ℕ, Bool, true, false, not, ◌&&◌, ◌||◌, Option, none, some, List, [], ◌∷◌, ◌++◌, Bytes, length,
  get_or, drop, ltb, ◌==◌, if◌then◌else◌,
}
use smc_server_client.Text.{get_string_from_array}
use smc_server_client.Protocol.Roles.{role_of_code}
use smc_server_client.Server.Users.{User, no_user}

pub record UifValues : Type 0 where
  pub role : ℕ
  pub username : Bytes
  pub password : Bytes

abbrev pub data_size : ℕ
data_size = 48

unfoldable pub check_size : Bytes → Bool
check_size file = not (ltb (length file) data_size)

unfoldable pub check_signature : Bytes → Bool
check_signature file = not (
    not (get_or file 0 0 == b'U')
    || (not (get_or file 1 0 == b'I')
        || (not (get_or file 2 0 == b'F') || not (get_or file 3 0 == 0))))

abbrev pub values_of : Bytes → UifValues
values_of file = record {
  role = get_or file 4 0;
  username = get_string_from_array (drop 16 file) 16;
  password = get_string_from_array (drop 32 file) 16;
}

abbrev pub named_values : UifValues → Option UifValues
named_values values = elim values.username [ [] ↦ none | _ ∷ _ ↦ some values ]

unfoldable pub decode_uif : Bytes → Option UifValues
unfolding check_size check_signature
decode_uif file =
    if check_size file && check_signature file then named_values (values_of file) else none

-- `loadUserFromUIFValues`, with the personal directory that `load` then sets: a path that is made from
-- the name.
unfoldable pub user_of : (Bytes → Bytes) → UifValues → User
user_of perso_directory values = record no_user {
  name = values.username;
  password = values.password;
  role = role_of_code values.role;
  perso_directory = perso_directory values.username;
}

-- `UserLoader::load`: the content of the file, if it can be read, and whether the personal directory is
-- there or can be made.
unfoldable pub load_user : (Bytes → Bytes) → Option Bytes × (Bytes → Bool) → Option User
load_user perso_directory (none, made) = none
load_user perso_directory (some file, made) = elim (decode_uif file) [
  | none ↦ none
  | some values ↦
      if made (perso_directory values.username) then some (user_of perso_directory values) else none
]

-- The loop of `UsersManager::load` over the folders of users.
unfoldable pub load_users :
    (Bytes → Bytes) → (Bytes → Bool) → List (Option Bytes) → List User → List User
load_users perso_directory made [] users = users
load_users perso_directory made (file ∷ files) users =
    load_users perso_directory made files (elim (load_user perso_directory (file, made)) [
      | none ↦ users
      | some user ↦ users ++ (user ∷ [])
    ])
