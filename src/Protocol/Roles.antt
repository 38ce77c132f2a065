-- ===== src/Protocol/Roles.antt =====
-- Shared/include/Shared/user/role.hpp and Shared/src/user/role.cpp.
use smc_server_client.Common.{ℕ, Bytes, codes, ◌==◌, if◌then◌else◌, Bool, true, false}

pub data Role : Type 0 where
  user admin developer no_role : Role
  other_role : ℕ → Role

unfoldable pub role_code : Role → ℕ
role_code user = 0
role_code admin = 1
role_code developer = 2
role_code no_role = 255
role_code (other_role n) = n

unfoldable pub role_of_code : ℕ → Role
role_of_code n =
    if n == 0
    then user
    else if n == 1
    then admin
    else if n == 2
    then developer
    else if n == 255
    then no_role
    else other_role n

unfoldable pub role_name : Role → Bytes
role_name user = codes "USER"
role_name admin = codes "ADMIN"
role_name developer = codes "DEVELOPER"
role_name no_role = codes "NONE"
role_name (other_role n) = codes "???"

unfoldable pub is_valid_role : Role → Bool
is_valid_role (other_role n) = false
is_valid_role _ = true
