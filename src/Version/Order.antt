-- ===== src/Version/Order.antt =====
-- The packed form keeps a version, and its order is the order of versions.
use smc_server_client.Common.{ℕ, ◌/◌, ◌%◌, ◌^◌, ◌<◌, ◌⊎◌, ◌↔◌, ◌≡◌, arith}
use smc_server_client.Version.{Version, IsVersion, combine, set_from_combined}

-- Unpacking the packed form of a version gives the version back.
pub set_from_combined-combine : (v : Version) → IsVersion v → set_from_combined (combine v) ≡ v
unfolding set_from_combined combine
set_from_combined-combine v h =
    let major : combine v / 2 ^ 32 % 2 ^ 16 ≡ v.major = omega arith in
    let minor : combine v / 2 ^ 16 % 2 ^ 16 ≡ v.minor = omega arith in
    let patch : combine v % 2 ^ 16 ≡ v.patch = omega arith in
    λ i. record { major = major i; minor = minor i; patch = patch i }

-- Any 64-bit number whose top 16 bits are clear is the packed form of what it unpacks to.
pub combine-set_from_combined : (n : ℕ) → n < 2 ^ 48 → combine (set_from_combined n) ≡ n
unfolding set_from_combined combine
combine-set_from_combined n h = omega arith

-- Comparing packed forms, as both programs do, compares major, then minor, then patch numbers.
pub combine_lt :
    (a b : Version)
    → IsVersion a
    → IsVersion b
    → (combine a < combine b) ↔ (
        (a.major < b.major)
        ⊎ ((a.major ≡ b.major)
            × ((a.minor < b.minor) ⊎ ((a.minor ≡ b.minor) × (a.patch < b.patch)))))
unfolding combine
combine_lt a b ha hb = (λ h. grind arith, λ h. grind arith)
