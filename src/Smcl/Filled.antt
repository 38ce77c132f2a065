-- ===== src/Smcl/Filled.antt =====
-- What a format makes of its arguments.
use smc_server_client.Common.{false, List, [], ◌∷◌, ◌++◌, Bytes, codes, ◌==◌, ◌≡◌}

abbrev pub place : Bytes
place = codes "${}"

-- Texts, each with a place for an argument behind it, and the text at the end.
abbrev pub template : List Bytes → Bytes → Bytes
template [] tail = tail
template (part ∷ parts) tail = part ++ (place ++ template parts tail)

abbrev pub filled : List Bytes → Bytes → List Bytes → Bytes
filled [] tail args = tail
filled (part ∷ parts) tail [] = part ++ (place ++ filled parts tail [])
filled (part ∷ parts) tail (arg ∷ args) = part ++ (arg ++ filled parts tail args)

abbrev pub NoDollar : Bytes → Type 0
NoDollar [] = Unit
NoDollar (c ∷ cs) = (c == b'$' ≡ false) × NoDollar cs

abbrev pub NoDollars : List Bytes → Type 0
NoDollars [] = Unit
NoDollars (part ∷ parts) = NoDollar part × NoDollars parts
