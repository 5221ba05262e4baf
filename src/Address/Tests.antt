-- ===== src/Address/Tests.antt =====
-- Addresses of src/carrier/ela_carrier.c over a notation in which bytes stand for themselves.
use elastos_net_carrier_nati.Base.{
  ℕ, ◌≡◌, refl, List, [], ◌∷◌, ◌++◌, true, false, none, some, leb, if◌then◌else◌, length, replicate,
  arith,
}
use elastos_net_carrier_nati.Address.{
  Base58, Self, text, is_valid_address, checksum_loop, ela_get_address, ela_get_nodeid,
  ela_get_id_by_address, get_self_info,
}
use elastos_net_carrier_nati.Address.Detection.{is_valid_address-changed}
use elastos_net_carrier_nati.Address.Own.{dht_address, get_self_info-id_by_address}

abbrev plain : Base58
plain = record {
  base58_decode = λ xs size. if leb (length xs) size then some xs else none;
  base58_encode = λ bytes size old. if leb size (length bytes) then (false, old) else (true, bytes);
}

abbrev key : List ℕ
key = replicate 32 1

abbrev nospam : List ℕ
nospam = 7 ∷ 8 ∷ 9 ∷ 10 ∷ []

abbrev address : List ℕ
address = (key ++ 7 ∷ 8 ∷ 9 ∷ 10 ∷ []) ++ 14 ∷ 2 ∷ []

abbrev changed : List ℕ
changed = (key ++ 6 ∷ 8 ∷ 9 ∷ 10 ∷ []) ++ 14 ∷ 2 ∷ []

abbrev fresh : Self
fresh = record { base58_addr = []; userid = [] }

is_valid_address-changed_example : is_valid_address plain changed ≡ false
unfolding is_valid_address checksum_loop
is_valid_address-changed_example =
    is_valid_address-changed plain address changed key (8 ∷ 9 ∷ 10 ∷ []) (14 ∷ 2 ∷ []) 7 6 refl refl
      refl refl (λ p. absurd (omega (arith, p))) refl

get_self_info-id_by_address_example :
    (ela_get_address (get_self_info plain fresh (dht_address key nospam) key) 53 ≡ text address)
    × (is_valid_address plain address ≡ true)
    × (ela_get_id_by_address plain address 46 ≡ text key)
    × (ela_get_nodeid (get_self_info plain fresh (dht_address key nospam) key) 46 ≡ text key)
unfolding checksum_loop
get_self_info-id_by_address_example =
    get_self_info-id_by_address plain fresh key nospam address key 53 46 refl refl refl refl refl
      refl (omega arith) (omega arith) (omega arith)
