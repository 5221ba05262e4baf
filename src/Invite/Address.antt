-- ===== src/Invite/Address.antt =====
-- The addresses of src/carrier/ela_carrier.c: a user id, or a user id, a colon and an extension.
use elastos_net_carrier_nati.Base.{
  ℕ, ◌≡◌, refl, List, [], ◌∷◌, Bool, true, false, Option, none, some, arith, ◌==◌, if◌then◌else◌,
}
use elastos_net_carrier_nati.Invite.Send.{parse_address}
use elastos_net_carrier_nati.Invite.Receive.{sender}

abbrev pub has_colon : List ℕ → Bool
has_colon [] = false
has_colon (c ∷ cs) = let rest = has_colon cs in if c == 58 then true else rest

-- The address under which the receiver remembers an invitation, a user id without a colon and
-- perhaps an extension, is taken apart by `parse_address`, with which the reply to it begins, into
-- that user id and that extension.
pub parse_address-sender :
    (userid : List ℕ) (ext : Option (List ℕ))
    → has_colon userid ≡ false
    → parse_address (sender userid ext) ≡ (userid, ext)
unfolding parse_address
parse_address-sender [] none h = refl
parse_address-sender [] (some e) h = refl
parse_address-sender (c ∷ cs) none h = ground (arith, parse_address-sender cs none)
parse_address-sender (c ∷ cs) (some e) h = ground (arith, parse_address-sender cs (some e))
