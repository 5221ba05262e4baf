-- ===== src/Address.antt =====
-- src/carrier/ela_carrier.c: ids and addresses. An address is the node's public key, four bytes that
-- the node may change, and two bytes of checksum, written in base 58. The checksum is the pair of
-- its bytes as they lie in memory.
mod Detection
mod Own
mod Tests
use Prim.Native.Nat.{bit_xor}
use elastos_net_carrier_nati.Base.{
  ℕ, suc, ◌+◌, ◌%◌, List, [], ◌∷◌, Bool, true, false, ◌&&◌, Option, none, some, leb, ◌==◌,
  if◌then◌else◌, length, take, drop,
}
use elastos_net_carrier_nati.Elaerr
use elastos_net_carrier_nati.Invite.Data.{ela_max_id_len}

-- The functions of the crystal library: the bytes that a text stands for, if they fit into so many
-- bytes; and whether bytes could be written as a text into a buffer of so many bytes, with the text
-- that the buffer has before and afterwards.
pub record Base58 : Type 0 where
  pub base58_decode : List ℕ → ℕ → Option (List ℕ)
  pub base58_encode : List ℕ → ℕ → List ℕ → Bool × List ℕ

abbrev pub dht_public_key_size : ℕ
dht_public_key_size = 32

abbrev pub dht_address_size : ℕ
dht_address_size = 38

abbrev pub ela_max_address_len : ℕ
ela_max_address_len = 52

-- One of the two bytes of the checksum changed.
abbrev pub toggle : Bool → ℕ × ℕ → ℕ → ℕ × ℕ
toggle true (even, odd) x = (bit_xor even x, odd)
toggle false (even, odd) x = (even, bit_xor odd x)

unfoldable pub checksum_loop : ℕ → ℕ × ℕ → List ℕ → ℕ × ℕ
checksum_loop i sums [] = sums
checksum_loop i sums (x ∷ xs) = checksum_loop (suc i) (toggle (i % 2 == 0) sums x) xs

-- `address_checksum`
unfoldable pub address_checksum : List ℕ → ℕ → ℕ × ℕ
unfolding checksum_loop
address_checksum address len = checksum_loop 0 (0, 0) (take len address)

-- The two bytes that a `memcpy` reads.
unfoldable pub check_bytes : List ℕ → ℕ × ℕ
check_bytes (a ∷ b ∷ bs) = (a, b)
check_bytes _ = (0, 0)

abbrev pub is_equal : ℕ × ℕ → ℕ × ℕ → Bool
is_equal (a, b) (c, d) = (a == c) && (b == d)

-- The test of the bytes that an address stands for, if they fit.
unfoldable pub is_valid_bytes : Option (List ℕ) → Bool
unfolding address_checksum check_bytes
is_valid_bytes none = false
is_valid_bytes (some addr) =
    if length addr == dht_address_size
    then is_equal (address_checksum addr 36) (check_bytes (drop 36 addr))
    else false

-- The text that a call hands out, or the error that it sets.
pub data Text : Type 0 where
  failed : ℕ → Text
  text : List ℕ → Text

abbrev pub userid_text : Bool × List ℕ → Text
userid_text (true, userid) = text userid
userid_text (false, userid) = failed Elaerr.invalid_args

-- What the node keeps of itself, as texts: `w->base58_addr` and `w->me.userid`.
pub record Self : Type 0 where
  pub base58_addr : List ℕ
  pub userid : List ℕ

-- `ela_get_address` and `ela_get_nodeid` with a buffer of `len` bytes.
unfoldable pub ela_get_address : Self → ℕ → Text
ela_get_address w len =
    if len == 0
    then failed Elaerr.invalid_args
    else if leb len (length w.base58_addr)
    then failed Elaerr.buffer_too_small
    else text w.base58_addr

unfoldable pub ela_get_nodeid : Self → ℕ → Text
ela_get_nodeid w len =
    if len == 0
    then failed Elaerr.invalid_args
    else if leb len (length w.userid)
    then failed Elaerr.buffer_too_small
    else text w.userid

module _ (base : Base58) where
  open base use {base58_decode, base58_encode}

  -- `is_valid_key`
  unfoldable pub is_valid_key : List ℕ → Bool
  is_valid_key key = elim (base58_decode key dht_public_key_size) [
    | none ↦ false
    | some bytes ↦ length bytes == dht_public_key_size
  ]

  -- `is_valid_address`
  unfoldable pub is_valid_address : List ℕ → Bool
  unfolding is_valid_bytes
  is_valid_address address = is_valid_bytes (base58_decode address dht_address_size)

  -- `ela_id_is_valid` and `ela_address_is_valid`, with the error that they set; `none` is NULL.
  unfoldable pub ela_id_is_valid : Option (List ℕ) → Bool × Option ℕ
  unfolding is_valid_key
  ela_id_is_valid none = (false, some Elaerr.invalid_args)
  ela_id_is_valid (some []) = (false, some Elaerr.invalid_args)
  ela_id_is_valid (some (x ∷ xs)) = (is_valid_key (x ∷ xs), none)

  unfoldable pub ela_address_is_valid : Option (List ℕ) → Bool × Option ℕ
  unfolding is_valid_address
  ela_address_is_valid none = (false, some Elaerr.invalid_args)
  ela_address_is_valid (some []) = (false, some Elaerr.invalid_args)
  ela_address_is_valid (some (x ∷ xs)) = (is_valid_address (x ∷ xs), none)

  -- `ela_get_id_by_address` with a buffer of `len` bytes.
  unfoldable pub ela_get_id_by_address : List ℕ → ℕ → Text
  ela_get_id_by_address address len =
      if leb len ela_max_id_len
      then failed Elaerr.invalid_args
      else elim (base58_decode address dht_address_size) [
        | none ↦ failed Elaerr.invalid_args
        | some addr ↦
            if length addr == dht_address_size
            then userid_text (base58_encode (take dht_public_key_size addr) (ela_max_id_len + 1) [])
            else failed Elaerr.invalid_args
      ]

  -- The texts that `get_self_info_cb` writes when the DHT tells it the address and the key.
  unfoldable pub get_self_info : Self → List ℕ → List ℕ → Self
  get_self_info w address public_key = record w {
    base58_addr = (base58_encode address (ela_max_address_len + 1) w.base58_addr).1;
    userid = (base58_encode public_key (ela_max_id_len + 1) w.userid).1;
  }
