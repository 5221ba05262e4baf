-- ===== src/Address/Own.antt =====
-- The node's own address in src/carrier/ela_carrier.c, as it is handed out and as another node reads it.
use Prim.Native.Nat.{bit_xor}
use elastos_net_carrier_nati.Base.{
  ℕ, suc, ◌%◌, ◌==◌, ◌<◌, false, ◌≡◌, ◌≤◌, refl, ap, ◌∙◌, List, [], ◌∷◌, ◌++◌, true, false, some,
  leb, length, length-append, take, take-append_ge, append-nil, append_assoc, arith,
}
use elastos_net_carrier_nati.Address.{
  Base58, toggle, Self, text, checksum_loop, check_bytes, is_equal, is_valid_address,
  ela_get_address, ela_get_nodeid, ela_get_id_by_address, get_self_info,
}
use elastos_net_carrier_nati.Invite.Data.{ela_max_id_len}
use elastos_net_carrier_nati.Address.Detection.{validity}

-- The checksum as the DHT documents it: the first two bytes xored with the next two, and so on.
abbrev pub xor_pairs : ℕ × ℕ → List ℕ → ℕ × ℕ
xor_pairs s [] = s
xor_pairs (a, b) (x ∷ []) = (bit_xor a x, b)
xor_pairs (a, b) (x ∷ y ∷ xs) = xor_pairs (bit_xor a x, bit_xor b y) xs

-- The bytes of a checksum in memory, and the address that the DHT makes for a node.
abbrev pub check_memory : ℕ × ℕ → List ℕ
check_memory (a, b) = a ∷ b ∷ []

abbrev pub dht_address : List ℕ → List ℕ → List ℕ
dht_address public_key nospam =
    (public_key ++ nospam) ++ check_memory (xor_pairs (0, 0) (public_key ++ nospam))

even : (i : ℕ) → i % 2 ≡ 0 → (i % 2 == 0) ≡ true
even i e = ground (arith, e)

odd : (i : ℕ) → i % 2 ≡ 0 → (suc i % 2 == 0) ≡ false
odd i e = ground (arith, e)

-- The loop over single bytes computes the pairs' checksum.
checksum_loop-xor_pairs :
    (i : ℕ) (s : ℕ × ℕ) (xs : List ℕ) → i % 2 ≡ 0 → checksum_loop i s xs ≡ xor_pairs s xs
unfolding checksum_loop
checksum_loop-xor_pairs i s [] e = refl
checksum_loop-xor_pairs i (a, b) (x ∷ []) e = ap (λ t. toggle t (a, b) x) (even i e)
checksum_loop-xor_pairs i (a, b) (x ∷ y ∷ xs) e =
    ap (λ t. checksum_loop (suc (suc i)) (toggle (suc i % 2 == 0) (toggle t (a, b) x) y) xs)
      (even i e)
    ∙ ap (λ t. checksum_loop (suc (suc i)) (toggle t (bit_xor a x, b) y) xs) (odd i e)
    ∙ checksum_loop-xor_pairs (suc (suc i)) (bit_xor a x, bit_xor b y) xs (omega (arith, e))

is_equal-check_memory : (s : ℕ × ℕ) → is_equal s (check_bytes (check_memory s)) ≡ true
unfolding check_bytes
is_equal-check_memory (a, b) = ground arith

length-check_memory : (s : ℕ × ℕ) → length (check_memory s) ≡ 2
length-check_memory (a, b) = refl

key_of_address :
    (public_key nospam : List ℕ)
    → length public_key ≡ 32
    → take 32 (dht_address public_key nospam) ≡ public_key
key_of_address public_key nospam n =
    let check = check_memory (xor_pairs (0, 0) (public_key ++ nospam)) in
    ap (take 32) (append_assoc public_key nospam check)
    ∙ take-append_ge 32 0 public_key (nospam ++ check) (omega (arith, n))
    ∙ append-nil public_key

-- The node is told its key and its address by the DHT, which makes the address of the key, four bytes
-- and a checksum that is xored two bytes at a time, and base 58 can write the two and read the address
-- back. Then the address that the node hands out, in any buffer that it fits into, passes the test of
-- addresses, and the id that another node reads off it, into a buffer of more than 45 bytes, is the one
-- that the node hands out as its own.
pub get_self_info-id_by_address :
    (base : Base58) (w : Self) (public_key nospam address id : List ℕ) (len len_id : ℕ)
    → length public_key ≡ 32
    → length nospam ≡ 4
    → base.base58_encode (dht_address public_key nospam) 53 w.base58_addr ≡ (true, address)
    → base.base58_decode address 38 ≡ some (dht_address public_key nospam)
    → base.base58_encode public_key 46 w.userid ≡ (true, id)
    → base.base58_encode public_key 46 [] ≡ (true, id)
    → length id ≤ ela_max_id_len
    → length address < len
    → ela_max_id_len < len_id
    → (ela_get_address (get_self_info base w (dht_address public_key nospam) public_key) len
        ≡ text address)
      × (is_valid_address base address ≡ true)
      × (ela_get_id_by_address base address len_id ≡ text id)
      × (ela_get_nodeid (get_self_info base w (dht_address public_key nospam) public_key) len_id
          ≡ text id)
unfolding ela_get_address ela_get_nodeid ela_get_id_by_address get_self_info
get_self_info-id_by_address base w public_key nospam address id len len_id n m written read
      written_id written_id' short_id fits fits_id =
    let payload = public_key ++ nospam in
    let check = check_memory (xor_pairs (0, 0) payload) in
    let many : length payload ≡ 36 = omega (arith, length-append public_key nospam, n, m) in
    let two : length check ≡ 2 = length-check_memory (xor_pairs (0, 0) payload) in
    let whole : length (payload ++ check) ≡ 38 =
      omega (arith, length-append payload check, many, two) in
    let some_len : (len == 0) ≡ false = ground (arith, fits) in
    let some_id : (len_id == 0) ≡ false = ground (arith, fits_id) in
    let room : leb len (length address) ≡ false = ground (arith, fits) in
    let room_id : leb len_id (length id) ≡ false = ground (arith, short_id, fits_id) in
    let room_max : leb len_id ela_max_id_len ≡ false = ground (arith, fits_id) in
    (
      rw (some_len, written, room) refl,
      validity base address payload check read many two
          ∙ ap (λ s. is_equal s (check_bytes check)) (checksum_loop-xor_pairs 0 (0, 0) payload refl)
          ∙ is_equal-check_memory (xor_pairs (0, 0) payload),
      rw (room_max, read, whole, key_of_address public_key nospam n, written_id') refl,
      rw (some_id, written_id, room_id) refl,
    )
