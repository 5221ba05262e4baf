-- ===== src/Address/Detection.antt =====
-- The checksum of an address in src/carrier/ela_carrier.c finds a byte that has been changed.
use elastos_net_carrier_nati.Base.{
  ℕ, suc, ◌+◌, ◌%◌, ◌≡◌, ◌≢◌, refl, sym, ap, ap₂, ◌∙◌, List, [], ◌∷◌, ◌++◌, Bool, true, false, inl,
  inr, Bool-cases, some, ◌==◌, length, length-append, take-append_ge, drop-append_le, drop_all,
  append-nil, arith,
}
use elastos_net_carrier_nati.Base.Xor.{bit_xor_left, bit_xor_right}
use elastos_net_carrier_nati.Address.{
  Base58, toggle, checksum_loop, address_checksum, check_bytes, is_equal, is_valid_bytes,
  is_valid_address, dht_address_size,
}

toggle_left : (b : Bool) (s t : ℕ × ℕ) (x : ℕ) → toggle b s x ≡ toggle b t x → s ≡ t
toggle_left true (a, c) (b, d) x p =
    ap₂ (λ (m n : ℕ). (m, n)) (bit_xor_left a b x (ap (λ (r : ℕ × ℕ). r.0) p))
      (ap (λ (r : ℕ × ℕ). r.1) p)
toggle_left false (a, c) (b, d) x p =
    ap₂ (λ (m n : ℕ). (m, n)) (ap (λ (r : ℕ × ℕ). r.0) p)
      (bit_xor_left c d x (ap (λ (r : ℕ × ℕ). r.1) p))

toggle_right : (b : Bool) (s : ℕ × ℕ) (x y : ℕ) → toggle b s x ≡ toggle b s y → x ≡ y
toggle_right true (a, c) x y p = bit_xor_right a x y (ap (λ (r : ℕ × ℕ). r.0) p)
toggle_right false (a, c) x y p = bit_xor_right c x y (ap (λ (r : ℕ × ℕ). r.1) p)

-- Sums that differ stay different over the same bytes.
loop_left :
    (i : ℕ) (s t : ℕ × ℕ) (xs : List ℕ) → checksum_loop i s xs ≡ checksum_loop i t xs → s ≡ t
unfolding checksum_loop
loop_left i s t [] p = p
loop_left i s t (x ∷ xs) p =
    toggle_left (i % 2 == 0) s t x
      (loop_left (suc i) (toggle (i % 2 == 0) s x) (toggle (i % 2 == 0) t x) xs p)

loop_byte :
    (i : ℕ) (s : ℕ × ℕ) (before : List ℕ) (x y : ℕ) (after : List ℕ)
    → checksum_loop i s (before ++ x ∷ after) ≡ checksum_loop i s (before ++ y ∷ after)
    → x ≡ y
unfolding checksum_loop
loop_byte i s [] x y after p =
    toggle_right (i % 2 == 0) s x y
      (loop_left (suc i) (toggle (i % 2 == 0) s x) (toggle (i % 2 == 0) s y) after p)
loop_byte i s (b ∷ bs) x y after p = loop_byte (suc i) (toggle (i % 2 == 0) s b) bs x y after p

is_equal_sound : (s t : ℕ × ℕ) → is_equal s t ≡ true → s ≡ t
is_equal_sound (a, b) (c, d) p = ap₂ (λ (m n : ℕ). (m, n)) (ground (arith, p)) (ground (arith, p))

-- What an address of the right length is tested for.
pub validity :
    (base : Base58) (address payload check : List ℕ)
    → base.base58_decode address dht_address_size ≡ some (payload ++ check)
    → length payload ≡ 36
    → length check ≡ 2
    → is_valid_address base address ≡ is_equal (checksum_loop 0 (0, 0) payload) (check_bytes check)
unfolding is_valid_address is_valid_bytes address_checksum
validity base address payload check e n k =
    let long : length (payload ++ check) ≡ 38 = omega (arith, length-append payload check, n, k) in
    ap is_valid_bytes e
    ∙ rw
        (
          long,
          take-append_ge 36 0 payload check (omega (arith, n)),
          append-nil payload,
          drop-append_le 36 payload check (omega (arith, n)),
          drop_all 36 payload (omega (arith, n)),
        )
        refl

-- An address that is valid, in which one byte of the key or of the four bytes behind it is changed and
-- the checksum is left as it is, is not valid any more.
pub is_valid_address-changed :
    (base : Base58) (address changed before after check : List ℕ) (x y : ℕ)
    → base.base58_decode address dht_address_size ≡ some ((before ++ x ∷ after) ++ check)
    → base.base58_decode changed dht_address_size ≡ some ((before ++ y ∷ after) ++ check)
    → length before + suc (length after) ≡ 36
    → length check ≡ 2
    → x ≢ y
    → is_valid_address base address ≡ true
    → is_valid_address base changed ≡ false
is_valid_address-changed base address changed before after check x y e e' n k differs valid =
    elim (Bool-cases (is_valid_address base changed)) [
      | inl same ↦ absurd (
          differs (
            loop_byte 0 (0, 0) before x y after
              (is_equal_sound _ _ (sym (validity base address _ check e long k) ∙ valid)
                ∙ sym
                    (is_equal_sound _ _ (sym (validity base changed _ check e' long' k) ∙ same)))))
      | inr invalid ↦ invalid
    ]
  where
    long : length (before ++ x ∷ after) ≡ 36
    long = omega (arith, n, length-append before (x ∷ after))

    long' : length (before ++ y ∷ after) ≡ 36
    long' = omega (arith, n, length-append before (y ∷ after))
