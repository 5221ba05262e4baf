-- ===== src/FileTransfer/Decimal.antt =====
-- `%llu` of `sprintf`, and the proof that `%llu` of `sscanf` reads it back.
use elastos_net_carrier_nati.Base.{
  ℕ, zero, suc, ◌+◌, ◌-◌, ◌*◌, ◌/◌, ◌%◌, ◌≤◌, ◌<◌, ◌≡◌, refl, ap, ◌∙◌, List, [], ◌∷◌, ◌++◌, arith,
  append_assoc, append-nil, sym, true, false, some, ltb, ◌==◌, if◌then◌else◌, Bool-cases, inl, inr,
  ltb-false,
}
use elastos_net_carrier_nati.FileTransfer.Text.{
  max_u64, is_digit, take_number, starts_with_digit, is_space, scan_signed, scan_llu, skip_space,
}

-- The digits of a number below 10 to the power of the fuel.
unfoldable pub digits : ℕ → ℕ → List ℕ
digits zero n = []
digits (suc fuel) n =
    let more = digits fuel (n / 10) ++ (48 + n % 10) ∷ [] in
    if ltb n 10 then (48 + n) ∷ [] else more

-- A `uint64_t` has at most 20 digits.
unfoldable pub format_llu : ℕ → List ℕ
unfolding digits
format_llu n = digits 20 n

-- 10 to the power of the fuel, as a recursion.
abbrev ten_to : ℕ → ℕ
ten_to zero = 1
ten_to (suc k) = ten_to k * 10

read_last :
    (n : ℕ) (rest : List ℕ)
    → n ≤ max_u64
    → take_number (n / 10) ((48 + n % 10) ∷ rest) ≡ take_number n rest
unfolding take_number
read_last n rest k = rw (digit, back, ltb-false max_u64 n k) refl
  where
    digit : is_digit (48 + n % 10) ≡ true
    digit = ground arith

    back : n / 10 * 10 + (48 + n % 10 - 48) ≡ n
    back = omega arith

take_number-digits :
    (fuel n : ℕ) (rest : List ℕ)
    → 0 < fuel
    → n < ten_to fuel
    → n ≤ max_u64
    → take_number 0 (digits fuel n ++ rest) ≡ take_number n rest
unfolding digits take_number
take_number-digits zero n rest p h k = absurd (omega arith)
take_number-digits (suc zero) n rest p h k = ground arith
take_number-digits (suc (suc fuel)) n rest p h k = elim (Bool-cases (ltb n 10)) [
  | inl small ↦ rw small (ground arith)
  | inr large ↦ rw large (
      rw (append_assoc (digits (suc fuel) (n / 10)) ((48 + n % 10) ∷ []) rest) (
        take_number-digits (suc fuel) (n / 10) ((48 + n % 10) ∷ rest) (omega arith) (omega arith)
          (omega arith)
        ∙ read_last n rest k))
]

starts_with_digit-append :
    (xs ys : List ℕ) → starts_with_digit xs ≡ true → starts_with_digit (xs ++ ys) ≡ true
starts_with_digit-append [] ys p = ground arith
starts_with_digit-append (x ∷ xs) ys p = p

digits-digit : (fuel n : ℕ) → 0 < fuel → n < ten_to fuel → starts_with_digit (digits fuel n) ≡ true
unfolding digits
digits-digit zero n p h = absurd (omega arith)
digits-digit (suc zero) n p h = ground arith
digits-digit (suc (suc fuel)) n p h = elim (Bool-cases (ltb n 10)) [
  | inl small ↦ rw small (ground arith)
  | inr large ↦ rw large (
      starts_with_digit-append (digits (suc fuel) (n / 10)) ((48 + n % 10) ∷ [])
        (digits-digit (suc fuel) (n / 10) (omega arith) (omega arith)))
]

-- A word that starts with a digit, after one space, is a number without a sign.
scan_llu-digit :
    (cs : List ℕ) → starts_with_digit cs ≡ true → scan_llu (32 ∷ cs) ≡ some (take_number 0 cs)
unfolding scan_llu skip_space scan_signed
scan_llu-digit [] p = ground arith
scan_llu-digit (c ∷ cs) p = rw (not_space c p, not_plus c p, not_minus c p, p) refl
  where
    not_space : (c : ℕ) → is_digit c ≡ true → is_space c ≡ false
    not_space c p = ground arith

    not_plus : (c : ℕ) → is_digit c ≡ true → (c == 43) ≡ false
    not_plus c p = ground arith

    not_minus : (c : ℕ) → is_digit c ≡ true → (c == 45) ≡ false
    not_minus c p = ground arith

pub scan_llu-format_llu : (n : ℕ) → n ≤ max_u64 → scan_llu (32 ∷ format_llu n) ≡ some n
unfolding format_llu take_number
scan_llu-format_llu n k =
    scan_llu-digit (digits 20 n) (digits-digit 20 n (omega arith) (omega arith))
    ∙ ap some (
        ap (take_number 0) (sym (append-nil (digits 20 n)))
        ∙ take_number-digits 20 n [] (omega arith) (omega arith) k)
