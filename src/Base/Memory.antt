-- ===== src/Base/Memory.antt =====
-- A block of memory as a list of bytes, and a copy into it.
use Prim.Native.Nat.{ℕ, zero, suc, ◌+◌, ◌≤◌}
use mathlib.Core.Path.{◌≡◌, refl, sym, ap, ap₂, ◌∙◌}
use mathlib.Core.List.{List, [], ◌∷◌, ◌++◌}
use native.Mathlib.Omega.{arith}
use elastos_net_carrier_nati.Base.Lists.{length, take, drop, take-append-drop}

-- `memcpy(mem, bs, length bs)`; what falls behind the block's end is not written.
unfoldable pub overlay : List ℕ → List ℕ → List ℕ
overlay [] mem = mem
overlay (b ∷ bs) [] = []
overlay (b ∷ bs) (m ∷ mem) = b ∷ overlay bs mem

-- `memcpy(mem + pos, bs, length bs)`
unfoldable pub overwrite : ℕ → List ℕ → List ℕ → List ℕ
unfolding overlay
overwrite zero bs mem = overlay bs mem
overwrite (suc p) bs [] = []
overwrite (suc p) bs (m ∷ mem) = m ∷ overwrite p bs mem

length-overlay : (bs mem : List ℕ) → length (overlay bs mem) ≡ length mem
unfolding overlay
length-overlay [] mem = refl
length-overlay (b ∷ bs) [] = refl
length-overlay (b ∷ bs) (m ∷ mem) = ap suc (length-overlay bs mem)

-- A copy keeps the size of the block.
pub length-overwrite : (p : ℕ) (bs mem : List ℕ) → length (overwrite p bs mem) ≡ length mem
unfolding overwrite
length-overwrite zero bs mem = length-overlay bs mem
length-overwrite (suc p) bs [] = refl
length-overwrite (suc p) bs (m ∷ mem) = ap suc (length-overwrite p bs mem)

take-overlay : (bs mem : List ℕ) → length bs ≤ length mem → take (length bs) (overlay bs mem) ≡ bs
unfolding overlay
take-overlay [] mem h = refl
take-overlay (b ∷ bs) [] h = absurd (omega arith)
take-overlay (b ∷ bs) (m ∷ mem) h = ap (◌∷◌ b) (take-overlay bs mem (omega arith))

-- A copy behind the first `s` bytes leaves those, and puts its own after them.
pub take-overwrite :
    (s n : ℕ) (bs mem : List ℕ)
    → n ≡ s + length bs
    → n ≤ length mem
    → take n (overwrite s bs mem) ≡ take s mem ++ bs
unfolding overwrite
take-overwrite zero n bs mem e h =
    ap (λ k. take k (overlay bs mem)) (omega arith) ∙ take-overlay bs mem (omega arith)
take-overwrite (suc s) zero bs mem e h = absurd (omega arith)
take-overwrite (suc s) (suc n) bs [] e h = absurd (omega arith)
take-overwrite (suc s) (suc n) bs (m ∷ mem) e h =
    ap (◌∷◌ m) (take-overwrite s n bs mem (omega arith) (omega arith))

pub drop-overwrite :
    (o s p : ℕ) (bs mem : List ℕ)
    → p ≡ o + s
    → o ≤ length mem
    → drop o (overwrite p bs mem) ≡ overwrite s bs (drop o mem)
unfolding overwrite
drop-overwrite zero s p bs mem e h = ap (λ k. overwrite k bs mem) (omega arith)
drop-overwrite (suc o) s zero bs mem e h = absurd (omega arith)
drop-overwrite (suc o) s (suc p) bs [] e h = absurd (omega arith)
drop-overwrite (suc o) s (suc p) bs (m ∷ mem) e h =
    drop-overwrite o s p bs mem (omega arith) (omega arith)

drop-overlay : (bs mem : List ℕ) → drop (length bs) (overlay bs mem) ≡ drop (length bs) mem
unfolding overlay
drop-overlay [] mem = refl
drop-overlay (b ∷ bs) [] = refl
drop-overlay (b ∷ bs) (m ∷ mem) = drop-overlay bs mem

-- A copy to the front of a block: its own bytes, then what was behind them.
pub overwrite-front :
    (bs mem : List ℕ) → length bs ≤ length mem → overwrite 0 bs mem ≡ bs ++ drop (length bs) mem
unfolding overwrite
overwrite-front bs mem h =
    sym (take-append-drop (length bs) (overlay bs mem))
    ∙ ap₂ ◌++◌ (take-overlay bs mem h) (drop-overlay bs mem)
