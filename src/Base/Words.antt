-- ===== src/Base/Words.antt =====
-- `size_t` arithmetic and 16-bit words in network byte order.
use Prim.Native.Nat.{ℕ, ◌+◌, ◌-◌, ◌*◌, ◌/◌, ◌%◌, ◌^◌, ◌<◌}
use mathlib.Core.Path.{◌≡◌}
use mathlib.Core.List.{List, [], ◌∷◌}
use native.Mathlib.Omega.{arith}

-- `size_t` a + b and a - b; `-` on ℕ is truncated, so the modulus is added first.
abbrev pub add_size : ℕ → ℕ → ℕ
add_size a b = (a + b) % 2 ^ 64

abbrev pub sub_size : ℕ → ℕ → ℕ
sub_size a b = (a + 2 ^ 64 - b) % 2 ^ 64

-- The two bytes of `htons(v)` in memory, and `ntohs` of two bytes.
abbrev pub htons : ℕ → List ℕ
htons v = (v / 256 % 256) ∷ (v % 256) ∷ []

abbrev pub ntohs : ℕ → ℕ → ℕ
ntohs hi lo = hi * 256 + lo

pub ntohs-htons : (v : ℕ) → v < 2 ^ 16 → ntohs (v / 256 % 256) (v % 256) ≡ v
ntohs-htons v h = omega arith
