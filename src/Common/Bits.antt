-- ===== src/Common/Bits.antt =====
-- Masks on one byte as arithmetic; each is a table, checked by evaluation.
use Prim.Native.Nat.{ℕ, zero, suc, ◌*◌, ◌/◌, ◌%◌, ◌<◌, bit_and}
use mathlib.Core.Path.{◌≡◌, refl}
use mathlib.Core.Bool.{Bool, true, ◌&&◌}
use native.Mathlib.Omega.{arith}
use go_vncdriver.Common.Tests.{◌==◌, ==_iff}

unfoldable pub all_below : ℕ → (ℕ → Bool) → Bool
all_below zero test = true
all_below (suc bound) test = test bound && all_below bound test

-- A table that was checked holds for each of its entries.
pub all_below_sound :
    (bound : ℕ) (test : ℕ → Bool) (entry : ℕ)
    → all_below bound test ≡ true
    → entry < bound
    → test entry ≡ true
unfolding all_below
all_below_sound zero test entry checked below = absurd (omega arith)
all_below_sound (suc bound) test entry checked below =
    ground (arith, all_below_sound bound test entry)

low_table : all_below 256 (λ b. bit_and b 127 == b % 128) ≡ true
unfolding all_below
low_table = refl

top_table : all_below 256 (λ b. bit_and b 128 == b / 128 * 128) ≡ true
unfolding all_below
top_table = refl

-- `b & 127` and `b & 128` of a byte.
pub bit_and-127 : (b : ℕ) → b < 256 → bit_and b 127 ≡ b % 128
bit_and-127 b h = (==_iff _ _).0 (all_below_sound 256 _ b low_table h)

pub bit_and-128 : (b : ℕ) → b < 256 → bit_and b 128 ≡ b / 128 * 128
bit_and-128 b h = (==_iff _ _).0 (all_below_sound 256 _ b top_table h)
