-- ===== src/Common/Masks.antt =====
-- A mask of the lowest eight digits, on numbers of any size.
use Prim.Native.Nat.{ℕ, zero, suc, ◌+◌, ◌*◌, ◌/◌, ◌%◌, ◌≤◌, min, bit_and, bit_and-bitwise, digits}
use mathlib.Core.Path.{◌≡◌, refl, ap, ◌∙◌}
use native.Mathlib.Omega.{arith}

-- The lowest digits of `a`, those of `mask`, are the remainder of `a`; `n` digits are looked at.
abbrev IsMask : (mask size : ℕ) → Type 0
IsMask mask size = (n a : ℕ) → a ≤ n → digits (λ b. zero) min n a mask ≡ a % size

empty-IsMask : IsMask 0 1
empty-IsMask zero a h = omega arith
empty-IsMask (suc n) zero h = omega arith
empty-IsMask (suc n) (suc a) h = rw (empty-IsMask n (suc a / 2) (omega arith)) (omega arith)

-- One digit more.
wider-IsMask :
    (mask size wider double : ℕ)
    → wider / 2 ≡ mask
    → wider % 2 ≡ 1
    → zero % double ≡ zero
    → ((a : ℕ) → a / 2 % size * 2 + a % 2 ≡ a % double)
    → IsMask mask size
    → IsMask wider double
wider-IsMask mask size wider double half odd nil split known zero zero h = rw nil refl
wider-IsMask mask size wider double half odd nil split known zero (suc a) h = absurd (omega arith)
wider-IsMask mask size wider double half odd nil split known (suc n) zero h = rw nil refl
wider-IsMask mask size wider double half odd nil split known (suc n) (suc a) h =
    rw (half, odd)
      (rw (known n (suc a / 2) (omega arith))
        (ap (λ d. suc a / 2 % size * 2 + d) (omega arith) ∙ split (suc a)))

byte-IsMask : IsMask 255 256
byte-IsMask =
    wider-IsMask 127 128 255 256 refl refl (omega arith) (λ a. omega arith)
      (wider-IsMask 63 64 127 128 refl refl (omega arith) (λ a. omega arith)
        (wider-IsMask 31 32 63 64 refl refl (omega arith) (λ a. omega arith)
          (wider-IsMask 15 16 31 32 refl refl (omega arith) (λ a. omega arith)
            (wider-IsMask 7 8 15 16 refl refl (omega arith) (λ a. omega arith)
              (wider-IsMask 3 4 7 8 refl refl (omega arith) (λ a. omega arith)
                (wider-IsMask 1 2 3 4 refl refl (omega arith) (λ a. omega arith)
                  (wider-IsMask 0 1 1 2 refl refl (omega arith) (λ a. omega arith)
                    empty-IsMask)))))))

pub bit_and-255 : (n : ℕ) → bit_and n 255 ≡ n % 256
bit_and-255 n = bit_and-bitwise n 255 ∙ byte-IsMask n n (omega arith)
