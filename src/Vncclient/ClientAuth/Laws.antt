-- ===== src/Vncclient/ClientAuth/Laws.antt =====
-- The password's bytes go into the DES key with their bits reversed.
use go_vncdriver.Common.{
  ℕ, zero, suc, ◌+◌, ◌*◌, ◌/◌, ◌%◌, ◌^◌, ◌≤◌, ◌≡◌, refl, ap, ◌∙◌, Bool, true, false, List, [], ◌∷◌,
  ◌++◌, arith, length, take, map, All, ◌==◌, ==_iff, replicate, ltb, Bool-cases, inl, inr,
  overwrite,
}
use go_vncdriver.Common.Bits.{all_below, all_below_sound}
use go_vncdriver.Common.Bytes.{IsByte}
use go_vncdriver.Common.Exec.{Result, ok, err, panic, stuck}
use go_vncdriver.Vncclient.ClientAuth.{reverse_bits, reverse_table, reverse_all, key_bytes}

-- The lowest `k` bits of `b`, the lowest one first.
abbrev pub reversed : ℕ → ℕ → ℕ
reversed zero b = 0
reversed (suc k) b = b % 2 * 2 ^ k + reversed k (b / 2)

abbrev is_ok : ℕ → Result ℕ → Bool
is_ok n (ok m) = m == n
is_ok n _ = false

reverse_table_lem : all_below 256 (λ b. is_ok (reversed 8 b) (reverse_bits b)) ≡ true
unfolding all_below reverse_bits reverse_table
reverse_table_lem = refl

is_ok_lem : (n : ℕ) (r : Result ℕ) → is_ok n r ≡ true → r ≡ ok n
is_ok_lem n (ok m) h = ap ok ((==_iff m n).0 h)
is_ok_lem n (err e) h = cc
is_ok_lem n (panic x) h = cc
is_ok_lem n stuck h = cc

-- The table holds, for every byte, the byte with its eight bits in the opposite order.
pub reverse_bits_lem : (b : ℕ) → IsByte b → reverse_bits b ≡ ok (reversed 8 b)
reverse_bits_lem b h =
    is_ok_lem (reversed 8 b) (reverse_bits b) (all_below_sound 256 _ b reverse_table_lem h)

reverse_all_lem : (ks : List ℕ) → All IsByte ks → reverse_all ks ≡ ok (map (reversed 8) ks)
unfolding reverse_all
reverse_all_lem [] h = refl
reverse_all_lem (k ∷ ks) (h, hs) = rw (reverse_bits_lem k h, reverse_all_lem ks hs)

All-take : (n : ℕ) (ks : List ℕ) → All IsByte ks → All IsByte (take n ks)
All-take zero ks h = tt
All-take (suc n) [] h = tt
All-take (suc n) (k ∷ ks) (h, hs) = (h, All-take n ks hs)

overwrite-nil : (ds : List ℕ) → ds ≡ overwrite ds []
overwrite-nil [] = refl
overwrite-nil (d ∷ ds) = refl

-- Copies over zeros: what is too long is cut, what is too short is filled up.
padded :
    (n m : ℕ) (xs : List ℕ) → n ≤ m → overwrite (replicate n 0) xs ≡ take n (xs ++ replicate m 0)
padded zero m xs h = refl
padded (suc n) zero xs h = absurd (omega arith)
padded (suc n) (suc m) [] h =
    ap (λ t. 0 ∷ t) (overwrite-nil (replicate n 0) ∙ padded n m [] (omega arith))
padded (suc n) (suc m) (x ∷ xs) h = ap (λ t. x ∷ t) (padded n (suc m) xs (omega arith))

cut :
    (n : ℕ) (ks : List ℕ)
    → overwrite (replicate n 0) (map (reversed 8) (take n ks))
      ≡ overwrite (replicate n 0) (map (reversed 8) ks)
cut zero ks = refl
cut (suc n) [] = refl
cut (suc n) (k ∷ ks) = ap (λ t. reversed 8 k ∷ t) (cut n ks)

-- The DES key of a password is its bytes, each with its bits reversed, cut or filled up with zeros
-- to eight bytes.
pub key_bytes_lem :
    (password : List ℕ)
    → All IsByte password
    → key_bytes password ≡ ok (take 8 (map (reversed 8) password ++ replicate 8 0))
unfolding key_bytes
key_bytes_lem password h = elim (Bool-cases (ltb 8 (length password))) [
  | inl long ↦ rw long (
      rw (reverse_all_lem (take 8 password) (All-take 8 password h))
        (ap ok (cut 8 password ∙ padded 8 8 (map (reversed 8) password) (omega arith))))
  | inr short ↦ rw short (
      rw (reverse_all_lem password h)
        (ap ok (padded 8 8 (map (reversed 8) password) (omega arith))))
]
