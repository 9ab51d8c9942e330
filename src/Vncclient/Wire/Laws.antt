-- ===== src/Vncclient/Wire/Laws.antt =====
-- Reading what was written, and slices of a buffer.
use go_vncdriver.Common.{
  ℕ, zero, suc, ◌+◌, ◌-◌, ◌≤◌, ◌<◌, ◌≡◌, refl, ap, ◌∙◌, List, [], ◌∷◌, ◌++◌, arith, length, take,
  replicate, ne→eqb, le→ltb, length-append, take-append_left, drop-append_left,
}
use native.Mathlib.Nat.{zero-add, suc-add}
use go_vncdriver.Common.Bytes.{of_be, be16, be32, IsU16, IsU32}
use go_vncdriver.Common.Exec.{ok}
use go_vncdriver.Vncclient.Wire.{read_full, read_number, reslice}

pub read_full-append :
    (bs rest : List ℕ) → 0 < length bs → read_full (length bs) (bs ++ rest) ≡ (ok bs, rest)
unfolding read_full
read_full-append bs rest h = rw (ne→eqb (length bs) 0 (omega arith)) (
    rw (ne→eqb (length (bs ++ rest)) 0 (omega (arith, length-append bs rest))) (
      rw (le→ltb (length (bs ++ rest)) (length bs) (omega (arith, length-append bs rest)))
        (rw (take-append_left bs rest, drop-append_left bs rest))))

pub read_number-append :
    (bs rest : List ℕ)
    → 0 < length bs
    → read_number (length bs) (bs ++ rest) ≡ (ok (of_be 0 bs), rest)
unfolding read_number
read_number-append bs rest h = rw (read_full-append bs rest h)

pub read_u8-cons : (b : ℕ) (rest : List ℕ) → read_number 1 (b ∷ rest) ≡ (ok b, rest)
read_u8-cons b rest =
    read_number-append (b ∷ []) rest (omega arith) ∙ ap (λ n. (ok n, rest)) (omega arith)

pub read_u16-be16 :
    (n : ℕ) (rest : List ℕ) → IsU16 n → read_number 2 (be16 n ++ rest) ≡ (ok n, rest)
read_u16-be16 n rest h =
    read_number-append (be16 n) rest (omega arith) ∙ ap (λ m. (ok m, rest)) (omega arith)

pub read_u32-be32 :
    (n : ℕ) (rest : List ℕ) → IsU32 n → read_number 4 (be32 n ++ rest) ≡ (ok n, rest)
read_u32-be32 n rest h =
    read_number-append (be32 n) rest (omega arith) ∙ ap (λ m. (ok m, rest)) (omega arith)

-- A slice of all that was written.
pub reslice_exact :
    (cap : ℕ) (bs : List ℕ) (n : ℕ) → length bs ≤ cap → n ≡ length bs → reslice cap bs n ≡ ok bs
unfolding reslice
reslice_exact cap bs n h e =
    rw (e, le→ltb cap (length bs) h) (rw (take-append_left bs (replicate (cap - length bs) 0)))

take-replicate {ℓ} : {A : Type ℓ} (m n : ℕ) (a : A) → m ≤ n → take m (replicate n a) ≡ replicate m a
take-replicate zero n a h = refl
take-replicate (suc m) zero a h = absurd (omega arith)
take-replicate (suc m) (suc n) a h = ap (λ t. a ∷ t) (take-replicate m n a (omega arith))

take-append {ℓ} :
    {A : Type ℓ} (xs : List A) (n : ℕ) (ys : List A)
    → take (length xs + n) (xs ++ ys) ≡ xs ++ take n ys
take-append [] n ys = rw zero-add
take-append (x ∷ xs) n ys = rw suc-add (ap (λ t. x ∷ t) (take-append xs n ys))

-- A longer slice is padded with zeros.
pub reslice_padded :
    (cap : ℕ) (bs : List ℕ) (n k : ℕ)
    → n ≤ cap
    → n ≡ length bs + k
    → reslice cap bs n ≡ ok (bs ++ replicate k 0)
unfolding reslice
reslice_padded cap bs n k h e = rw (le→ltb cap n h) (
    rw (
      e,
      take-append bs k (replicate (cap - length bs) 0),
      take-replicate k (cap - length bs) (let z : ℕ = 0 in z) (omega arith),
    ))
