-- ===== src/Common/Slices.antt =====
-- Go's slices as lists: `copy`, and writes into a part of a backing array.
use Prim.Native.Nat.{ℕ, zero, suc, ◌+◌, ◌≤◌, ◌<◌}
use mathlib.Core.Logic.{◌⊎◌, inl, inr}
use mathlib.Core.Path.{◌≡◌, refl, ap}
use mathlib.Core.List.{List, [], ◌∷◌, ◌++◌}
use mathlib.Core.Option.{Option, none, some}
use native.Mathlib.Nat.{zero-add, suc-add}
use native.Mathlib.Omega.{arith}
use go_vncdriver.Common.Exec.{Result, ok, panic, index_out_of_range}
use go_vncdriver.Common.Lists.{length, get_elem?, take, drop}

module _ {ℓ} {A : Type ℓ} where
  abbrev pub element : Option A → Result A
  element none = panic index_out_of_range
  element (some x) = ok x

  -- `xs[i]`
  abbrev pub index : List A → ℕ → Result A
  index xs i = element (get_elem? xs i)

  -- `copy(dst, src)`: stops at the end of the shorter one.
  abbrev pub overwrite : List A → List A → List A
  overwrite [] xs = []
  overwrite (d ∷ ds) [] = d ∷ ds
  overwrite (d ∷ ds) (x ∷ xs) = x ∷ overwrite ds xs

  -- `copy(dst[n:], src)`, seen on the whole of `dst`.
  abbrev pub copy_at : List A → ℕ → List A → List A
  copy_at [] n xs = []
  copy_at (d ∷ ds) zero xs = overwrite (d ∷ ds) xs
  copy_at (d ∷ ds) (suc n) xs = d ∷ copy_at ds n xs

  pub length-overwrite : (ds xs : List A) → length (overwrite ds xs) ≡ length ds
  length-overwrite [] xs = refl
  length-overwrite (d ∷ ds) [] = refl
  length-overwrite (d ∷ ds) (x ∷ xs) = ap suc (length-overwrite ds xs)

  pub length-copy_at : (ds : List A) (n : ℕ) (xs : List A) → length (copy_at ds n xs) ≡ length ds
  length-copy_at [] n xs = refl
  length-copy_at (d ∷ ds) zero xs = length-overwrite (d ∷ ds) xs
  length-copy_at (d ∷ ds) (suc n) xs = ap suc (length-copy_at ds n xs)

  pub overwrite_fits :
      (ds xs : List A) → length xs ≤ length ds → overwrite ds xs ≡ xs ++ drop (length xs) ds
  overwrite_fits [] [] h = refl
  overwrite_fits [] (x ∷ xs) h = absurd (omega arith)
  overwrite_fits (d ∷ ds) [] h = refl
  overwrite_fits (d ∷ ds) (x ∷ xs) h = ap (λ t. x ∷ t) (overwrite_fits ds xs (omega arith))

  -- A copy that fits: what stands before and behind it stays.
  pub copy_at_fits :
      (ds : List A) (n : ℕ) (xs : List A)
      → n + length xs ≤ length ds
      → copy_at ds n xs ≡ take n ds ++ (xs ++ drop (n + length xs) ds)
  copy_at_fits [] zero [] h = refl
  copy_at_fits [] zero (x ∷ xs) h = absurd (omega arith)
  copy_at_fits [] (suc n) xs h = absurd (omega arith)
  copy_at_fits (d ∷ ds) zero xs h = rw zero-add (overwrite_fits (d ∷ ds) xs (omega arith))
  copy_at_fits (d ∷ ds) (suc n) xs h =
      rw suc-add (ap (λ t. d ∷ t) (copy_at_fits ds n xs (omega arith)))

  pub overwrite-append :
      (ds xs ys : List A) → copy_at (overwrite ds xs) (length xs) ys ≡ overwrite ds (xs ++ ys)
  overwrite-append [] xs ys = refl
  overwrite-append (d ∷ ds) [] ys = refl
  overwrite-append (d ∷ ds) (x ∷ xs) ys = ap (λ t. x ∷ t) (overwrite-append ds xs ys)

  -- Two copies side by side are one.
  pub copy_at-append :
      (ds : List A) (n : ℕ) (xs ys : List A)
      → copy_at (copy_at ds n xs) (n + length xs) ys ≡ copy_at ds n (xs ++ ys)
  copy_at-append [] n xs ys = refl
  copy_at-append (d ∷ ds) zero xs ys = rw zero-add (overwrite-append (d ∷ ds) xs ys)
  copy_at-append (d ∷ ds) (suc n) xs ys = rw suc-add (ap (λ t. d ∷ t) (copy_at-append ds n xs ys))

  pub copy_at-nil : (ds : List A) (n : ℕ) → copy_at ds n [] ≡ ds
  copy_at-nil [] n = refl
  copy_at-nil (d ∷ ds) zero = refl
  copy_at-nil (d ∷ ds) (suc n) = ap (λ t. d ∷ t) (copy_at-nil ds n)

  pub take-overwrite :
      (ds xs : List A) → length xs ≤ length ds → take (length xs) (overwrite ds xs) ≡ xs
  take-overwrite ds [] h = refl
  take-overwrite [] (x ∷ xs) h = absurd (omega arith)
  take-overwrite (d ∷ ds) (x ∷ xs) h = ap (λ t. x ∷ t) (take-overwrite ds xs (omega arith))

  pub take-copy_at_zero :
      (ds xs : List A) → length xs ≤ length ds → take (length xs) (copy_at ds 0 xs) ≡ xs
  take-copy_at_zero [] [] h = refl
  take-copy_at_zero [] (x ∷ xs) h = absurd (omega arith)
  take-copy_at_zero (d ∷ ds) xs h = take-overwrite (d ∷ ds) xs h

  pub overwrite_whole : (ds xs : List A) → length xs ≡ length ds → overwrite ds xs ≡ xs
  overwrite_whole [] [] h = refl
  overwrite_whole [] (x ∷ xs) h = absurd (omega arith)
  overwrite_whole (d ∷ ds) [] h = absurd (omega arith)
  overwrite_whole (d ∷ ds) (x ∷ xs) h = ap (λ t. x ∷ t) (overwrite_whole ds xs (omega arith))

  get-overwrite_in :
      (ds xs : List A) (i : ℕ)
      → length xs ≤ length ds
      → i < length xs
      → get_elem? (overwrite ds xs) i ≡ get_elem? xs i
  get-overwrite_in [] [] i h lt = absurd (omega arith)
  get-overwrite_in [] (x ∷ xs) i h lt = absurd (omega arith)
  get-overwrite_in (d ∷ ds) [] i h lt = absurd (omega arith)
  get-overwrite_in (d ∷ ds) (x ∷ xs) zero h lt = refl
  get-overwrite_in (d ∷ ds) (x ∷ xs) (suc i) h lt =
      get-overwrite_in ds xs i (omega arith) (omega arith)

  get-overwrite_out :
      (ds xs : List A) (i : ℕ) → length xs ≤ i → get_elem? (overwrite ds xs) i ≡ get_elem? ds i
  get-overwrite_out [] xs i h = refl
  get-overwrite_out (d ∷ ds) [] i h = refl
  get-overwrite_out (d ∷ ds) (x ∷ xs) zero h = absurd (omega arith)
  get-overwrite_out (d ∷ ds) (x ∷ xs) (suc i) h = get-overwrite_out ds xs i (omega arith)

  -- Inside a copy that fits, and outside of any copy.
  pub get-copy_at_in :
      (ds : List A) (n : ℕ) (xs : List A) (i : ℕ)
      → n + length xs ≤ length ds
      → i < length xs
      → get_elem? (copy_at ds n xs) (n + i) ≡ get_elem? xs i
  get-copy_at_in [] n xs i h lt = absurd (omega arith)
  get-copy_at_in (d ∷ ds) zero xs i h lt =
      rw zero-add (get-overwrite_in (d ∷ ds) xs i (omega arith) lt)
  get-copy_at_in (d ∷ ds) (suc n) xs i h lt = rw suc-add (get-copy_at_in ds n xs i (omega arith) lt)

  pub get-copy_at_out :
      (ds : List A) (n : ℕ) (xs : List A) (i : ℕ)
      → (i < n) ⊎ (n + length xs ≤ i)
      → get_elem? (copy_at ds n xs) i ≡ get_elem? ds i
  get-copy_at_out [] n xs i h = refl
  get-copy_at_out (d ∷ ds) zero xs i (inl h) = absurd (omega arith)
  get-copy_at_out (d ∷ ds) zero xs i (inr h) = get-overwrite_out (d ∷ ds) xs i (omega arith)
  get-copy_at_out (d ∷ ds) (suc n) xs zero h = refl
  get-copy_at_out (d ∷ ds) (suc n) xs (suc i) (inl h) =
      get-copy_at_out ds n xs i (inl (omega arith))
  get-copy_at_out (d ∷ ds) (suc n) xs (suc i) (inr h) =
      get-copy_at_out ds n xs i (inr (omega arith))

  pub get-take : (n : ℕ) (xs : List A) (i : ℕ) → i < n → get_elem? (take n xs) i ≡ get_elem? xs i
  get-take zero xs i h = absurd (omega arith)
  get-take (suc n) [] i h = refl
  get-take (suc n) (x ∷ xs) zero h = refl
  get-take (suc n) (x ∷ xs) (suc i) h = get-take n xs i (omega arith)

  -- One element of a list, written and read.
  pub get-copy_at_one :
      (xs : List A) (i : ℕ) (x y : A)
      → get_elem? xs i ≡ some x
      → get_elem? (copy_at xs i (y ∷ [])) i ≡ some y
  get-copy_at_one [] i x y h = cc
  get-copy_at_one (a ∷ as') zero x y h = refl
  get-copy_at_one (a ∷ as') (suc i) x y h = get-copy_at_one as' i x y h

  pub copy_at-copy_at_one :
      (xs : List A) (i : ℕ) (x y : A)
      → copy_at (copy_at xs i (x ∷ [])) i (y ∷ []) ≡ copy_at xs i (y ∷ [])
  copy_at-copy_at_one [] i x y = refl
  copy_at-copy_at_one (a ∷ []) zero x y = refl
  copy_at-copy_at_one (a ∷ b ∷ bs) zero x y = refl
  copy_at-copy_at_one (a ∷ as') (suc i) x y = ap (λ t. a ∷ t) (copy_at-copy_at_one as' i x y)
