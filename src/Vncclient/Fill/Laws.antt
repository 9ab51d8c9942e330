-- ===== src/Vncclient/Fill/Laws.antt =====
-- Both fill loops write every element, whatever the length.
use go_vncdriver.Common.{
  ℕ, zero, suc, ◌+◌, ◌*◌, ◌≤◌, ◌<◌, ◌≡◌, refl, ap, ◌∙◌, List, [], ◌∷◌, arith, ltb, length, take,
  drop, copy_at, overwrite, replicate, Bool-cases, inl, inr, length-copy_at, ltb→lt, ltb→le,
  length-take, length-drop, le→ltb,
}
use native.Mathlib.Nat.{zero-add, suc-add}
use go_vncdriver.Common.Exec.{ok}
use go_vncdriver.Vncclient.Fill.{fill_doubling, fill_color, fill_color2, fill_run, fill_run2}

module _ {ℓ} {A : Type ℓ} (v : A) where
  -- The first `n` elements are `v`, as far as there are any.
  abbrev Filled : ℕ → List A → Type ℓ
  Filled zero ds = Unit {ℓ}
  Filled (suc n) [] = Unit {ℓ}
  Filled (suc n) (d ∷ ds) = (d ≡ v) × Filled n ds

  Filled-all : (n : ℕ) (ds : List A) → length ds ≤ n → Filled n ds → ds ≡ replicate (length ds) v
  Filled-all n [] h f = refl
  Filled-all zero (d ∷ ds) h f = absurd (omega arith)
  Filled-all (suc n) (d ∷ ds) h (e, f) = rw e (ap (λ t. v ∷ t) (Filled-all n ds (omega arith) f))

  take-Filled : (n : ℕ) (ds : List A) → n ≤ length ds → Filled n ds → take n ds ≡ replicate n v
  take-Filled zero ds h f = refl
  take-Filled (suc n) [] h f = absurd (omega arith)
  take-Filled (suc n) (d ∷ ds) h (e, f) = rw e (ap (λ t. v ∷ t) (take-Filled n ds (omega arith) f))

  overwrite-Filled : (n : ℕ) (ds : List A) → Filled n (overwrite ds (replicate n v))
  overwrite-Filled zero ds = tt
  overwrite-Filled (suc n) [] = tt
  overwrite-Filled (suc n) (d ∷ ds) = (refl, overwrite-Filled n ds)

  Filled-zero : (ds : List A) → Filled 0 ds
  Filled-zero ds = tt

  Filled-nil : (n : ℕ) → Filled n []
  Filled-nil zero = tt
  Filled-nil (suc n) = tt

  copy_at-Filled :
      (m n : ℕ) (ds : List A) → Filled m ds → Filled (m + n) (copy_at ds m (replicate n v))
  copy_at-Filled zero n [] f = Filled-nil (0 + n)
  copy_at-Filled zero n (d ∷ ds) f = rw zero-add (overwrite-Filled n (d ∷ ds))
  copy_at-Filled (suc m) n [] f = rw suc-add tt
  copy_at-Filled (suc m) n (d ∷ ds) (e, f) = rw suc-add (e, copy_at-Filled m n ds f)

  fill_doubling_lem :
      (fuel bp : ℕ) (dst : List A)
      → 0 < bp
      → 0 < fuel
      → length dst < fuel + bp
      → Filled bp dst
      → fill_doubling fuel bp dst ≡ ok (replicate (length dst) v)
  unfolding fill_doubling
  fill_doubling_lem zero bp dst pos some_fuel h f = absurd (omega arith)
  fill_doubling_lem (suc fuel) bp dst pos some_fuel h f = elim (Bool-cases (ltb bp (length dst))) [
    | inl more ↦
        let lt = ltb→lt bp (length dst) more in
        let size = length-copy_at dst bp (take bp dst) in
        let two : bp * 2 ≡ bp + bp = omega arith in
        let filled : Filled (bp * 2) (copy_at dst bp (take bp dst)) =
          rw (two, take-Filled bp dst (omega arith) f) (copy_at-Filled bp bp dst f) in
        rw more (
          fill_doubling_lem fuel (bp * 2) (copy_at dst bp (take bp dst)) (omega arith) (omega arith)
            (omega arith) filled
          ∙ rw size)
    | inr done ↦ rw done (ap ok (Filled-all bp dst (ltb→le bp (length dst) done) f))
  ]

  -- The doubling copies write the whole slice: `fillColor` agrees with the plain loop.
  pub fill_color_lem :
      (dst : List A) → 0 < length dst → fill_color dst v ≡ ok (replicate (length dst) v)
  unfolding fill_color
  fill_color_lem [] h = absurd (omega arith)
  fill_color_lem (d ∷ ds) h =
      fill_doubling_lem (length (d ∷ ds)) 1 (v ∷ ds) (omega arith) (omega arith) (omega arith)
        (refl, Filled-zero ds)

  pub fill_color2_lem : (dst : List A) → fill_color2 dst v ≡ replicate (length dst) v
  unfolding fill_color2
  fill_color2_lem [] = refl
  fill_color2_lem (d ∷ ds) = ap (λ t. v ∷ t) (fill_color2_lem ds)

  module _ (mem : List A) (pos count : ℕ) (fits : pos + count ≤ length mem) where
    length-slice : length (take count (drop pos mem)) ≡ count
    length-slice = omega (arith, length-take count (drop pos mem), length-drop pos mem)

    pub fill_run_lem :
        0 < count → fill_run mem pos count v ≡ ok (copy_at mem pos (replicate count v))
    unfolding fill_run
    fill_run_lem some_room = rw (le→ltb (length mem) (pos + count) fits) (
        rw (fill_color_lem (take count (drop pos mem)) (omega (arith, length-slice)))
          (rw length-slice))

    pub fill_run2_lem : fill_run2 mem pos count v ≡ ok (copy_at mem pos (replicate count v))
    unfolding fill_run2
    fill_run2_lem =
        rw (le→ltb (length mem) (pos + count) fits)
          (rw (fill_color2_lem (take count (drop pos mem))) (rw length-slice))
