-- ===== src/Gymvnc/Batch/Names.antt =====
-- The map of a `VNCBatch`: a name is found where it was put, and no other is touched.
use go_vncdriver.Common.{
  ℕ, ◌==◌, ==_iff, eq→eqb, ◌≡◌, refl, sym, ap, ◌∙◌, Bool, true, false, ◌&&◌, List, [], ◌∷◌, none,
  some, Bool-cases, inl, inr, if◌then◌else◌,
}
use go_vncdriver.Gymvnc.Lifecycle.{VncSession, same_name}
use go_vncdriver.Gymvnc.Batch.{VncBatch, find, remove, put, session_named}

pub same_name_refl : (n : List ℕ) → same_name n n ≡ true
unfolding same_name
same_name_refl [] = refl
same_name_refl (x ∷ xs) = rw (eq→eqb x x refl) (same_name_refl xs)

and_true : (b : Bool) → (true && b) ≡ b
and_true b = refl

pub same_name_eq : (m n : List ℕ) → same_name m n ≡ true → m ≡ n
unfolding same_name
same_name_eq [] [] h = refl
same_name_eq [] (y ∷ ys) h = cc
same_name_eq (x ∷ xs) [] h = cc
same_name_eq (x ∷ xs) (y ∷ ys) h = elim (Bool-cases (x == y)) [
  | inl same ↦
      let e : x ≡ y = (==_iff x y).0 same in
      let es = same_name_eq xs ys (cc (h, and_true (same_name xs ys))) in cc
  | inr other ↦ cc (h, ap (λ b. b && same_name xs ys) other)
]

pub same_name_sym : (m n : List ℕ) → same_name n m ≡ false → same_name m n ≡ false
same_name_sym m n h = elim (Bool-cases (same_name m n)) [
  | inl same ↦ cc (h, ap (same_name n) (same_name_eq m n same), same_name_refl n)
  | inr other ↦ other
]

module _ {I : Type 0} where
  pub find-remove :
      (m n : List ℕ) (b : List (List ℕ × VncSession I))
      → same_name m n ≡ false
      → find m (remove n b) ≡ find m b
  unfolding find remove
  find-remove m n [] h = refl
  find-remove m n ((k, v) ∷ rest) h = elim (Bool-cases (same_name n k)) [
    | inl gone ↦ rw gone (rw (not_it gone) (find-remove m n rest h))
    | inr kept ↦ rw kept (ap (λ l. if same_name m k then some v else l) (find-remove m n rest h))
  ]
    where
      not_it : same_name n k ≡ true → same_name m k ≡ false
      not_it gone = ap (same_name m) (sym (same_name_eq n k gone)) ∙ h

  pub find-removed : (n : List ℕ) (b : List (List ℕ × VncSession I)) → find n (remove n b) ≡ none
  unfolding find remove
  find-removed n [] = refl
  find-removed n ((k, v) ∷ rest) = elim (Bool-cases (same_name n k)) [
    | inl gone ↦ rw gone (find-removed n rest)
    | inr kept ↦ rw kept (rw kept (find-removed n rest))
  ]

  pub find-put :
      (m n : List ℕ) (v : VncSession I) (b : VncBatch I)
      → session_named m (put n v b) ≡ (if same_name m n then some v else session_named m b)
  unfolding find
  find-put m n v b = elim (Bool-cases (same_name m n)) [
    | inl same ↦ rw same refl
    | inr other ↦ rw other (find-remove m n b.sessions other)
  ]
