-- ===== src/Gymvnc/Connect/Retry.antt =====
-- The loop of `connect` over the attempts.
use go_vncdriver.Common.{
  ℕ, ◌⊎◌, zero, suc, ◌+◌, ◌-◌, ◌*◌, ◌≤◌, ◌<◌, ◌≡◌, ap, ◌∙◌, true, false, arith, ltb, lt→ltb, le→leb,
  lt→leb, ◌&&◌, Bool-cases, inl, inr,
}
use native.Mathlib.Nat.{zero-add}
use go_vncdriver.Common.Exec.{Result}
use go_vncdriver.Common.Total.{IsFinished}
use go_vncdriver.Gymvnc.Connect.{second, sleep_target, Attempt, retry}

-- What the first `n` sleeps take.
unfoldable pub slept : ℕ → ℕ
slept zero = 0
slept (suc n) = slept n + sleep_target n

module _ {C : Type 0} (timeout : ℕ) (attempt : ℕ → Attempt C) where
  again :
      (fuel i total : ℕ)
      → (attempt i).1 ≡ true
      → total < timeout
      → retry timeout attempt (suc fuel) i total
        ≡ retry timeout attempt fuel (i + 1) (total + sleep_target i)
  unfolding retry
  again fuel i total soft h =
      rw (soft, lt→ltb 0 timeout (omega arith)) (rw (lt→leb timeout total h))

  ends_hard :
      (fuel i total : ℕ)
      → (attempt i).1 ≡ false
      → retry timeout attempt (suc fuel) i total ≡ ((attempt i).0, total)
  unfolding retry
  ends_hard fuel i total hard = rw hard

  ends_late :
      (fuel i total : ℕ)
      → timeout ≤ total
      → retry timeout attempt (suc fuel) i total ≡ ((attempt i).0, total)
  unfolding retry
  ends_late fuel i total h = elim (Bool-cases ((attempt i).1 && ltb 0 timeout)) [
    | inl soft ↦ rw soft (rw (le→leb timeout total h))
    | inr hard ↦ rw hard
  ]

  -- The loop has gone on through `n` attempts that failed softly.
  goes_on :
      (n fuel : ℕ)
      → ((j : ℕ) → j < n → ((attempt j).1 ≡ true) × (slept j < timeout))
      → retry timeout attempt (n + fuel) 0 0 ≡ retry timeout attempt fuel n (slept n)
  unfolding slept
  goes_on zero fuel h = rw zero-add
  goes_on (suc n) fuel h =
      ap (λ k. retry timeout attempt k 0 0) (omega arith)
      ∙ goes_on n (suc fuel) (λ j p. h j (omega arith))
      ∙ again fuel n (slept n) (h n (omega arith)).0 (h n (omega arith)).1
      ∙ ap (λ k. retry timeout attempt fuel k (slept n + sleep_target n)) (omega arith)

  -- Where the first `n` attempts fail softly before the start timeout is slept through, and the next
  -- one fails hard or succeeds, or comes when the timeout has been slept through, the loop ends with
  -- that attempt, and has slept between the attempts and no longer.
  pub retry_lem :
      (n fuel : ℕ)
      → ((j : ℕ) → j < n → ((attempt j).1 ≡ true) × (slept j < timeout))
      → ((attempt n).1 ≡ false) ⊎ (timeout ≤ slept n)
      → n < fuel
      → retry timeout attempt fuel 0 0 ≡ ((attempt n).0, slept n)
  retry_lem n fuel soft last enough =
      ap (λ k. retry timeout attempt k 0 0) (omega arith)
      ∙ goes_on n (suc (fuel - n - 1)) soft
      ∙ elim last [
        | inl hard ↦ ends_hard (fuel - n - 1) n (slept n) hard
        | inr late ↦ ends_late (fuel - n - 1) n (slept n) late
      ]

  -- A result that is one of an attempt, within the bound on the time.
  abbrev IsEnd : Result C × ℕ → Type 0
  IsEnd r = IsFinished r.0 × (r.1 < timeout + 30 * second)
