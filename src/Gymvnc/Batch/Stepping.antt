-- ===== src/Gymvnc/Batch/Stepping.antt =====
-- `Step` of a `VNCBatch`, against the steps of its sessions.
use go_vncdriver.Common.{
  sym, subst, ℕ, ◌≡◌, refl, ap, ◌∙◌, false, List, [], ◌∷◌, Option, none, some, All, Bool-cases,
  Option-cases, inl, inr, if◌then◌else◌,
}
use go_vncdriver.Common.Exec.{
  Exec, Result, ok, err, panic, stuck, bind, nil_dereference, continue, pure, ◌>>=◌,
}
use go_vncdriver.Gymvnc.Events.{VncEvent}
use go_vncdriver.Gymvnc.Lifecycle.{VncSession, same_name}
use go_vncdriver.Gymvnc.Lifecycle.Operations.{step}
use go_vncdriver.Gymvnc.Batch.{
  VncBatch, Outcome, outcome_of, put, session_named, batch_step, step_found,
}
use go_vncdriver.Gymvnc.Batch.Names.{same_name_refl, same_name_sym, same_name_eq, find-put}

-- No action has this name.
abbrev pub IsApart : List ℕ → List (List ℕ × List VncEvent) → Type 0
IsApart n acts = All (λ (a : List ℕ × List VncEvent). same_name a.0 n ≡ false) acts

-- The keys of a map.
abbrev pub AreKeys : List (List ℕ × List VncEvent) → Type 0
AreKeys [] = Unit
AreKeys ((n, events) ∷ rest) = IsApart n rest × AreKeys rest

module _ (capacity : ℕ → ℕ) {I : Type 0} where
  abbrev pub outcome_at : List VncEvent → Option (VncSession I) → Result Outcome
  outcome_at events none = panic nil_dereference
  outcome_at events (some v) = outcome_of (step capacity events v).0

  -- What each session on its own returns.
  abbrev pub gather : List (List ℕ × List VncEvent) → VncBatch I → Result (List (List ℕ × Outcome))
  gather [] b = ok []
  gather ((n, events) ∷ rest) b =
      bind (outcome_at events (session_named n b)) λ o. bind (gather rest b) λ os. ok ((n, o) ∷ os)

  gather-apart :
      (acts : List (List ℕ × List VncEvent)) (n : List ℕ) (v : VncSession I) (b : VncBatch I)
      → IsApart n acts
      → gather acts (put n v b) ≡ gather acts b
  gather-apart [] n v b h = refl
  gather-apart ((m, events) ∷ rest) n v b (h, hs) =
      rw (find-put m n v b ∙ ap (λ c. if c then some v else session_named m b) h)
        (rw (gather-apart rest n v b hs) refl)

  listed :
      (n : List ℕ) (o : Outcome) (r : Result (List (List ℕ × Outcome))) (b : VncBatch I)
      → (continue r (λ os. pure ((n, o) ∷ os)) b).0 ≡ bind r (λ os. ok ((n, o) ∷ os))
  listed n o (ok os) b = refl
  listed n o (err e) b = refl
  listed n o (panic x) b = refl
  listed n o stuck b = refl

  continued :
      (n : List ℕ) (rest : List (List ℕ × List VncEvent)) (b b' : VncBatch I)
      → (batch_step capacity rest b').0 ≡ gather rest b
      → (r : Result Outcome)
      → (continue r (λ o. batch_step capacity rest >>= λ os. pure ((n, o) ∷ os)) b').0
        ≡ bind r (λ o. bind (gather rest b) λ os. ok ((n, o) ∷ os))
  continued n rest b b' e (ok o) =
      listed n o (batch_step capacity rest b').0 (batch_step capacity rest b').1
      ∙ ap (λ r. bind r (λ os. ok ((n, o) ∷ os))) e
  continued n rest b b' e (err x) = refl
  continued n rest b b' e (panic x) = refl
  continued n rest b b' e stuck = refl

  abbrev pub after_events : List VncEvent → Option (VncSession I) → Option (VncSession I)
  after_events events none = none
  after_events events (some v) = some (step capacity events v).1

  -- A session after its events, if it got any.
  abbrev pub advanced :
      List ℕ → List (List ℕ × List VncEvent) → Option (VncSession I) → Option (VncSession I)
  advanced m [] o = o
  advanced m ((n, events) ∷ rest) o =
      if same_name n m then after_events events o else advanced m rest o

  advanced-apart :
      (acts : List (List ℕ × List VncEvent)) (m : List ℕ) (o : Option (VncSession I))
      → IsApart m acts
      → advanced m acts o ≡ o
  advanced-apart [] m o h = refl
  advanced-apart ((n, events) ∷ rest) m o (h, hs) = rw h (advanced-apart rest m o hs)

  gather_lem :
      (acts : List (List ℕ × List VncEvent)) (b : VncBatch I)
      → AreKeys acts
      → (batch_step capacity acts b).0 ≡ gather acts b
  unfolding batch_step
  gather_lem [] b h = refl
  gather_lem ((n, events) ∷ rest) b (h, hs) = elim (Option-cases (session_named n b)) [
    | inl missing ↦ rw missing refl
    | inr (v, there) ↦
        let w : VncSession I = (step capacity events v).1 in
        rw there (
          continued n rest b (put n w b)
            (gather_lem rest (put n w b) hs ∙ gather-apart rest n w b h)
            (outcome_of (step capacity events v).0))
  ]

  listed_ok :
      (n : List ℕ) (o : Outcome) (r : Result (List (List ℕ × Outcome))) (c b' : VncBatch I)
      (os : List (List ℕ × Outcome))
      → continue r (λ os'. pure ((n, o) ∷ os')) c ≡ (ok os, b')
      → (os' : List (List ℕ × Outcome)) × (r ≡ ok os') × (c ≡ b')
  listed_ok n o (ok os') c b' os e = (os', refl, ap (λ p. p.1) e)
  listed_ok n o (err x) c b' os e = cc
  listed_ok n o (panic x) c b' os e = cc
  listed_ok n o stuck c b' os e = cc

  continued_ok :
      (n : List ℕ) (rest : List (List ℕ × List VncEvent)) (r : Result Outcome) (c b' : VncBatch I)
      (os : List (List ℕ × Outcome))
      → continue r (λ o. batch_step capacity rest >>= λ os'. pure ((n, o) ∷ os')) c ≡ (ok os, b')
      → (os' : List (List ℕ × Outcome)) × (batch_step capacity rest c ≡ (ok os', b'))
  continued_ok n rest (ok o) c b' os e =
      let (os', fine, same) =
        listed_ok n o (batch_step capacity rest c).0 (batch_step capacity rest c).1 b' os e in
      (os', λ i. (fine i, same i))
  continued_ok n rest (err x) c b' os e = cc
  continued_ok n rest (panic x) c b' os e = cc
  continued_ok n rest stuck c b' os e = cc

  advanced-put :
      (m n : List ℕ) (events : List VncEvent) (rest : List (List ℕ × List VncEvent))
      (b : VncBatch I) (v : VncSession I)
      → IsApart n rest
      → session_named n b ≡ some v
      → advanced m rest (session_named m (put n (step capacity events v).1 b))
        ≡ advanced m ((n, events) ∷ rest) (session_named m b)
  advanced-put m n events rest b v h there = elim (Bool-cases (same_name n m)) [
    | inl same ↦
        subst
          (λ k.
            advanced k rest (session_named k (put n w b))
            ≡ advanced k ((n, events) ∷ rest) (session_named k b))
          (same_name_eq n m same)
          (rw (find-put n n w b) (rw (same_name_refl n, there) (advanced-apart rest n (some w) h)))
    | inr other ↦ rw other (rw (find-put m n w b) (rw (same_name_sym m n other) refl))
  ]
    where
      w : VncSession I
      w = (step capacity events v).1

  stepped_lem :
      (acts : List (List ℕ × List VncEvent)) (b b' : VncBatch I) (os : List (List ℕ × Outcome))
      → AreKeys acts
      → batch_step capacity acts b ≡ (ok os, b')
      → (m : List ℕ) → session_named m b' ≡ advanced m acts (session_named m b)
  unfolding batch_step
  stepped_lem [] b b' os h e m = ap (session_named m) (sym (ap (λ p. p.1) e))
  stepped_lem ((n, events) ∷ rest) b b' os (h, hs) e m = elim (Option-cases (session_named n b)) [
    | inl missing ↦
        absurd
          (no_panic (ap (λ o. (step_then n events rest o b).0) (sym missing) ∙ ap (λ p. p.0) e))
    | inr (v, there) ↦
        let w : VncSession I = (step capacity events v).1 in
        let (os', e') =
          continued_ok n rest (outcome_of (step capacity events v).0) (put n w b) b' os
            (ap (λ o. step_then n events rest o b) (sym there) ∙ e) in
        stepped_lem rest (put n w b) b' os' hs e' m ∙ advanced-put m n events rest b v h there
  ]
    where
      step_then :
          List ℕ
          → List VncEvent
          → List (List ℕ × List VncEvent)
          → Option (VncSession I)
          → Exec (VncBatch I) (List (List ℕ × Outcome))
      step_then n events rest o = step_found capacity n events o >>= λ x.
          batch_step capacity rest >>= λ os'. pure ((n, x) ∷ os')

      no_panic : panic nil_dereference ≡ ok os → ⊥
      no_panic h = cc

  -- Where `Step` faults on no session, it returns for each session with an action what the session's own
  -- `Step` returns for its events, and leaves each of them as that `Step` does, with the state that it
  -- gets from its events, and every other session as it was, whatever the order of the iteration over
  -- the map of actions, whose keys are distinct.
  pub batch_step_lem :
      (acts : List (List ℕ × List VncEvent)) (b b' : VncBatch I) (os : List (List ℕ × Outcome))
      (m : List ℕ)
      → AreKeys acts
      → batch_step capacity acts b ≡ (ok os, b')
      → (gather acts b ≡ ok os) × (session_named m b' ≡ advanced m acts (session_named m b))
  batch_step_lem acts b b' os m h e =
      (sym (gather_lem acts b h) ∙ ap (λ p. p.0) e, stepped_lem acts b b' os h e m)
