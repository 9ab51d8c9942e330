-- ===== src/Gymvnc/Session/Steps.antt =====
-- Every step of a session keeps its two screens in order.
use go_vncdriver.Common.{
  ℕ, ◌+◌, ◌-◌, leb, not, ◌&&◌, length, ◌<◌, ◌≡◌, refl, sym, ap, ◌∙◌, subst, true, false, List, [],
  ◌++◌, arith, append-nil, Bool-cases, inl, inr, if◌then◌else◌,
}
use go_vncdriver.Common.Exec.{Exec, Result, ok, err, panic, stuck, bind-ok}
use go_vncdriver.Vncclient.Color.{Color}
use go_vncdriver.Vncclient.Encoding.{FramebufferUpdate}
use go_vncdriver.Vncclient.Client.RoundTrip.{IsCapacity}
use go_vncdriver.Gymvnc.Screen.{draw}
use go_vncdriver.Gymvnc.Session.{
  Session, apply_update, apply_deferred, maintain, flip, resume, request_next, request_or_report,
}
use go_vncdriver.Gymvnc.Session.Requests.{IsSameBuffers, request_or_report_lem}
use go_vncdriver.Gymvnc.Session.Buffers.{
  IsBuffered, apply_deferred-IsBuffered, apply_deferred_ready, pausing, drawn, pausing-IsBuffered,
  maintain_ready, paused-IsBuffered,
}

module _ {I : Type 0} (blank : List Color) (seen : List FramebufferUpdate) where
  maintain_result :
      (s : Session I) (u : FramebufferUpdate) (r : Result (Unit {0}))
      → s.back_updated ≡ true
      → (draw s.conn.framebuffer_width u s.back_screen.pixels).0 ≡ r
      → (maintain u s).0 ≡ ok tt
      → r ≡ ok tt
  unfolding maintain apply_update apply_deferred
  maintain_result s u (ok a) ready e h = refl
  maintain_result s u (err x) ready e h = cc (rw (ready, e) at h)
  maintain_result s u (panic x) ready e h = cc (rw (ready, e) at h)
  maintain_result s u stuck ready e h = cc (rw (ready, e) at h)

  pausing_updated : (s : Session I) → s.back_updated ≡ true → (pausing s).back_updated ≡ true
  pausing_updated s h =
      elim (Bool-cases
        (leb s.deferred_updates_max (length s.deferred_updates) && not s.pause_updates)) [
          | inl e ↦ rw e h
          | inr e ↦ rw e h
        ]

  -- The state of a maintained session whose screens are level.
  maintain_level :
      (s t : Session I) (u : FramebufferUpdate)
      → IsBuffered blank seen s
      → s.back_updated ≡ true
      → maintain u s ≡ (ok tt, t)
      → IsBuffered blank seen t × (t.back_updated ≡ true)
  maintain_level s t u b ready h =
      let fine = maintain_result s u _ ready refl (ap (λ p. p.0) h) in
      subst (λ v. IsBuffered blank seen v × (v.back_updated ≡ true))
        (ap (λ p. p.1) (sym (maintain_ready blank seen s b u ready fine) ∙ h))
        (pausing-IsBuffered blank seen s b u ready fine, pausing_updated (drawn u s) ready)

  -- A round of `maintainFrameBuffer` that draws its update keeps both screens in order, also when
  -- the goroutine of the last `Flip` has not run yet, and leaves the back screen up to date.
  pub maintain-IsBuffered :
      (s t : Session I) (u : FramebufferUpdate)
      → IsBuffered blank seen s
      → maintain u s ≡ (ok tt, t)
      → IsBuffered blank seen t × (t.back_updated ≡ true)
  unfolding maintain
  maintain-IsBuffered s t u b h =
      let (level, e, b', ready, _, _, _, _) = apply_deferred-IsBuffered blank seen s b in
      maintain_level level t u b' ready (
        bind-ok apply_deferred _ level (apply_deferred_ready blank seen level b' ready)
        ∙ sym (bind-ok apply_deferred _ s e)
        ∙ h)

  flip_ready :
      (s : Session I)
      → s.back_updated ≡ true
      → flip s ≡ (
        (s.back_screen, s.deferred_updates),
        record s {
          front_screen = s.back_screen;
          back_screen = s.front_screen;
          back_updated = false;
          resuming = s.resuming + 1;
          renderer = if s.renderer_active then s.renderer ++ s.deferred_updates else s.renderer;
        },
      )
  unfolding flip
  flip_ready s e = rw e

  flip_late : (s : Session I) → s.back_updated ≡ false → flip s ≡ ((s.front_screen, []), s)
  unfolding flip
  flip_late s e = rw e

  -- `Flip` hands out just what the screen that it returns shows beyond the last one.
  pub flip-IsBuffered :
      (s : Session I)
      → IsBuffered blank seen s
      → IsBuffered blank (seen ++ (flip s).0.1) (flip s).1
        × ((flip s).0.0 ≡ (flip s).1.front_screen)
  flip-IsBuffered s b = elim (Bool-cases s.back_updated) [
    | inl e ↦ rw (flip_ready s e) (
      record {
        front = b.ready e;
        ready = λ x. cc;
        behind = λ _. (seen, refl, b.front);
        drawable = b.drawable;
      },
      refl,
    )
    | inr e ↦ rw (flip_late s e, append-nil) (b, refl)
  ]

  -- A session with the buffers of another one.
  pub IsSameBuffers-IsBuffered :
      (s t : Session I) → IsSameBuffers s t → IsBuffered blank seen s → IsBuffered blank seen t
  IsSameBuffers-IsBuffered s t k b = record {
    front = rw (k.width, k.front) b.front;
    ready = λ e. rw (k.width, k.back, k.deferred) (b.ready (sym k.updated ∙ e));
    behind = λ e. rw (k.width, k.back, k.deferred) (b.behind (sym k.updated ∙ e));
    drawable = rw (k.width, k.deferred) b.drawable;
  }

  unpaused :
      (capacity : ℕ → ℕ)
      → IsCapacity capacity
      → (s : Session I) → IsBuffered blank seen s
      → let t = record s { pause_updates = false } in
        ((request_or_report capacity t).0 ≡ ok tt)
        × IsBuffered blank seen (request_or_report capacity t).1
  unpaused capacity cap s b =
      let t : Session I = record s { pause_updates = false } in
      let (fine, same) = request_or_report_lem capacity cap t in
      (fine, IsSameBuffers-IsBuffered t _ same (paused-IsBuffered blank seen s false b))

  pub request_next-IsBuffered :
      (capacity : ℕ → ℕ)
      → IsCapacity capacity
      → (s : Session I) → IsBuffered blank seen s
      → ((request_next capacity s).0 ≡ ok tt) × IsBuffered blank seen (request_next capacity s).1
  unfolding request_next
  request_next-IsBuffered capacity cap s b = elim (Bool-cases s.pause_updates) [
    | inl e ↦ rw e (refl, paused-IsBuffered blank seen s true b)
    | inr e ↦ rw e (unpaused capacity cap s b)
  ]

  resumed-IsBuffered :
      (s : Session I) (n : ℕ)
      → IsBuffered blank seen s
      → IsBuffered blank seen (record s { resuming = n })
  resumed-IsBuffered s n b = record {
    front = b.front;
    ready = b.ready;
    behind = b.behind;
    drawable = b.drawable;
  }

  -- The part of `resume` behind `applyDeferred`.
  abbrev wake : (ℕ → ℕ) → Exec (Session I) (Unit {0})
  wake capacity s =
      if s.pause_updates
      then request_or_report capacity (record s { pause_updates = false })
      else (ok tt, s)

  module _ (capacity : ℕ → ℕ) (cap : IsCapacity capacity) where
    wake-IsBuffered :
        (s : Session I)
        → IsBuffered blank seen s
        → ((wake capacity s).0 ≡ ok tt)
          × IsBuffered blank seen (wake capacity s).1
          × ((wake capacity s).1.back_updated ≡ s.back_updated)
          × ((wake capacity s).1.pause_updates ≡ false)
    wake-IsBuffered s b =
        let (fine, same) =
          request_or_report_lem capacity cap (record s { pause_updates = false }) in
        elim (Bool-cases s.pause_updates) [
          | inl e ↦ rw e (fine, (unpaused capacity cap s b).1, same.updated, same.paused)
          | inr e ↦ rw e (refl, paused-IsBuffered blank seen s false b, refl, refl)
        ]

    -- The goroutine of `Flip` never fails: it brings the back screen up to date and lets updates
    -- be asked for again.
    pub resume-IsBuffered :
        (s : Session I)
        → IsBuffered blank seen s
        → ((resume capacity s).0 ≡ ok tt)
          × IsBuffered blank seen (resume capacity s).1
          × ((resume capacity s).1.back_updated ≡ true)
          × ((resume capacity s).1.pause_updates ≡ false)
    unfolding resume
    resume-IsBuffered s b =
        let (t, e, bt, ready, _, _, _, _) =
          apply_deferred-IsBuffered blank seen (record s { resuming = s.resuming - 1 })
            (resumed-IsBuffered s (s.resuming - 1) b) in
        let (fine, buffered, updated, awake) = wake-IsBuffered t bt in
        rw e (fine, buffered, updated ∙ ready, awake)

module _ {I : Type 0} where
  pub flip-behind : (s : Session I) → (flip s).1.back_updated ≡ false
  unfolding flip
  flip-behind s = ground arith

  pub flip_scheduled :
      (s : Session I)
      → (s.back_updated ≡ false → 0 < s.resuming)
      → (flip s).1.back_updated ≡ false
      → 0 < (flip s).1.resuming
  unfolding flip
  flip_scheduled s h e = ground arith

  pub request_next_scheduled :
      (capacity : ℕ → ℕ)
      → IsCapacity capacity
      → (s : Session I) → (s.back_updated ≡ false → 0 < s.resuming)
      → (request_next capacity s).1.back_updated ≡ false
      → 0 < (request_next capacity s).1.resuming
  unfolding request_next
  request_next_scheduled capacity cap s h = elim (Bool-cases s.pause_updates) [
    | inl p ↦ rw p h
    | inr p ↦ rw p (asked (record s { pause_updates = false }) h)
  ]
    where
      asked :
          (t : Session I)
          → (t.back_updated ≡ false → 0 < t.resuming)
          → (request_or_report capacity t).1.back_updated ≡ false
          → 0 < (request_or_report capacity t).1.resuming
      asked t ht e =
          let (fine, same) = request_or_report_lem capacity cap t in
          rw same.resuming (ht (sym same.updated ∙ e))
