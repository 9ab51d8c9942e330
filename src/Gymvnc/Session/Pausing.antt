-- ===== src/Gymvnc/Session/Pausing.antt =====
-- Back pressure: a full queue of updates stops the requests for more.
use go_vncdriver.Common.{[], ◌∷◌, ◌++◌, subst, ℕ, ◌≤◌, ◌≡◌, ap, true, arith, length}
use go_vncdriver.Common.Exec.{ok, continue_returned}
use go_vncdriver.Vncclient.Encoding.{FramebufferUpdate}
use go_vncdriver.Gymvnc.Session.{Session, maintain, apply_deferred, apply_update, request_next}
use go_vncdriver.Gymvnc.Session.Buffers.{pausing}

module _ {I : Type 0} where
  -- A full queue is paused, whether it was before or not.
  pausing_full :
      (s : Session I)
      → (pausing s).deferred_updates_max ≤ length (pausing s).deferred_updates
      → (pausing s).pause_updates ≡ true
  pausing_full s h = ground arith

  -- A round of `maintainFrameBuffer` that leaves the queue of updates at its maximum or above leaves
  -- the updates paused, and the loop of `connect` then asks the server for nothing.
  pub maintain_pauses :
      (capacity : ℕ → ℕ) (s t : Session I) (u : FramebufferUpdate)
      → maintain u s ≡ (ok tt, t)
      → t.deferred_updates_max ≤ length t.deferred_updates
      → (t.pause_updates ≡ true) × (request_next capacity t ≡ (ok tt, t))
  unfolding maintain request_next
  maintain_pauses capacity s t u h full =
      let (_, _, h1) = continue_returned (apply_deferred s).0 _ (apply_deferred s).1 h in
      let level = (apply_deferred s).1 in
      let (_, _, h2) = continue_returned (apply_update u level).0 _ (apply_update u level).1 h1 in
      let drawn' = (apply_update u level).1 in
      let queued : Session I = record drawn' {
        deferred_updates = drawn'.deferred_updates ++ u ∷ [];
      } in
      let e : pausing queued ≡ t = ap (λ r. r.1) h2 in
      let paused : t.pause_updates ≡ true =
        subst (λ v. v.deferred_updates_max ≤ length v.deferred_updates → v.pause_updates ≡ true) e
          (pausing_full queued) full in
      (paused, rw paused)
