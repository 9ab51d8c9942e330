-- ===== src/Gymvnc/Session/Reach.antt =====
-- Sessions under every interleaving of the server's updates, calls of `Flip`, and the goroutines
-- that wait for the lock.
use go_vncdriver.Common.{ℕ, ◌<◌, ◌≡◌, refl, ap, ◌∙◌, true, false, List, [], ◌++◌}
use go_vncdriver.Common.Exec.{ok}
use go_vncdriver.Vncclient.Encoding.{FramebufferUpdate}
use go_vncdriver.Vncclient.Client.RoundTrip.{IsCapacity}
use go_vncdriver.Gymvnc.Screen.Replay.{replay}
use go_vncdriver.Gymvnc.Session.{Session, maintain, flip, resume, request_next}
use go_vncdriver.Gymvnc.Session.Buffers.{IsBuffered}
use go_vncdriver.Gymvnc.Session.Asking.{CanAsk, Asks, flip-Asks}
use go_vncdriver.Gymvnc.Session.Steps.{
  maintain-IsBuffered, flip-IsBuffered, resume-IsBuffered, request_next-IsBuffered, flip_scheduled,
  flip-behind, request_next_scheduled,
}

module _ (capacity : ℕ → ℕ) {I : Type 0} where
  -- `Reach s seen t`: from `s` the session comes to `t`, and the calls of `Flip` on the way
  -- returned the updates `seen`.
  pub data Reach (s : Session I) : List FramebufferUpdate → Session I → Type 0 where
    here : Reach s [] s
    updated :
        {seen : List FramebufferUpdate} {t v : Session I}
        → Reach s seen t
        → (u : FramebufferUpdate) → maintain u t ≡ (ok tt, v)
        → Reach s seen v
    flipped :
        {seen : List FramebufferUpdate} {t : Session I}
        → Reach s seen t
        → Reach s (seen ++ (flip t).0.1) (flip t).1
    resumed :
        {seen : List FramebufferUpdate} {t : Session I}
        → Reach s seen t
        → 0 < t.resuming
        → Reach s seen (resume capacity t).1
    requested :
        {seen : List FramebufferUpdate} {t : Session I}
        → Reach s seen t
        → Reach s seen (request_next capacity t).1

-- A session as `connect` sets it up: two equal screens, and nothing deferred.
pub record IsFresh {I : Type 0} (s : Session I) : Type 0 where
  pub level : s.back_screen.pixels ≡ s.front_screen.pixels
  pub updated : s.back_updated ≡ true
  pub empty : s.deferred_updates ≡ []

IsFresh-IsBuffered :
    {I : Type 0} (s : Session I) → IsFresh s → IsBuffered s.front_screen.pixels [] s
IsFresh-IsBuffered s f = record {
  front = refl;
  ready = λ _. rw f.empty f.level;
  behind = λ e. cc (f.updated, e);
  drawable = rw f.empty tt;
}

module _ (capacity : ℕ → ℕ) (cap : IsCapacity capacity) {I : Type 0} (s : Session I)
    (fresh : IsFresh s) where
  Reach-IsBuffered :
      {seen : List FramebufferUpdate} {t : Session I}
      → Reach capacity s seen t
      → IsBuffered s.front_screen.pixels seen t
  Reach-IsBuffered here = IsFresh-IsBuffered s fresh
  Reach-IsBuffered (updated r u h) = (maintain-IsBuffered _ _ _ _ u (Reach-IsBuffered r) h).0
  Reach-IsBuffered (flipped r) = (flip-IsBuffered _ _ _ (Reach-IsBuffered r)).0
  Reach-IsBuffered (resumed r h) = (resume-IsBuffered _ _ capacity cap _ (Reach-IsBuffered r)).1
  Reach-IsBuffered (requested r) =
      (request_next-IsBuffered _ _ capacity cap _ (Reach-IsBuffered r)).1

  -- Whatever the order in which updates arrive that are drawn without an error, `Flip` is called and
  -- the goroutines get the lock: the screen that `Flip` returns is the first screen with the updates drawn on it that the calls
  -- of `Flip` have returned so far, this one included, each once and in order.
  pub flip_screen :
      {seen : List FramebufferUpdate} {t : Session I}
      → Reach capacity s seen t
      → (flip t).0.0.pixels
        ≡ replay (flip t).1.conn.framebuffer_width (seen ++ (flip t).0.1) s.front_screen.pixels
  flip_screen {seen} {t} r =
      let (b, e) = flip-IsBuffered s.front_screen.pixels seen t (Reach-IsBuffered r) in
      ap (λ x. x.pixels) e ∙ b.front

  -- Behind the front screen there is always a goroutine that will bring the back one up to date.
  Reach-scheduled :
      {seen : List FramebufferUpdate} {t : Session I}
      → Reach capacity s seen t
      → t.back_updated ≡ false
      → 0 < t.resuming
  Reach-scheduled here e = cc (fresh.updated, e)
  Reach-scheduled (updated {t = t} {v = v} r u h) e =
      cc ((maintain-IsBuffered _ _ t v u (Reach-IsBuffered r) h).1, e)
  Reach-scheduled (flipped {t = t} r) e = flip_scheduled t (Reach-scheduled r) e
  Reach-scheduled (resumed {t = t} r h) e =
      cc ((resume-IsBuffered _ _ capacity cap t (Reach-IsBuffered r)).2, e)
  Reach-scheduled (requested {t = t} r) e =
      request_next_scheduled capacity cap t (Reach-scheduled r) e

  -- In every such interleaving a pause of the updates ends with the next `Flip`: it leaves a
  -- goroutine waiting, and that
  -- goroutine returns with no pause, with the back screen up to date, and having sent just the requests
  -- for the regions wanted, by which the server's updates go on. Writes do not fail here, and the regions
  -- wanted are of 16-bit numbers.
  pub flip_ends_pause :
      {seen : List FramebufferUpdate} {t : Session I}
      → Reach capacity s seen t
      → t.pause_updates ≡ true
      → CanAsk t.subscription t.conn
      → (0 < (flip t).1.resuming)
        × ((resume capacity (flip t).1).0 ≡ ok tt)
        × ((resume capacity (flip t).1).1.pause_updates ≡ false)
        × ((resume capacity (flip t).1).1.back_updated ≡ true)
        × Asks t.subscription t.conn (resume capacity (flip t).1).1.conn
  flip_ends_pause {seen} {t} r paused can =
      let (fine, _, level, awake) =
        resume-IsBuffered _ _ capacity cap (flip t).1 (Reach-IsBuffered (flipped r)) in
      (
        Reach-scheduled (flipped r) (flip-behind t),
        fine,
        awake,
        level,
        flip-Asks capacity cap _ _ t (Reach-IsBuffered (flipped r)) paused can,
      )
