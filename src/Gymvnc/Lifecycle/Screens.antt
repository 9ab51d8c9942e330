-- ===== src/Gymvnc/Lifecycle/Screens.antt =====
-- The screens and the connection of a session, whatever happens to it.
use go_vncdriver.Common.{
  ℕ, ◌≡◌, refl, ap, subst, ◌∙◌, List, ◌++◌, Option, none, some, Bool-cases, inl, inr, replicate,
}
use go_vncdriver.Common.Exec.{Result, Error, ok, err, panic, stuck}
use go_vncdriver.Vncclient.Color.{black}
use go_vncdriver.Vncclient.Encoding.{FramebufferUpdate}
use go_vncdriver.Vncclient.Client.RoundTrip.{IsCapacity}
use go_vncdriver.Gymvnc.Config.{VncSessionConfig}
use go_vncdriver.Gymvnc.Screen.{Screen}
use go_vncdriver.Gymvnc.Screen.Replay.{replay}
use go_vncdriver.Gymvnc.Events.{VncEvent, execute, execute_all}
use go_vncdriver.Gymvnc.Session.{Session, Region, resume, request_next, flip}
use go_vncdriver.Gymvnc.Session.Buffers.{IsBuffered}
use go_vncdriver.Gymvnc.Session.Steps.{
  maintain-IsBuffered, flip-IsBuffered, resume-IsBuffered, request_next-IsBuffered,
}
use go_vncdriver.Gymvnc.Lifecycle.{VncSession, RendererCall, error_of, new_vnc_session, hear}
use go_vncdriver.Gymvnc.Lifecycle.Connections.{execute-IsRequest}
use go_vncdriver.Gymvnc.Lifecycle.Operations.{flip_after, step_live, step_checked, step}
use go_vncdriver.Gymvnc.Lifecycle.Soundness.{
  close-IsSound, hang_up-IsSound, hear-IsBuffered, set_subscription-IsSound, set_renderer-IsSound,
  render-IsSound,
}
use go_vncdriver.Gymvnc.Lifecycle.Starting.{start-IsSound}
use go_vncdriver.Gymvnc.Lifecycle.Life.{
  Life, opened, started, stepped, executed, flipped, hung_up, heard, updated, resumed, requested,
  rendered, subscribed, equipped, closed, IsSound, reconnected, step-IsSound, handed, with_live,
}

module _ (capacity : ℕ → ℕ) (cap : IsCapacity capacity) (init : RendererCall → Option Error)
    {I : Type 0} (config : VncSessionConfig) (subs : Option (List Region)) where
  -- Where the live session of a sound one changes, and its connection is not closed.
  moved-IsSound :
      (seen : List FramebufferUpdate) (v : VncSession I) (s t : Session I)
      → v.live ≡ some s
      → IsSound seen v v.live
      → ((size : ℕ)
          → IsBuffered (replicate size black) seen s
          → IsBuffered (replicate size black) seen t)
      → IsSound seen (with_live v t) (some t)
  moved-IsSound seen v s t e sound keeps =
      let (size, b, count) = subst (IsSound seen v) e sound in (size, keeps size b, count)

  Life-IsSound :
      {seen : List FramebufferUpdate} {v : VncSession I}
      → Life capacity init config subs seen v
      → IsSound seen v v.live
  unfolding new_vnc_session
  Life-IsSound opened = (refl, refl)
  Life-IsSound (started {v = v} {w = w} l e r h) =
      start-IsSound capacity _ v w r e (Life-IsSound l) h
  Life-IsSound (stepped {v = v} l events) = step-IsSound capacity cap _ v events (Life-IsSound l)
  Life-IsSound (executed {v = v} {s = s} l e event) =
      moved-IsSound _ v s (record s { conn = (execute capacity event s.conn).1 }) e (Life-IsSound l)
        (λ size b.
          reconnected capacity cap (replicate size black) _ s (execute capacity event s.conn).1
            (execute-IsRequest capacity cap I event s.conn).1 b)
  Life-IsSound (flipped {v = v} {s = s} l e) =
      let (size, b, count) = subst (IsSound _ v) e (Life-IsSound l) in
      (size, (flip-IsBuffered (replicate size black) _ s b).0, count)
  Life-IsSound (hung_up {v = v} {s = s} l e) = hang_up-IsSound _ v s e (Life-IsSound l)
  Life-IsSound (heard {v = v} {s = s} l e x) =
      moved-IsSound _ v s (hear x s) e (Life-IsSound l) (λ size b. hear-IsBuffered _ _ x s b)
  Life-IsSound (updated {v = v} {s = s} {t = t} l e u h) =
      moved-IsSound _ v s t e (Life-IsSound l) (λ size b. (maintain-IsBuffered _ _ s t u b h).0)
  Life-IsSound (resumed {v = v} {s = s} l e h) =
      moved-IsSound _ v s (resume capacity s).1 e (Life-IsSound l)
        (λ size b. (resume-IsBuffered _ _ capacity cap s b).1)
  Life-IsSound (requested {v = v} {s = s} l e) =
      moved-IsSound _ v s (request_next capacity s).1 e (Life-IsSound l)
        (λ size b. (request_next-IsBuffered _ _ capacity cap s b).1)
  Life-IsSound (rendered {v = v} l closing) = render-IsSound init _ v closing (Life-IsSound l)
  Life-IsSound (subscribed {v = v} l regions) =
      set_subscription-IsSound _ v regions (Life-IsSound l)
  Life-IsSound (equipped {v = v} l) = set_renderer-IsSound _ v (Life-IsSound l)
  Life-IsSound (closed {v = v} l) = close-IsSound _ v (Life-IsSound l)

  flip_front : (s : Session I) → (flip s).0.0 ≡ (flip s).1.front_screen
  unfolding flip
  flip_front s = elim (Bool-cases s.back_updated) [ inl e ↦ rw e refl | inr e ↦ rw e refl ]

  -- The screen that was returned is the front screen of the live session.
  flip_after_shown :
      (r : Result (Unit {0})) (s : Session I) (v w : VncSession I) (screen : Screen)
      (us : List FramebufferUpdate)
      → flip_after r s v ≡ (ok (some (screen, us)), w)
      → (t : Session I) × (w.live ≡ some t) × (screen ≡ t.front_screen)
  flip_after_shown (ok a) s v w screen us h = ((flip s).1, cc h, cc (h, flip_front s))
  flip_after_shown (err e) s v w screen us h = cc
  flip_after_shown (panic x) s v w screen us h = cc
  flip_after_shown stuck s v w screen us h = cc

  step_live_shown :
      (o : Option (Session I)) (events : List VncEvent) (v w : VncSession I) (screen : Screen)
      (us : List FramebufferUpdate)
      → step_live capacity events o v ≡ (ok (some (screen, us)), w)
      → (t : Session I) × (w.live ≡ some t) × (screen ≡ t.front_screen)
  step_live_shown none events v w screen us h = cc
  step_live_shown (some s) events v w screen us h =
      let (r, c) = execute_all capacity events s.conn in
      flip_after_shown r (record s { conn = c }) v w screen us h

  step_shown :
      (o : Option Error) (events : List VncEvent) (v w : VncSession I) (screen : Screen)
      (us : List FramebufferUpdate)
      → step_checked capacity o events v ≡ (ok (some (screen, us)), w)
      → (t : Session I) × (w.live ≡ some t) × (screen ≡ t.front_screen)
  step_shown none events v w screen us h = step_live_shown v.live events v w screen us h
  step_shown (some e) events v w screen us h = cc

  -- Whatever has happened to a session before, and in which order: a screen that `Step` returns is an
  -- empty one with the updates drawn on it that the calls of `Step` have returned so far, this one
  -- included, each once and in order.
  pub step_screen :
      {seen : List FramebufferUpdate} {v : VncSession I}
      → Life capacity init config subs seen v
      → (events : List VncEvent) (w : VncSession I) (screen : Screen) (us : List FramebufferUpdate)
      → step capacity events v ≡ (ok (some (screen, us)), w)
      → (s : Session I) × (size : ℕ) × (w.live ≡ some s)
        × (screen.pixels ≡ replay s.conn.framebuffer_width (seen ++ us) (replicate size black))
  unfolding step
  step_screen {seen} {v} l events w screen us h =
      let (t, alive, front) = step_shown (error_of v) events v w screen us h in
      let (size, b, count) =
        subst (IsSound (seen ++ us) w) alive
          (after (step-IsSound capacity cap seen v events (Life-IsSound l))) in
      (t, size, alive, ap (λ x. x.pixels) front ∙ b.front)
    where
      after :
          IsSound
            (seen ++ handed (step capacity events v).0)
            (step capacity events v).1
            (step capacity events v).1.live
          → IsSound (seen ++ us) w w.live
      after = subst (λ p. IsSound (seen ++ handed p.0) p.1 p.1.live) h
