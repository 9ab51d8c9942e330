-- ===== src/Gymvnc/Lifecycle/Life.antt =====
-- Everything that can happen to a session of gymvnc/gymvnc.go, from `NewVNCSession` on.
use go_vncdriver.Common.{
  ℕ, ◌<◌, ◌≡◌, refl, sym, subst, Bool, true, false, List, [], ◌++◌, append-nil, Option, none, some,
  Option-cases, inl, inr, replicate,
}
use go_vncdriver.Common.Exec.{Result, Error, ok, err, panic, stuck}
use go_vncdriver.Vncclient.Color.{Color, black}
use go_vncdriver.Vncclient.Encoding.{FramebufferUpdate}
use go_vncdriver.Vncclient.Client.{ClientConn}
use go_vncdriver.Vncclient.Client.RoundTrip.{IsCapacity}
use go_vncdriver.Gymvnc.Config.{VncSessionConfig}
use go_vncdriver.Gymvnc.Screen.{Screen}
use go_vncdriver.Gymvnc.Events.{VncEvent, execute, execute_all}
use go_vncdriver.Gymvnc.Session.{Session, Region, maintain, flip, resume, request_next}
use go_vncdriver.Gymvnc.Session.Buffers.{IsBuffered}
use go_vncdriver.Gymvnc.Session.Steps.{flip-IsBuffered}
use go_vncdriver.Gymvnc.Lifecycle.{
  VncSession, RendererCall, hang_up, hear, new_vnc_session, close, set_subscription, set_renderer,
  error_of,
}
use go_vncdriver.Gymvnc.Lifecycle.Operations.{start, step, render, flip_after, step_live}
use go_vncdriver.Gymvnc.Lifecycle.Connections.{execute_all-IsRequest}

-- The updates that a call of `Step` returns.
abbrev pub handed : Result (Option (Screen × List FramebufferUpdate)) → List FramebufferUpdate
handed (ok none) = []
handed (ok (some (screen, updates))) = updates
handed (err e) = []
handed (panic x) = []
handed stuck = []

abbrev pub with_live : {I : Type 0} → VncSession I → Session I → VncSession I
with_live v s = record v { live = some s }

module _ (capacity : ℕ → ℕ) (init : RendererCall → Option Error) {I : Type 0} where
  -- `Life config subs seen v`: a session of this configuration has come to `v`, and the calls of
  -- `Step` on the way returned the updates `seen`. What runs under a lock is one step, a `Step` is
  -- one step or several (`executed` and `flipped`), and the steps come in any order; `r` is what the loop over the attempts to connect comes to.
  pub data Life (config : VncSessionConfig) (subs : Option (List Region))
      : List FramebufferUpdate → VncSession I → Type 0 where
    opened : Life config subs [] (new_vnc_session config subs)
    started :
        {seen : List FramebufferUpdate} {v w : VncSession I}
        → Life config subs seen v
        → v.live ≡ none
        → (r : Result (ClientConn I)) → start capacity r v ≡ (ok tt, w)
        → Life config subs seen w
    stepped :
        {seen : List FramebufferUpdate} {v : VncSession I}
        → Life config subs seen v
        → (events : List VncEvent)
        → Life config subs (seen ++ handed (step capacity events v).0) (step capacity events v).1
    -- One event of a `Step` is sent; other steps may come between it and the next, or the `Flip`.
    executed :
        {seen : List FramebufferUpdate} {v : VncSession I} {s : Session I}
        → Life config subs seen v
        → v.live ≡ some s
        → (e : VncEvent)
        → Life config subs seen (with_live v (record s { conn = (execute capacity e s.conn).1 }))
    flipped :
        {seen : List FramebufferUpdate} {v : VncSession I} {s : Session I}
        → Life config subs seen v
        → v.live ≡ some s
        → Life config subs (seen ++ (flip s).0.1) (with_live v (flip s).1)
    -- `mainLoop` ends, and the error is heard of, at any time or not at all.
    hung_up :
        {seen : List FramebufferUpdate} {v : VncSession I} {s : Session I}
        → Life config subs seen v
        → v.live ≡ some s
        → Life config subs seen (hang_up s v)
    heard :
        {seen : List FramebufferUpdate} {v : VncSession I} {s : Session I}
        → Life config subs seen v
        → v.live ≡ some s
        → (e : Error) → Life config subs seen (with_live v (hear e s))
    updated :
        {seen : List FramebufferUpdate} {v : VncSession I} {s t : Session I}
        → Life config subs seen v
        → v.live ≡ some s
        → (u : FramebufferUpdate) → maintain u s ≡ (ok tt, t)
        → Life config subs seen (with_live v t)
    resumed :
        {seen : List FramebufferUpdate} {v : VncSession I} {s : Session I}
        → Life config subs seen v
        → v.live ≡ some s
        → 0 < s.resuming
        → Life config subs seen (with_live v (resume capacity s).1)
    requested :
        {seen : List FramebufferUpdate} {v : VncSession I} {s : Session I}
        → Life config subs seen v
        → v.live ≡ some s
        → Life config subs seen (with_live v (request_next capacity s).1)
    rendered :
        {seen : List FramebufferUpdate} {v : VncSession I}
        → Life config subs seen v
        → (closing : Bool) → Life config subs seen (render init closing v).1
    subscribed :
        {seen : List FramebufferUpdate} {v : VncSession I}
        → Life config subs seen v
        → (regions : Option (List Region)) → Life config subs seen (set_subscription regions v).1
    equipped :
        {seen : List FramebufferUpdate} {v : VncSession I}
        → Life config subs seen v
        → Life config subs seen (set_renderer v).1
    closed :
        {seen : List FramebufferUpdate} {v : VncSession I}
        → Life config subs seen v
        → Life config subs seen (close v).1

-- Before there is a connection nothing was handed out. Then the two screens are those of an empty
-- one on which the updates were drawn.
abbrev pub IsSound :
    {I : Type 0} → List FramebufferUpdate → VncSession I → Option (Session I) → Type 0
IsSound seen v none = (seen ≡ []) × (v.is_connected ≡ false)
IsSound seen v (some s) =
    (size : ℕ) × IsBuffered (replicate size black) seen s
    × (v.closed ≡ true → v.is_connected ≡ false)

module _ (capacity : ℕ → ℕ) (cap : IsCapacity capacity) {I : Type 0} where
  -- Another connection with a framebuffer of the same width.
  pub reconnected :
      (blank : List Color) (seen : List FramebufferUpdate) (s : Session I) (c : ClientConn I)
      → c.framebuffer_width ≡ s.conn.framebuffer_width
      → IsBuffered blank seen s
      → IsBuffered blank seen (record s { conn = c })
  reconnected blank seen s c e b = record {
    front = rw e b.front;
    ready = λ x. rw e (b.ready x);
    behind = λ x. rw e (b.behind x);
    drawable = rw e b.drawable;
  }

  -- `Flip` behind the events, or their error.
  flipped-IsSound :
      (seen : List FramebufferUpdate) (v : VncSession I) (s : Session I) (r : Result (Unit {0}))
      (size : ℕ)
      → IsBuffered (replicate size black) seen s
      → (v.closed ≡ true → v.is_connected ≡ false)
      → let (x, w) = flip_after r s v in IsSound (seen ++ handed x) w w.live
  flipped-IsSound seen v s (ok a) size b count =
      (size, (flip-IsBuffered (replicate size black) seen s b).0, count)
  flipped-IsSound seen v s (err e) size b count = (size, rw (append-nil seen) b, count)
  flipped-IsSound seen v s (panic e) size b count = (size, rw (append-nil seen) b, count)
  flipped-IsSound seen v s stuck size b count = (size, rw (append-nil seen) b, count)

  step_live-IsSound :
      (seen : List FramebufferUpdate) (v : VncSession I) (events : List VncEvent)
      (o : Option (Session I))
      → v.live ≡ o
      → IsSound seen v o
      → let (x, w) = step_live capacity events o v in IsSound (seen ++ handed x) w w.live
  step_live-IsSound seen v events none e h =
      subst (λ us. IsSound us v v.live) (sym (append-nil seen)) (subst (IsSound seen v) (sym e) h)
  step_live-IsSound seen v events (some s) e (size, b, count) =
      let (r, c) = execute_all capacity events s.conn in
      flipped-IsSound seen v (record s { conn = c }) r size
        (reconnected (replicate size black) seen s c
          (execute_all-IsRequest capacity cap I events s.conn).1 b)
        count

  pub step-IsSound :
      (seen : List FramebufferUpdate) (v : VncSession I) (events : List VncEvent)
      → IsSound seen v v.live
      → let (x, w) = step capacity events v in IsSound (seen ++ handed x) w w.live
  unfolding step
  step-IsSound seen v events h = elim (Option-cases (error_of v)) [
    | inl e ↦ rw e (step_live-IsSound seen v events v.live refl h)
    | inr (x, e) ↦ rw e (subst (λ us. IsSound us v v.live) (sym (append-nil seen)) h)
  ]
