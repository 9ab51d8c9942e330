-- ===== src/Gymvnc/Lifecycle/Soundness.antt =====
-- `Close`, `SetSubscription`, `SetRenderer` and `Render` leave the screens alone.
use go_vncdriver.Common.{
  ◌≡◌, refl, sym, subst, ◌∙◌, Bool, true, false, List, Option, none, some, Bool-cases, inl, inr,
  if◌then◌else◌,
}
use go_vncdriver.Common.Exec.{Result, Error, ◌>>◌}
use go_vncdriver.Vncclient.Encoding.{FramebufferUpdate}
use go_vncdriver.Vncclient.Color.{Color}
use go_vncdriver.Gymvnc.Session.{Session, Region}
use go_vncdriver.Gymvnc.Session.Buffers.{IsBuffered}
use go_vncdriver.Gymvnc.Lifecycle.{
  VncSession, RendererCall, hang_up, hear, close, close_unless, close_live, set_subscription,
  set_renderer, is_rendering, subscribe,
}
use go_vncdriver.Gymvnc.Lifecycle.Operations.{render, render_live, init_of, activate, call}
use go_vncdriver.Gymvnc.Lifecycle.Life.{IsSound}

either_way : {A : Type 0} (P : A → Type 0) (b : Bool) {x y : A} → P x → P y → P (if b then x else y)
either_way P true h k = h
either_way P false h k = k

module _ {I : Type 0} where
  close_live-IsSound :
      (seen : List FramebufferUpdate) (v : VncSession I) (o : Option (Session I))
      → v.closed ≡ false
      → v.live ≡ o
      → IsSound seen v o
      → let w = close_live o (record v { closed = true }) in IsSound seen w w.live
  close_live-IsSound seen v none going e h =
      subst (IsSound seen (record v { closed = true })) (sym e) h
  close_live-IsSound seen v (some s) going e (size, b, count) = (
    size,
    record { front = b.front; ready = b.ready; behind = b.behind; drawable = b.drawable },
    λ _. refl,
  )

  pub close-IsSound :
      (seen : List FramebufferUpdate) (v : VncSession I)
      → IsSound seen v v.live
      → IsSound seen (close v).1 (close v).1.live
  unfolding close
  close-IsSound seen v h = elim (Bool-cases v.closed) [
    | inl done ↦ subst chosen (sym done) h
    | inr going ↦ subst chosen (sym going) (close_live-IsSound seen v v.live going refl h)
  ]
    where
      chosen : Bool → Type 0
      chosen b = IsSound seen (close_unless b v).1 (close_unless b v).1.live

  pub hang_up-IsSound :
      (seen : List FramebufferUpdate) (v : VncSession I) (s : Session I)
      → v.live ≡ some s
      → IsSound seen v v.live
      → IsSound seen (hang_up s v) (hang_up s v).live
  unfolding hang_up
  hang_up-IsSound seen v s e sound =
      let (size, b, count) = subst (IsSound seen v) e sound in
      (
        size,
        record { front = b.front; ready = b.ready; behind = b.behind; drawable = b.drawable },
        λ _. refl,
      )

  pub hear-IsBuffered :
      (blank : List Color) (seen : List FramebufferUpdate) (x : Error) (s : Session I)
      → IsBuffered blank seen s
      → IsBuffered blank seen (hear x s)
  unfolding hear
  hear-IsBuffered blank seen x s b = record {
    front = b.front;
    ready = b.ready;
    behind = b.behind;
    drawable = b.drawable;
  }

  subscribe-IsSound :
      (seen : List FramebufferUpdate) (v w : VncSession I) (regions : Option (List Region))
      (o : Option (Session I))
      → w.closed ≡ v.closed
      → w.is_connected ≡ v.is_connected
      → IsSound seen v o
      → IsSound seen w (subscribe o regions)
  subscribe-IsSound seen v w regions none e e' (h, k) = (h, e' ∙ k)
  subscribe-IsSound seen v w regions (some s) e e' (size, b, count) = (
    size,
    record { front = b.front; ready = b.ready; behind = b.behind; drawable = b.drawable },
    λ shut. e' ∙ count (sym e ∙ shut),
  )

  pub set_subscription-IsSound :
      (seen : List FramebufferUpdate) (v : VncSession I) (regions : Option (List Region))
      → IsSound seen v v.live
      → IsSound seen (set_subscription regions v).1 (set_subscription regions v).1.live
  unfolding set_subscription
  set_subscription-IsSound seen v regions h =
      subscribe-IsSound seen v
        (record v { subscription = regions; live = subscribe v.live regions }) regions v.live refl
        refl h

  pub set_renderer-IsSound :
      (seen : List FramebufferUpdate) (v : VncSession I)
      → IsSound seen v v.live
      → IsSound seen (set_renderer v).1 (set_renderer v).1.live
  unfolding set_renderer
  set_renderer-IsSound seen v h =
      either_way (λ (p : Result (Unit {0}) × VncSession I). IsSound seen p.1 p.1.live)
        (is_rendering v.live) h h

module _ (init : RendererCall → Option Error) {I : Type 0} where
  activated-IsSound :
      (seen : List FramebufferUpdate) (v : VncSession I) (s : Session I) (closing active : Bool)
      (failed : Option Error)
      → v.live ≡ some s
      → IsSound seen v (some s)
      → let w = ((activate active failed s) >> call closing) v in IsSound seen w.1 w.1.live
  activated-IsSound seen v s closing true failed e h = subst (IsSound seen v) (sym e) h
  activated-IsSound seen v s closing false (some x) e h = subst (IsSound seen v) (sym e) h
  activated-IsSound seen v s closing false none e (size, b, count) = (
    size,
    record { front = b.front; ready = b.ready; behind = b.behind; drawable = b.drawable },
    count,
  )

  render_live-IsSound :
      (seen : List FramebufferUpdate) (v : VncSession I) (o : Option (Session I)) (closing : Bool)
      → v.live ≡ o
      → IsSound seen v o
      → let w = (render_live init o closing v).1 in IsSound seen w w.live
  render_live-IsSound seen v none closing e h = subst (IsSound seen v) (sym e) h
  render_live-IsSound seen v (some s) closing e h =
      activated-IsSound seen v s closing s.renderer_active (init (init_of s)) e h

  pub render-IsSound :
      (seen : List FramebufferUpdate) (v : VncSession I) (closing : Bool)
      → IsSound seen v v.live
      → IsSound seen (render init closing v).1 (render init closing v).1.live
  unfolding render
  render-IsSound seen v closing h =
      either_way sound v.has_renderer
        (either_way sound v.closed h (render_live-IsSound seen v v.live closing refl h)) h
    where
      sound : Result (Unit {0}) × VncSession I → Type 0
      sound p = IsSound seen p.1 p.1.live
