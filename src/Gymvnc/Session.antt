-- ===== src/Gymvnc/Session.antt =====
-- `VNCSession` of gymvnc/gymvnc.go once it is connected. What runs under the lock `updated.L` is
-- one step here; a goroutine that waits for the lock is counted until it runs.
pub mod Requests
pub mod Buffers
pub mod Steps
pub mod Asking
pub mod Reach
pub mod Pausing
use go_vncdriver.Common.{
  ℕ, zero, suc, ◌+◌, ◌-◌, Bool, true, false, not, ◌&&◌, List, [], ◌∷◌, ◌++◌, Option, none, some,
  leb, ltb, if◌then◌else◌, length,
}
use go_vncdriver.Common.Exec.{
  Exec, Result, Error, ok, err, pure, raise, lift, gets, modify, continue, ◌>>=◌, ◌>>◌,
}
use go_vncdriver.Vncclient.Color.{Color}
use go_vncdriver.Vncclient.Encoding.{FramebufferUpdate}
use go_vncdriver.Vncclient.Client.{ClientConn, framebuffer_update_request}
use go_vncdriver.Gymvnc.Screen.{Screen, draw, draw_all}

pub record Region : Type 0 where
  pub x : ℕ
  pub y : ℕ
  pub width : ℕ
  pub height : ℕ

-- `reported` is what was sent to `mgr.Error`; `renderer` collects the updates that an active
-- renderer was given; `resuming` counts the goroutines that `Flip` has started and that have not
-- run yet.
pub record Session (I : Type 0) : Type 0 where
  pub conn : ClientConn I
  pub front_screen : Screen
  pub back_screen : Screen
  pub back_updated : Bool
  pub deferred_updates : List FramebufferUpdate
  pub deferred_updates_max : ℕ
  pub pause_updates : Bool
  pub subscription : Option (List Region)
  pub renderer_active : Bool
  pub renderer : List FramebufferUpdate
  pub reported : Option Error
  pub resuming : ℕ

module _ {I : Type 0} where
  -- `c.backScreen.Data = pixels`
  abbrev pub set_back : List Color → Session I → Session I
  set_back pixels s = record s { back_screen = record s.back_screen { pixels = pixels } }

  -- A method that writes to `c.backScreen.Data` alone.
  abbrev pub on_back : Exec (List Color) (Unit {0}) → Exec (Session I) (Unit {0})
  on_back m s = ((m s.back_screen.pixels).0, set_back (m s.back_screen.pixels).1 s)

  unfoldable pub apply_update : FramebufferUpdate → Exec (Session I) (Unit {0})
  apply_update u s = on_back (draw s.conn.framebuffer_width u) s

  unfoldable pub apply_deferred : Exec (Session I) (Unit {0})
  apply_deferred s =
      if s.back_updated
      then (ok tt, s)
      else (do
        modify (λ t. record t { back_updated = true })
        on_back (draw_all s.conn.framebuffer_width s.deferred_updates)
        modify (λ t. record t { deferred_updates = [] }))
          s

  -- One round of `maintainFrameBuffer` with an update from the channel.
  unfoldable pub maintain : FramebufferUpdate → Exec (Session I) (Unit {0})
  maintain u = do
    apply_deferred
    apply_update u
    modify (λ s. record s { deferred_updates = s.deferred_updates ++ u ∷ [] })
    modify (λ s.
        if leb s.deferred_updates_max (length s.deferred_updates) && not s.pause_updates
        then record s { pause_updates = true }
        else s)

  -- The part of `Flip` before it returns.
  unfoldable pub flip : Session I → (Screen × List FramebufferUpdate) × Session I
  flip s =
      if s.back_updated
      then (
        (s.back_screen, s.deferred_updates),
        record s {
          front_screen = s.back_screen;
          back_screen = s.front_screen;
          back_updated = false;
          resuming = s.resuming + 1;
          renderer = if s.renderer_active then s.renderer ++ s.deferred_updates else s.renderer;
        },
      )
      else ((s.front_screen, []), s)

abbrev pub first_error : Option Error → Error → Option Error
first_error none e = some e
first_error (some e') e = some e'

-- `capacity` is that of vncclient's message buffers.
module _ (capacity : ℕ → ℕ) {I : Type 0} where
  -- The requests for the regions stop at the first error.
  unfoldable pub request_regions : List Region → Exec (ClientConn I) (Unit {0})
  request_regions [] = pure tt
  request_regions (r ∷ rs) =
      framebuffer_update_request capacity true r.x r.y r.width r.height >> request_regions rs

  unfoldable pub request_subscribed : Option (List Region) → Exec (ClientConn I) (Unit {0})
  request_subscribed none c =
      framebuffer_update_request capacity true 0 0 c.framebuffer_width c.framebuffer_height c
  request_subscribed (some regions) c = request_regions regions c

  unfoldable pub request_update : Exec (Session I) (Unit {0})
  request_update s =
      let (r, c) = request_subscribed s.subscription s.conn in (r, record s { conn = c })

  -- `select { case c.mgr.Error <- err: default: }`: the channel holds one error.
  abbrev pub report : Result (Unit {0}) → Exec (Session I) (Unit {0})
  report (err e) s = (ok tt, record s { reported = first_error s.reported e })
  report r s = (r, s)

  abbrev pub request_or_report : Exec (Session I) (Unit {0})
  request_or_report s = let (r, t) = request_update s in report r t

  -- The goroutine that `Flip` starts.
  unfoldable pub resume : Exec (Session I) (Unit {0})
  resume = do
    modify (λ s. record s { resuming = s.resuming - 1 })
    apply_deferred
    λ s.
        if s.pause_updates
        then request_or_report (record s { pause_updates = false })
        else (ok tt, s)

  -- What the loop of `connect` does after it has passed an update on.
  unfoldable pub request_next : Exec (Session I) (Unit {0})
  request_next s = if s.pause_updates then (ok tt, s) else request_or_report s
