-- ===== src/Gymvnc/Lifecycle/Starting.antt =====
-- What `connect` leaves of a session: a live one with two empty screens, or no connection.
use go_vncdriver.Common.{
  ℕ, ◌*◌, ◌≡◌, refl, sym, ap, subst, Bool, true, false, List, [], Option, none, replicate,
}
use go_vncdriver.Common.Bytes.{u32}
use go_vncdriver.Common.Exec.{Exec, Result, ok, err, panic, stuck, continue}
use go_vncdriver.Vncclient.Color.{black}
use go_vncdriver.Vncclient.Encoding.{FramebufferUpdate}
use go_vncdriver.Vncclient.Client.{ClientConn}
use go_vncdriver.Gymvnc.Config.{VncSessionConfig}
use go_vncdriver.Gymvnc.Screen.{new_screen}
use go_vncdriver.Gymvnc.Session.{Session, Region, request_update, request_subscribed, first_error}
use go_vncdriver.Gymvnc.Session.Buffers.{IsBuffered}
use go_vncdriver.Gymvnc.Lifecycle.{VncSession, new_session}
use go_vncdriver.Gymvnc.Lifecycle.Operations.{
  start, on_conn, set_up, establish, settle, store_error,
}
use go_vncdriver.Gymvnc.Lifecycle.Life.{IsSound}

-- The same session on perhaps another connection.
abbrev IsReconnected : {I : Type 0} → Session I → Session I → Type 0
IsReconnected {I} s t = (c : ClientConn I) × (t ≡ record s { conn = c })

continue-IsReconnected :
    {I : Type 0} (s t : Session I) (r : Result (Unit {0}))
    (f : Unit {0} → Exec (Session I) (Unit {0}))
    → IsReconnected s t
    → IsReconnected s (f tt t).1
    → IsReconnected s (continue r f t).1
continue-IsReconnected s t (ok a) f h k = k
continue-IsReconnected s t (err e) f h k = h
continue-IsReconnected s t (panic x) f h k = h
continue-IsReconnected s t stuck f h k = h

abbrev pub IsFailure : Result (Unit {0}) → Type 0
IsFailure (ok a) = ⊥
IsFailure (err e) = Unit
IsFailure (panic x) = Unit
IsFailure stuck = Unit

continue-IsFailure :
    {S : Type 0} (r : Result (Unit {0})) (f : Unit {0} → Exec S (Unit {0})) (s : S)
    → ((a : Unit {0}) (t : S) → IsFailure (f a t).0)
    → IsFailure (continue r f s).0
continue-IsFailure (ok a) f s h = h a s
continue-IsFailure (err e) f s h = tt
continue-IsFailure (panic x) f s h = tt
continue-IsFailure stuck f s h = tt

module _ (capacity : ℕ → ℕ) {I : Type 0} where
  establish-IsReconnected :
      (config : VncSessionConfig) (is_closed : Bool) (s : Session I)
      → IsReconnected s (establish capacity config is_closed s).1
  unfolding establish request_update
  establish-IsReconnected config is_closed s =
      let c : ClientConn I = (set_up capacity config s.conn).1 in
      continue-IsReconnected s (record s { conn = c }) (set_up capacity config s.conn).0 _ (c, refl)
        (let d : ClientConn I = (request_subscribed capacity s.subscription c).1 in
          continue-IsReconnected s (record s { conn = d })
            (request_subscribed capacity s.subscription c).0 _ (d, refl) (d, refl))

  pub establish_closed :
      (config : VncSessionConfig) (s : Session I) → IsFailure (establish capacity config true s).0
  unfolding establish
  establish_closed config s =
      continue-IsFailure (on_conn capacity (set_up capacity config) s).0 _
        (on_conn capacity (set_up capacity config) s).1
        (λ a t.
          continue-IsFailure (request_update capacity t).0 _ (request_update capacity t).1
            (λ b u. tt))

  fresh-IsBuffered :
      (subs : Option (List Region)) (conn c : ClientConn I)
      → IsBuffered
          (new_screen conn.framebuffer_width conn.framebuffer_height).pixels
          []
          (record (new_session subs conn) { conn = c })
  unfolding new_session
  fresh-IsBuffered subs conn c = record {
    front = refl;
    ready = λ _. refl;
    behind = λ e. cc;
    drawable = tt;
  }

  settled-IsSound :
      (seen : List FramebufferUpdate) (v w : VncSession I) (conn : ClientConn I)
      (r : Result (Unit {0})) (s : Session I)
      → v.live ≡ none
      → IsSound seen v none
      → (v.closed ≡ true → IsFailure r)
      → IsReconnected (new_session v.subscription conn) s
      → (let (r', u) = settle r s (record v { is_connected = true }) in store_error r' u)
        ≡ (ok tt, w)
      → IsSound seen w w.live
  unfolding new_screen
  settled-IsSound seen v w conn (ok a) s e (nothing, count) fails (c, same) h =
      subst (λ u. IsSound seen u u.live) (ap (λ p. p.1) h)
        (
          u32 (conn.framebuffer_width * conn.framebuffer_height),
          subst
              (λ us.
                IsBuffered
                  (replicate (u32 (conn.framebuffer_width * conn.framebuffer_height)) black) us s)
              (sym nothing)
              (subst
                (IsBuffered
                  (replicate (u32 (conn.framebuffer_width * conn.framebuffer_height)) black) [])
                (sym same) (fresh-IsBuffered v.subscription conn c)),
          λ shut. absurd (fails shut),
        )
  settled-IsSound seen v w conn (err x) s e (nothing, count) fails same h =
      subst (λ u. IsSound seen u u.live) (ap (λ p. p.1) h)
        (subst (IsSound seen (record v { is_connected = false; error = first_error v.error x }))
          (sym e) (nothing, refl))
  settled-IsSound seen v w conn (panic x) s e (nothing, count) fails same h = cc
  settled-IsSound seen v w conn stuck s e (nothing, count) fails same h = cc

  pub start-IsSound :
      (seen : List FramebufferUpdate) (v w : VncSession I) (r : Result (ClientConn I))
      → v.live ≡ none
      → IsSound seen v v.live
      → start capacity r v ≡ (ok tt, w)
      → IsSound seen w w.live
  unfolding start
  start-IsSound seen v w (ok conn) e sound h =
      let (r, s) = establish capacity v.config v.closed (new_session v.subscription conn) in
      settled-IsSound seen v w conn r s e (subst (IsSound seen v) e sound)
        (λ shut.
          subst (λ b. IsFailure (establish capacity v.config b (new_session v.subscription conn)).0)
            (sym shut) (establish_closed v.config (new_session v.subscription conn)))
        (establish-IsReconnected v.config v.closed (new_session v.subscription conn)) h
  start-IsSound seen v w (err x) e sound h =
      subst (λ u. IsSound seen u u.live) (ap (λ p. p.1) h) sound
  start-IsSound seen v w (panic x) e sound h = cc
  start-IsSound seen v w stuck e sound h = cc
