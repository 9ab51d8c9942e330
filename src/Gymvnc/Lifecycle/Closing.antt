-- ===== src/Gymvnc/Lifecycle/Closing.antt =====
-- What a closed session of gymvnc/gymvnc.go still does.
use go_vncdriver.Common.{
  ℕ, ◌≡◌, refl, sym, ap, subst, ◌∙◌, Bool, true, false, List, ◌∷◌, ◌++◌, Option, none, some,
}
use go_vncdriver.Common.Exec.{Result, ok, err, panic, stuck, closed_connection}
use go_vncdriver.Common.Bytes.{be16, be32}
use go_vncdriver.Vncclient.PixelFormat.{bool_byte}
use go_vncdriver.Vncclient.Wire.Laws.{reslice_exact}
use go_vncdriver.Vncclient.Client.{
  ClientConn, write, key_event, pointer_event, key_event_message, pointer_event_message,
}
use go_vncdriver.Vncclient.Client.RoundTrip.{IsCapacity}
use go_vncdriver.Gymvnc.Events.{VncEvent, key_press, pointer, execute, execute_all}
use go_vncdriver.Gymvnc.Session.{Session}
use go_vncdriver.Gymvnc.Lifecycle.{
  VncSession, close, close_unless, close_live, close_conn, error_of, either, reported_of,
  new_session,
}
use go_vncdriver.Gymvnc.Lifecycle.Operations.{
  start, step, step_live, step_checked, settle, store_error, establish,
}
use go_vncdriver.Gymvnc.Lifecycle.Starting.{establish_closed, IsFailure}

module _ {I : Type 0} where
  close_live-closed :
      (o : Option (Session I)) (v : VncSession I) → (close_live o v).closed ≡ v.closed
  close_live-closed none v = refl
  close_live-closed (some s) v = refl

  close_unless-closed :
      (b : Bool) (v : VncSession I) → v.closed ≡ b → (close_unless b v).1.closed ≡ true
  close_unless-closed true v e = e
  close_unless-closed false v e = close_live-closed v.live (record v { closed = true })

  -- `Close` closes a session, and done again it changes nothing: the connection and the renderer are
  -- not closed a second time.
  pub close_lem :
      (v : VncSession I) → ((close v).1.closed ≡ true) × (close (close v).1 ≡ (ok tt, (close v).1))
  unfolding close
  close_lem v =
      let e = close_unless-closed v.closed v refl in
      (e, subst (λ b. close_unless b (close v).1 ≡ (ok tt, (close v).1)) (sym e) refl)

  write_closed :
      (c : ClientConn I) (bs : List ℕ)
      → c.broken ≡ some closed_connection
      → write bs c ≡ (err closed_connection, c)
  unfolding write
  write_closed c bs h =
      ap
        (λ o. elim o [ none ↦ (ok tt, record c { output = c.output ++ bs }) | some e ↦ (err e, c) ])
        h

module _ (capacity : ℕ → ℕ) (cap : IsCapacity capacity) {I : Type 0} where
  execute_closed :
      (c : ClientConn I) (e : VncEvent)
      → c.broken ≡ some closed_connection
      → execute capacity e c ≡ (err closed_connection, c)
  unfolding execute key_event pointer_event key_event_message pointer_event_message
  execute_closed c (key_press keysym down) h =
      rw
        (reslice_exact (capacity 8) (4 ∷ bool_byte down ∷ 0 ∷ 0 ∷ be32 keysym) 8 (cap.grows 8) refl)
        (write_closed c (4 ∷ bool_byte down ∷ 0 ∷ 0 ∷ be32 keysym) h)
  execute_closed c (pointer mask x y) h =
      rw (reslice_exact (capacity 6) (5 ∷ mask ∷ (be16 x ++ be16 y)) 6 (cap.grows 6) refl)
        (write_closed c (5 ∷ mask ∷ (be16 x ++ be16 y)) h)

  closing_live :
      (o : Option (Session I)) (v : VncSession I) (s : Session I)
      → o ≡ some s
      → either v.error (reported_of o) ≡ none
      → (error_of (close_live o v) ≡ none) × ((close_live o v).live ≡ some (close_conn s))
  closing_live none v s e fine = cc
  closing_live (some t) v s e fine = (fine, ap close_option e)
    where
      close_option : Option (Session I) → Option (Session I)
      close_option none = none
      close_option (some u) = some (close_conn u)

  step_live_closed :
      (e : VncEvent) (es : List VncEvent) (s : Session I) (v : VncSession I)
      → step_live capacity (e ∷ es) (some (close_conn s)) v
        ≡ (err closed_connection, record v { live = some (close_conn s) })
  unfolding execute_all
  step_live_closed e es s v = rw (execute_closed (close_conn s).conn e refl) refl

  -- After `Close` a live session without an error sends no event any more: a step with events fails with
  -- the error of a closed connection and changes nothing, and what the connection has sent is what it
  -- had sent before.
  pub step_closed :
      (v : VncSession I) (s : Session I) (e : VncEvent) (es : List VncEvent)
      → v.closed ≡ false
      → v.live ≡ some s
      → error_of v ≡ none
      → (step capacity (e ∷ es) (close v).1 ≡ (err closed_connection, (close v).1))
        × (t : Session I) × ((close v).1.live ≡ some t)
        × (t.conn.output ≡ s.conn.output)
  unfolding step close
  step_closed v s e es going alive fine = rw going (
      let w : VncSession I = close_live v.live (record v { closed = true }) in
      let (fine', alive') = closing_live v.live (record v { closed = true }) s alive fine in
      (
        ap (λ o. step_checked capacity o (e ∷ es) w) fine'
            ∙ ap (λ o. step_live capacity (e ∷ es) o w) alive'
            ∙ step_live_closed e es s w
            ∙ ap (λ o. (err closed_connection, record w { live = o })) (sym alive'),
        close_conn s,
        alive',
        refl,
      ))

  settle_closed :
      (v w : VncSession I) (r : Result (Unit {0})) (s : Session I)
      → IsFailure r
      → (let (r', u) = settle r s (record v { is_connected = true }) in store_error r' u)
        ≡ (ok tt, w)
      → (w.live ≡ v.live) × (w.is_connected ≡ false)
  settle_closed v w (ok a) s h e = absurd h
  settle_closed v w (err x) s h e = (sym (ap (λ p. p.1.live) e), sym (ap (λ p. p.1.is_connected) e))
  settle_closed v w (panic x) s h e = cc
  settle_closed v w stuck s h e = cc

  -- Where a session was closed before its connection was made, it does not go live, and the new
  -- connection is closed.
  pub start_closed :
      (v w : VncSession I) (r : Result (ClientConn I))
      → v.closed ≡ true
      → v.is_connected ≡ false
      → start capacity r v ≡ (ok tt, w)
      → (w.live ≡ v.live) × (w.is_connected ≡ false)
  unfolding start
  start_closed v w (ok conn) shut unconnected e =
      let (r, s) = establish capacity v.config v.closed (new_session v.subscription conn) in
      settle_closed v w r s
        (subst (λ b. IsFailure (establish capacity v.config b (new_session v.subscription conn)).0)
          (sym shut) (establish_closed capacity v.config (new_session v.subscription conn)))
        e
  start_closed v w (err x) shut unconnected e =
      (sym (ap (λ p. p.1.live) e), sym (ap (λ p. p.1.is_connected) e) ∙ unconnected)
  start_closed v w (panic x) shut unconnected e = cc
  start_closed v w stuck shut unconnected e = cc
