-- ===== src/Gymvnc/Session/Buffers.antt =====
-- The two screens: what the front one shows is what `Flip` has handed out.
use go_vncdriver.Common.{
  ◌≡◌, refl, sym, ap, ◌∙◌, Bool, true, false, List, [], ◌∷◌, ◌++◌, length, All, append_assoc,
  append-nil, Bool-cases, inl, inr, if◌then◌else◌, leb, not, ◌&&◌, All-snoc,
}
use go_vncdriver.Common.Exec.{ok, bind-ok}
use go_vncdriver.Vncclient.Color.{Color}
use go_vncdriver.Vncclient.Encoding.{FramebufferUpdate}
use go_vncdriver.Gymvnc.Screen.{draw}
use go_vncdriver.Gymvnc.Screen.Replay.{
  replay, replay-append, length-replay, draw_all-replay, IsDrawable, IsDrawable-resize,
}
use go_vncdriver.Gymvnc.Session.{Session, apply_update, apply_deferred, maintain, set_back}

-- `blank` is the screen at the start, and `seen` what the calls of `Flip` have returned, in order.
pub record IsBuffered {I : Type 0} (blank : List Color) (seen : List FramebufferUpdate)
    (s : Session I) : Type 0 where
  pub front : s.front_screen.pixels ≡ replay s.conn.framebuffer_width seen blank
  pub ready :
      s.back_updated ≡ true
      → s.back_screen.pixels ≡ replay s.conn.framebuffer_width (seen ++ s.deferred_updates) blank
  pub behind :
      s.back_updated ≡ false
      → (old : List FramebufferUpdate) × (seen ≡ old ++ s.deferred_updates)
        × (s.back_screen.pixels ≡ replay s.conn.framebuffer_width old blank)
  pub drawable : All (IsDrawable s.conn.framebuffer_width blank) s.deferred_updates

module _ {I : Type 0} where
  -- The session after `applyDeferred` has drawn what the other screen shows already.
  abbrev caught_up : Session I → Session I
  caught_up s = record s {
    back_updated = true;
    deferred_updates = [];
    back_screen = record s.back_screen {
      pixels = replay s.conn.framebuffer_width s.deferred_updates s.back_screen.pixels;
    };
  }

  module _ (blank : List Color) (seen : List FramebufferUpdate) (s : Session I)
      (b : IsBuffered blank seen s) where
    apply_deferred_behind : s.back_updated ≡ false → apply_deferred s ≡ (ok tt, caught_up s)
    unfolding apply_deferred
    apply_deferred_behind late =
        let (old, e, back) = b.behind late in
        rw late (
          rw (
            draw_all-replay s.conn.framebuffer_width s.deferred_updates blank s.back_screen.pixels
              (ap length back ∙ length-replay s.conn.framebuffer_width old blank) b.drawable))

    pub apply_deferred_ready : s.back_updated ≡ true → apply_deferred s ≡ (ok tt, s)
    unfolding apply_deferred
    apply_deferred_ready e = rw e

    caught_up_pixels :
        s.back_updated ≡ false
        → (caught_up s).back_screen.pixels ≡ replay s.conn.framebuffer_width (seen ++ []) blank
    caught_up_pixels late =
        let (old, e, back) = b.behind late in
        ap (replay s.conn.framebuffer_width s.deferred_updates) back
        ∙ sym (replay-append s.conn.framebuffer_width old s.deferred_updates blank)
        ∙ ap (λ us. replay s.conn.framebuffer_width us blank) (sym e ∙ sym (append-nil seen))

    caught_up-IsBuffered : s.back_updated ≡ false → IsBuffered blank seen (caught_up s)
    caught_up-IsBuffered late = record {
      front = b.front;
      ready = λ _. caught_up_pixels late;
      behind = λ e. cc;
      drawable = tt;
    }

    -- `applyDeferred` never fails, and leaves both screens with what was seen and what is deferred.
    pub apply_deferred-IsBuffered :
        (t : Session I) × (apply_deferred s ≡ (ok tt, t))
        × IsBuffered blank seen t
        × (t.back_updated ≡ true)
        × (t.pause_updates ≡ s.pause_updates)
        × (t.resuming ≡ s.resuming)
        × (t.conn ≡ s.conn)
        × (t.subscription ≡ s.subscription)
    apply_deferred-IsBuffered = elim (Bool-cases s.back_updated) [
      | inl e ↦ (s, apply_deferred_ready e, b, e, refl, refl, refl, refl)
      | inr e ↦ (
        caught_up s,
        apply_deferred_behind e,
        caught_up-IsBuffered e,
        refl,
        refl,
        refl,
        refl,
        refl,
      )
    ]

  pub paused-IsBuffered :
      (blank : List Color) (seen : List FramebufferUpdate) (s : Session I) (p : Bool)
      → IsBuffered blank seen s
      → IsBuffered blank seen (record s { pause_updates = p })
  paused-IsBuffered blank seen s p b = record {
    front = b.front;
    ready = b.ready;
    behind = b.behind;
    drawable = b.drawable;
  }

  -- The session after an update was drawn, before the queue is looked at.
  abbrev pub drawn : FramebufferUpdate → Session I → Session I
  drawn u s =
      let t = set_back (draw s.conn.framebuffer_width u s.back_screen.pixels).1 s in
      record t { deferred_updates = s.deferred_updates ++ u ∷ [] }

  abbrev pub pausing : Session I → Session I
  pausing s =
      if leb s.deferred_updates_max (length s.deferred_updates) && not s.pause_updates
      then record s { pause_updates = true }
      else s

  module _ (blank : List Color) (seen : List FramebufferUpdate) (s : Session I)
      (b : IsBuffered blank seen s) (u : FramebufferUpdate) (ready : s.back_updated ≡ true)
      (fine : (draw s.conn.framebuffer_width u s.back_screen.pixels).0 ≡ ok tt) where
    drawn_pixels :
        (drawn u s).back_screen.pixels
        ≡ replay s.conn.framebuffer_width (seen ++ (s.deferred_updates ++ u ∷ [])) blank
    drawn_pixels =
        ap (λ p. (draw s.conn.framebuffer_width u p).1) (b.ready ready)
        ∙ sym (replay-append s.conn.framebuffer_width (seen ++ s.deferred_updates) (u ∷ []) blank)
        ∙ ap (λ us. replay s.conn.framebuffer_width us blank)
            (append_assoc seen s.deferred_updates (u ∷ []))

    size : length s.back_screen.pixels ≡ length blank
    size =
        ap length (b.ready ready)
        ∙ length-replay s.conn.framebuffer_width (seen ++ s.deferred_updates) blank

    drawn-IsBuffered : IsBuffered blank seen (drawn u s)
    drawn-IsBuffered = record {
      front = b.front;
      ready = λ _. drawn_pixels;
      behind = λ e. cc;
      drawable =
          All-snoc (IsDrawable s.conn.framebuffer_width blank) s.deferred_updates u b.drawable
            (IsDrawable-resize s.conn.framebuffer_width s.back_screen.pixels blank u size fine);
    }

    pub pausing-IsBuffered : IsBuffered blank seen (pausing (drawn u s))
    pausing-IsBuffered =
        elim (Bool-cases (
          leb s.deferred_updates_max (length (s.deferred_updates ++ u ∷ []))
          && not s.pause_updates)) [
            | inl e ↦ rw e (paused-IsBuffered blank seen (drawn u s) true drawn-IsBuffered)
            | inr e ↦ rw e drawn-IsBuffered
          ]

    pub maintain_ready : maintain u s ≡ (ok tt, pausing (drawn u s))
    unfolding maintain apply_update
    maintain_ready =
        bind-ok apply_deferred _ s (apply_deferred_ready blank seen s b ready) ∙ rw fine
