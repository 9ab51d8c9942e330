-- ===== src/Gymvnc/Session/Asking.antt =====
-- The requests for updates of a session of gymvnc/gymvnc.go, as a server reads them.
use go_vncdriver.Common.{
  ℕ, ◌-◌, ◌≡◌, refl, sym, subst, ◌∙◌, true, List, [], ◌∷◌, ◌++◌, Option, none, some, All, map,
  Bool-cases, inl, inr,
}
use go_vncdriver.Common.Bytes.{IsU16}
use go_vncdriver.Vncclient.Color.{Color}
use go_vncdriver.Vncclient.Encoding.{FramebufferUpdate}
use go_vncdriver.Vncclient.Client.{ClientConn, framebuffer_update_request}
use go_vncdriver.Vncclient.Client.Rfc.{ClientMessage}
use go_vncdriver.Vncclient.Client.RoundTrip.{IsCapacity}
use go_vncdriver.Vncclient.Client.Sends.{framebuffer_update_request-Sends}
use go_vncdriver.Vncclient.Client.Stream.{
  Transmits, Transmits-nothing, Transmits-then, Carries, Carries-one,
}
use go_vncdriver.Gymvnc.Session.{
  Session, Region, request_regions, request_subscribed, request_update, flip, resume,
}
use go_vncdriver.Gymvnc.Session.Buffers.{IsBuffered, apply_deferred-IsBuffered}

-- Four uint16.
abbrev pub IsRegion : Region → Type 0
IsRegion r = IsU16 r.x × IsU16 r.y × IsU16 r.width × IsU16 r.height

abbrev pub request_of : Region → ClientMessage
request_of r = ClientMessage.update_request true r.x r.y r.width r.height

-- What is asked for: the regions of the subscription, or the whole framebuffer.
abbrev pub wanted : Option (List Region) → (width height : ℕ) → List Region
wanted none width height = record { x = 0; y = 0; width = width; height = height } ∷ []
wanted (some regions) width height = regions

module _ {I : Type 0} where
  -- `d` is `c` with the requests sent for what is wanted.
  abbrev pub Asks : Option (List Region) → (c d : ClientConn I) → Type 0
  Asks subs c d =
      (bs : List ℕ) × (d ≡ record c { output = c.output ++ bs })
      × Carries (map request_of (wanted subs c.framebuffer_width c.framebuffer_height)) bs

  -- Writes do not fail, and what is wanted is of 16-bit numbers.
  abbrev pub CanAsk : Option (List Region) → ClientConn I → Type 0
  CanAsk subs c =
      (c.broken ≡ none) × All IsRegion (wanted subs c.framebuffer_width c.framebuffer_height)

module _ (capacity : ℕ → ℕ) (cap : IsCapacity capacity) {I : Type 0} where
  regions_lem :
      (rs : List Region) (c : ClientConn I)
      → c.broken ≡ none
      → All IsRegion rs
      → Transmits (request_regions capacity rs) c c (map request_of rs)
  unfolding request_regions
  regions_lem [] c h fits = Transmits-nothing c
  regions_lem (r ∷ rs) c h ((hx, hy, hw, hh), fits) =
      let (bs, p, reads) =
        framebuffer_update_request-Sends capacity cap c h true r.x r.y r.width r.height hx hy hw
          hh in
      Transmits-then (framebuffer_update_request capacity true r.x r.y r.width r.height)
        (request_regions capacity rs) c c c (request_of r ∷ []) (map request_of rs)
        (bs, p, Carries-one (request_of r) bs reads)
        (λ out. regions_lem rs (record c { output = out }) h fits)

  pub subscribed_lem :
      (subs : Option (List Region)) (c : ClientConn I)
      → c.broken ≡ none
      → All IsRegion (wanted subs c.framebuffer_width c.framebuffer_height)
      → Transmits
          (request_subscribed capacity subs)
          c
          c
          (map request_of (wanted subs c.framebuffer_width c.framebuffer_height))
  unfolding request_subscribed request_regions
  subscribed_lem none c h ((hx, hy, hw, hh), fits) =
      let (bs, p, reads) =
        framebuffer_update_request-Sends capacity cap c h true 0 0 c.framebuffer_width
          c.framebuffer_height hx hy hw hh in
      (
        bs,
        p,
        Carries-one (ClientMessage.update_request true 0 0 c.framebuffer_width c.framebuffer_height)
            bs reads,
      )
  subscribed_lem (some rs) c h fits = regions_lem rs c h fits

  module _ (blank : List Color) (seen : List FramebufferUpdate) where
    -- The goroutine of `Flip` asks for the next update where updates are paused.
    resume-Asks :
        (s : Session I)
        → IsBuffered blank seen s
        → s.pause_updates ≡ true
        → CanAsk s.subscription s.conn
        → Asks s.subscription s.conn (resume capacity s).1.conn
    unfolding resume request_update
    resume-Asks s b p (works, fits) =
        let (t, e, _, _, paused, _, conn, subs) =
          apply_deferred-IsBuffered blank seen (record s { resuming = s.resuming - 1 })
            (record {
              front = b.front;
              ready = b.ready;
              behind = b.behind;
              drawable = b.drawable;
            }) in
        let (bs, q, reads) = subscribed_lem s.subscription s.conn works fits in
        (bs, rw e (rw (paused ∙ p) (rw (conn, subs) (rw q refl))), reads)

    flip_keeps :
        (s : Session I)
        → ((flip s).1.conn ≡ s.conn)
          × ((flip s).1.subscription ≡ s.subscription)
          × ((flip s).1.pause_updates ≡ s.pause_updates)
    unfolding flip
    flip_keeps s = elim (Bool-cases s.back_updated) [
      | inl e ↦ rw e (refl, refl, refl)
      | inr e ↦ rw e (refl, refl, refl)
    ]

    pub flip-Asks :
        (s : Session I)
        → IsBuffered blank seen (flip s).1
        → s.pause_updates ≡ true
        → CanAsk s.subscription s.conn
        → Asks s.subscription s.conn (resume capacity (flip s).1).1.conn
    flip-Asks s b p can =
        let (same, subs, paused) = flip_keeps s in
        subst (λ o. Asks o s.conn (resume capacity (flip s).1).1.conn) subs
          (subst (λ c. Asks (flip s).1.subscription c (resume capacity (flip s).1).1.conn) same
            (resume-Asks (flip s).1 b (paused ∙ p) (
              subst (λ c. CanAsk (flip s).1.subscription c) (sym same)
                (subst (λ o. CanAsk o s.conn) (sym subs) can))))
