-- ===== src/Gymvnc/Session/Requests.antt =====
-- Asking for the next update changes the connection's output and the reported error, and no more.
use go_vncdriver.Common.{
  ℕ, ◌≡◌, refl, ◌∙◌, Bool, true, List, [], ◌∷◌, ◌++◌, Option, none, some, inl, inr, Option-cases,
}
use go_vncdriver.Common.Bytes.{be16}
use go_vncdriver.Common.Exec.{Exec, Result, ok, err, panic, stuck, ◌>>◌}
use go_vncdriver.Vncclient.PixelFormat.{bool_byte}
use go_vncdriver.Vncclient.Wire.Laws.{reslice_exact}
use go_vncdriver.Vncclient.Client.{
  ClientConn, framebuffer_update_request, update_request_message, write,
}
use go_vncdriver.Vncclient.Client.RoundTrip.{IsCapacity}
use go_vncdriver.Gymvnc.Session.{
  Region, Session, request_regions, request_subscribed, request_update, request_or_report, report,
}

-- Returns, with or without an error.
abbrev pub Returns : Result (Unit {0}) → Type 0
Returns (ok a) = Unit
Returns (err e) = Unit
Returns (panic x) = ⊥
Returns stuck = ⊥

-- A call that returns and keeps the width of the framebuffer.
abbrev pub IsRequest : (I : Type 0) → Exec (ClientConn I) (Unit {0}) → Type 0
IsRequest I m =
    (c : ClientConn I) → Returns (m c).0 × ((m c).1.framebuffer_width ≡ c.framebuffer_width)

pub write-IsRequest : (I : Type 0) (bs : List ℕ) → IsRequest I (write bs)
unfolding write
write-IsRequest I bs c = elim (Option-cases c.broken) [
  | inl e ↦ rw e (tt, refl)
  | inr (x, e) ↦ rw e (tt, refl)
]

module _ (I : Type 0) (m n : Exec (ClientConn I) (Unit {0})) (hn : IsRequest I n) where
  then_at :
      (c : ClientConn I) (r : Result (Unit {0}))
      → (m c).0 ≡ r
      → Returns r
      → (m c).1.framebuffer_width ≡ c.framebuffer_width
      → Returns ((m >> n) c).0 × (((m >> n) c).1.framebuffer_width ≡ c.framebuffer_width)
  then_at c (ok a) e h w = rw e ((hn (m c).1).0, (hn (m c).1).1 ∙ w)
  then_at c (err x) e h w = rw e (tt, w)
  then_at c (panic x) e h w = absurd h
  then_at c stuck e h w = absurd h

  pub then-IsRequest : IsRequest I m → IsRequest I (m >> n)
  then-IsRequest hm c = then_at c (m c).0 refl (hm c).0 (hm c).1

module _ (capacity : ℕ → ℕ) (cap : IsCapacity capacity) where
  update_request_message_lem :
      (b : Bool) (x y w h : ℕ)
      → update_request_message capacity b x y w h
        ≡ ok (3 ∷ bool_byte b ∷ (be16 x ++ (be16 y ++ (be16 w ++ be16 h))))
  unfolding update_request_message
  update_request_message_lem b x y w h = reslice_exact (capacity 10) _ 10 (cap.grows 10) refl

  IsRequest-one :
      (I : Type 0) (b : Bool) (x y w h : ℕ)
      → IsRequest I (framebuffer_update_request capacity b x y w h)
  unfolding framebuffer_update_request
  IsRequest-one I b x y w h c = rw (update_request_message_lem b x y w h) (write-IsRequest I _ c)

  IsRequest-regions : (I : Type 0) (rs : List Region) → IsRequest I (request_regions capacity rs)
  unfolding request_regions
  IsRequest-regions I [] = λ c. (tt, refl)
  IsRequest-regions I (r ∷ rs) =
      then-IsRequest I _ _ (IsRequest-regions I rs) (IsRequest-one I true r.x r.y r.width r.height)

  IsRequest-subscribed :
      (I : Type 0) (o : Option (List Region)) → IsRequest I (request_subscribed capacity o)
  unfolding request_subscribed
  IsRequest-subscribed I none c =
      IsRequest-one I true 0 0 c.framebuffer_width c.framebuffer_height c
  IsRequest-subscribed I (some rs) c = IsRequest-regions I rs c

-- `t` has the screens, updates and flags of `s`.
pub record IsSameBuffers {I : Type 0} (s t : Session I) : Type 0 where
  pub width : t.conn.framebuffer_width ≡ s.conn.framebuffer_width
  pub front : t.front_screen ≡ s.front_screen
  pub back : t.back_screen ≡ s.back_screen
  pub updated : t.back_updated ≡ s.back_updated
  pub deferred : t.deferred_updates ≡ s.deferred_updates
  pub paused : t.pause_updates ≡ s.pause_updates
  pub resuming : t.resuming ≡ s.resuming
  pub room : t.deferred_updates_max ≡ s.deferred_updates_max

report_lem :
    {I : Type 0} (capacity : ℕ → ℕ) (s t : Session I) (r : Result (Unit {0}))
    → Returns r
    → IsSameBuffers s t
    → ((report capacity r t).0 ≡ ok tt) × IsSameBuffers s (report capacity r t).1
report_lem capacity s t (ok a) h k = (refl, k)
report_lem capacity s t (err e) h k = (
  refl,
  record {
    width = k.width;
    front = k.front;
    back = k.back;
    updated = k.updated;
    deferred = k.deferred;
    paused = k.paused;
    resuming = k.resuming;
    room = k.room;
  },
)
report_lem capacity s t (panic x) h k = absurd h
report_lem capacity s t stuck h k = absurd h

-- Requests never panic, and an error is only reported.
pub request_or_report_lem :
    {I : Type 0} (capacity : ℕ → ℕ) (cap : IsCapacity capacity) (s : Session I)
    → ((request_or_report capacity s).0 ≡ ok tt) × IsSameBuffers s (request_or_report capacity s).1
unfolding request_update
request_or_report_lem {I} capacity cap s =
    let answer = IsRequest-subscribed capacity cap I s.subscription s.conn in
    report_lem capacity s
      (record s { conn = (request_subscribed capacity s.subscription s.conn).1 })
      (request_subscribed capacity s.subscription s.conn).0 answer.0
      (record {
        width = answer.1;
        front = refl;
        back = refl;
        updated = refl;
        deferred = refl;
        paused = refl;
        resuming = refl;
        room = refl;
      })
