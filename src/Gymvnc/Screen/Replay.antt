-- ===== src/Gymvnc/Screen/Replay.antt =====
-- Drawing does not depend on what the screen showed: an update that was drawn once can be drawn
-- again on any screen of the same size.
use go_vncdriver.Common.{
  ℕ, zero, suc, ◌+◌, ◌-◌, take, drop, ◌≡◌, refl, sym, ◌∙◌, List, [], ◌∷◌, ◌++◌, length, All,
  length-copy_at, Bool-cases, inl, inr,
}
use go_vncdriver.Common.Exec.{Exec, Result, ok, err, panic, stuck, ◌>>◌}
use go_vncdriver.Vncclient.Color.{Color}
use go_vncdriver.Vncclient.Encoding.{Encoding, Rectangle, FramebufferUpdate, raw, zrle, tight}
use go_vncdriver.Gymvnc.Screen.{
  row_faults, copy_row, apply_rows, apply_rect, apply_encoding, draw, draw_all,
}

-- What `m` returns depends on the size of the screen alone, and it keeps that size.
pub record IsSteady (m : Exec (List Color) (Unit {0})) : Type 0 where
  pub same : (p q : List Color) → length p ≡ length q → (m p).0 ≡ (m q).0
  pub size : (p : List Color) → length (m p).1 ≡ length p

IsSteady-return : (r : Result (Unit {0})) → IsSteady (λ p. (r, p))
IsSteady-return r = record { same = λ p q h. refl; size = λ p. refl }

module _ (m n : Exec (List Color) (Unit {0})) (hm : IsSteady m) (hn : IsSteady n) where
  then_same :
      (r : Result (Unit {0})) (p q : List Color)
      → (m p).0 ≡ r
      → length p ≡ length q
      → ((m >> n) p).0 ≡ ((m >> n) q).0
  then_same (ok a) p q e h =
      rw (e, sym (hm.same p q h) ∙ e) (hn.same (m p).1 (m q).1 (hm.size p ∙ h ∙ sym (hm.size q)))
  then_same (err x) p q e h = rw (e, sym (hm.same p q h) ∙ e)
  then_same (panic x) p q e h = rw (e, sym (hm.same p q h) ∙ e)
  then_same stuck p q e h = rw (e, sym (hm.same p q h) ∙ e)

  then_size :
      (r : Result (Unit {0})) (p : List Color) → (m p).0 ≡ r → length ((m >> n) p).1 ≡ length p
  then_size (ok a) p e = rw e (hn.size (m p).1 ∙ hm.size p)
  then_size (err x) p e = rw e (hm.size p)
  then_size (panic x) p e = rw e (hm.size p)
  then_size stuck p e = rw e (hm.size p)

  IsSteady-then : IsSteady (m >> n)
  IsSteady-then = record {
    same = λ p q h. then_same (m p).0 p q refl h;
    size = λ p. then_size (m p).0 p refl;
  }

copy_row-IsSteady : (a b c d : ℕ) (colors : List Color) → IsSteady (copy_row a b c d colors)
unfolding copy_row
copy_row-IsSteady a b c d colors = record {
  same = λ p q h. rw h (elim (Bool-cases (row_faults (length q) (length colors) a b c d)) [
    | inl e ↦ rw e
    | inr e ↦ rw e
  ]);
  size = λ p. elim (Bool-cases (row_faults (length p) (length colors) a b c d)) [
    | inl e ↦ rw e
    | inr e ↦ rw e (length-copy_at p a (take (d - c) (drop c colors)))
  ];
}

apply_rows-IsSteady :
    (fw : ℕ) (rect : Rectangle) (colors : List Color) (k y : ℕ)
    → IsSteady (apply_rows fw rect colors k y)
unfolding apply_rows
apply_rows-IsSteady fw rect colors zero y = IsSteady-return (ok tt)
apply_rows-IsSteady fw rect colors (suc k) y =
    IsSteady-then _ _ (copy_row-IsSteady _ _ _ _ colors)
      (apply_rows-IsSteady fw rect colors k (y + 1))

apply_encoding-IsSteady :
    (fw : ℕ) (rect : Rectangle) (e : Encoding) → IsSteady (apply_encoding fw rect e)
unfolding apply_encoding apply_rect
apply_encoding-IsSteady fw rect (raw colors) = apply_rows-IsSteady fw rect colors rect.height 0
apply_encoding-IsSteady fw rect (zrle colors n) = apply_rows-IsSteady fw rect colors rect.height 0
apply_encoding-IsSteady fw rect (tight colors n) = apply_rows-IsSteady fw rect colors rect.height 0
apply_encoding-IsSteady fw rect _ = IsSteady-return _

pub draw-IsSteady : (fw : ℕ) (u : FramebufferUpdate) → IsSteady (draw fw u)
unfolding draw
draw-IsSteady fw [] = IsSteady-return (ok tt)
draw-IsSteady fw (r ∷ rs) =
    IsSteady-then _ _ (apply_encoding-IsSteady fw r.rect r.enc) (draw-IsSteady fw rs)

-- The screen after a list of updates, each of them drawn whole.
abbrev pub replay : (fw : ℕ) → List FramebufferUpdate → List Color → List Color
replay fw [] pixels = pixels
replay fw (u ∷ us) pixels = replay fw us (draw fw u pixels).1

pub replay-append :
    (fw : ℕ) (us vs : List FramebufferUpdate) (pixels : List Color)
    → replay fw (us ++ vs) pixels ≡ replay fw vs (replay fw us pixels)
replay-append fw [] vs pixels = refl
replay-append fw (u ∷ us) vs pixels = replay-append fw us vs (draw fw u pixels).1

pub length-replay :
    (fw : ℕ) (us : List FramebufferUpdate) (pixels : List Color)
    → length (replay fw us pixels) ≡ length pixels
length-replay fw [] pixels = refl
length-replay fw (u ∷ us) pixels =
    length-replay fw us (draw fw u pixels).1 ∙ (draw-IsSteady fw u).size pixels

-- `u` is drawn without an error on a screen of the size of `blank`.
abbrev pub IsDrawable : (fw : ℕ) → List Color → FramebufferUpdate → Type 0
IsDrawable fw blank u = (draw fw u blank).0 ≡ ok tt

pub IsDrawable-resize :
    (fw : ℕ) (p q : List Color) (u : FramebufferUpdate)
    → length p ≡ length q
    → IsDrawable fw p u
    → IsDrawable fw q u
IsDrawable-resize fw p q u h d = sym ((draw-IsSteady fw u).same p q h) ∙ d

-- Updates that can be drawn are drawn again by `applyDeferred`.
pub draw_all-replay :
    (fw : ℕ) (us : List FramebufferUpdate) (blank pixels : List Color)
    → length pixels ≡ length blank
    → All (IsDrawable fw blank) us
    → draw_all fw us pixels ≡ (ok tt, replay fw us pixels)
unfolding draw_all
draw_all-replay fw [] blank pixels size ds = refl
draw_all-replay fw (u ∷ us) blank pixels size (d, ds) =
    rw (IsDrawable-resize fw blank pixels u (sym size) d) (
      draw_all-replay fw us blank (draw fw u pixels).1 ((draw-IsSteady fw u).size pixels ∙ size) ds)
