-- ===== src/Vncclient/ServerMessages/Bounds.antt =====
-- What a server can make the client take memory for: the bounds on a framebuffer update.
use go_vncdriver.Common.{
  ℕ, zero, suc, ◌≤◌, ◌≡◌, refl, ap, false, List, [], ◌∷◌, arith, length, All, ltb, ltb→le,
}
use go_vncdriver.Common.Exec.{Exec, ok, excessive_rectangle, excessive_rectangle_count}
use go_vncdriver.Common.Ensures.{
  Ensures, Ensures-pure, Ensures-bind, Ensures-bind_known, Ensures-check,
}
use go_vncdriver.Vncclient.Encoding.{Encoding, Rectangle, DecodedRectangle, FramebufferUpdate}
use go_vncdriver.Vncclient.Client.{ClientConn, on_input}
use go_vncdriver.Vncclient.Wire.{read_full, read_u16, read_u32}
use go_vncdriver.Vncclient.ServerMessages.{
  ServerMessage, framebuffer_update, framebuffer_update_read, read_rectangles, read_rectangle,
  is_excessive, encoding_of, supported,
}

-- The largest screen that the client expects.
pub record IsExpected (r : DecodedRectangle) : Type 0 where
  pub left : r.rect.x ≤ 5120
  pub top : r.rect.y ≤ 2880
  pub width : r.rect.width ≤ 5120
  pub height : r.rect.height ≤ 2880

module _ {I : Type 0} (inflate : List ℕ → Exec I (List ℕ))
    (tight_read : Rectangle → Exec (ClientConn I) Encoding) where
  is_excessive-IsExpected :
      (rect : Rectangle) (enc : Encoding)
      → is_excessive inflate tight_read rect ≡ false
      → IsExpected (record { rect = rect; enc = enc })
  is_excessive-IsExpected rect enc h = record {
    left = ground arith;
    top = ground arith;
    width = ground arith;
    height = ground arith;
  }

  read_rectangle-Ensures : Ensures (read_rectangle inflate tight_read) IsExpected
  unfolding read_rectangle
  read_rectangle-Ensures = Ensures-bind (on_input read_u16) _ λ x.
      Ensures-bind (on_input read_u16) _ λ y. Ensures-bind (on_input read_u16) _ λ width.
        Ensures-bind (on_input read_u16) _ λ height. Ensures-bind (on_input read_u32) _ λ t.
          let rect : Rectangle = record { x = x; y = y; width = width; height = height } in
          Ensures-bind_known _ _
            (Ensures-check (is_excessive inflate tight_read rect) excessive_rectangle)
            λ _ small.
              Ensures-bind (λ c. encoding_of inflate tight_read (supported c.encs t) rect c) _
                λ enc. Ensures-pure _ (is_excessive-IsExpected rect enc small)

  -- `k` rectangles, all of them expected.
  abbrev pub IsBounded : ℕ → FramebufferUpdate → Type 0
  IsBounded k rs = (length rs ≡ k) × All IsExpected rs

  read_rectangles-Ensures : (k : ℕ) → Ensures (read_rectangles inflate tight_read k) (IsBounded k)
  unfolding read_rectangles
  read_rectangles-Ensures zero = Ensures-pure [] (refl, tt)
  read_rectangles-Ensures (suc k) =
      Ensures-bind_known (read_rectangle inflate tight_read) _ read_rectangle-Ensures λ r hr.
        Ensures-bind_known (read_rectangles inflate tight_read k) _ (read_rectangles-Ensures k)
          λ rs hrs. Ensures-pure (r ∷ rs) (ap suc hrs.0, (hr, hrs.1))

  abbrev IsSmall : ServerMessage → Type 0
  IsSmall (framebuffer_update rects) = (length rects ≤ 1000) × All IsExpected rects
  IsSmall _ = Unit

  framebuffer_update_read-Ensures : Ensures (framebuffer_update_read inflate tight_read) IsSmall
  unfolding framebuffer_update_read
  framebuffer_update_read-Ensures = Ensures-bind (on_input (read_full 1)) _ λ _.
      Ensures-bind (on_input read_u16) _ λ count.
        Ensures-bind_known _ _ (Ensures-check (ltb 1000 count) excessive_rectangle_count) λ _ few.
          Ensures-bind_known (read_rectangles inflate tight_read count) _
            (read_rectangles-Ensures count)
            λ rs hrs.
              Ensures-pure (framebuffer_update rs)
                (omega (arith, ltb→le 1000 count few, hrs.0), hrs.1)

  -- A framebuffer update that is read without an error, whatever the server sends and whatever the
  -- decoders do, has at most 1000 rectangles, each at most at 5120 by 2880 and at most of that size.
  pub framebuffer_update_read_bounds :
      (c d : ClientConn I) (rects : FramebufferUpdate)
      → framebuffer_update_read inflate tight_read c ≡ (ok (framebuffer_update rects), d)
      → (length rects ≤ 1000) × All IsExpected rects
  framebuffer_update_read_bounds c d rects h =
      framebuffer_update_read-Ensures.returned c d (framebuffer_update rects) h
