-- ===== src/Vncclient/Tight/Pixels.antt =====
-- `readTPixels` and the readers that it is given.
use go_vncdriver.Common.{
  ℕ, zero, suc, ◌+◌, ◌*◌, ◌≡◌, refl, sym, ap, List, [], ◌∷◌, ◌++◌, arith, length, drop, min,
  take-append_at, drop-append_at, take_all, append-nil,
}
use go_vncdriver.Common.Exec.{ok}
use go_vncdriver.Vncclient.Color.{Color}
use go_vncdriver.Vncclient.QuickBuf.{new_quick_buf, read_colors}
use go_vncdriver.Vncclient.QuickBuf.Laws.{color_bytes, length-color_bytes, read_colors_lem}
use go_vncdriver.Vncclient.Tight.Streams.{
  Zlib, Tight, Source, direct, limited, read_source, read_to_buf, read_tpixels,
}

pub drop-whole : (xs : List ℕ) (n : ℕ) → n ≡ length xs → drop n xs ≡ []
drop-whole [] zero e = refl
drop-whole [] (suc n) e = refl
drop-whole (x ∷ xs) zero e = absurd (omega arith)
drop-whole (x ∷ xs) (suc n) e = drop-whole xs n (omega arith)

read_colors-color_bytes :
    (c : Color) (cs : List Color)
    → (read_colors (suc (length cs)) (new_quick_buf (color_bytes (c ∷ cs)))).0 ≡ ok (c ∷ cs)
unfolding new_quick_buf
read_colors-color_bytes c cs =
    ap (λ p. p.0)
      (read_colors_lem (c ∷ cs) (new_quick_buf (color_bytes (c ∷ cs))) []
        (sym (append-nil (color_bytes (c ∷ cs)))) (omega arith))

abbrev pub emptied : {Z : Type 0} → Tight Z → Tight Z
emptied t = record t { buf = [] }

module _ {Z : Type 0} (zlib : Zlib Z) where
  -- Whatever the reader: what it delivers becomes the pixels.
  pub read_tpixels_lem :
      (src : Source) (t t' : Tight Z) (c : Color) (cs : List Color)
      → read_source zlib src (suc (length cs) * 3) (emptied t)
        ≡ (ok (color_bytes (c ∷ cs)), emptied t')
      → read_tpixels zlib src (suc (length cs)) (emptied t)
        ≡ (ok (c ∷ cs), record t' { size = t'.size + suc (length cs) * 3; buf = [] })
  unfolding read_tpixels read_to_buf
  read_tpixels_lem src t t' c cs h = rw h (
      rw
        (
          take_all (suc (length cs) * 3) (color_bytes (c ∷ cs))
              (omega (arith, length-color_bytes (c ∷ cs))),
          drop-whole (color_bytes (c ∷ cs)) (suc (length cs) * 3)
              (omega (arith, length-color_bytes (c ∷ cs))),
        )
        (rw (read_colors-color_bytes c cs)))

  -- Bytes that stand on the connection as they are.
  pub read_direct :
      (t : Tight Z) (n : ℕ) (bs rest : List ℕ)
      → n ≡ length bs
      → t.input ≡ bs ++ rest
      → read_source zlib (direct n) n t ≡ (ok bs, record t { input = rest })
  unfolding read_source limited
  read_direct t n bs rest e h =
      rw (h, least) (rw (take-append_at n bs rest e, drop-append_at n bs rest e))
    where
      least : min n n ≡ n
      least = omega arith
