-- ===== src/Vncclient/Zrle/RoundTrip.antt =====
-- `parseTile` reads back every tile of the format.
use go_vncdriver.Common.{
  ℕ, suc, ◌+◌, ◌*◌, ◌≤◌, ◌<◌, ◌≡◌, sym, ap, ◌∙◌, List, [], ◌∷◌, ◌++◌, arith, length, subst,
  length-replicate, replicate, copy_at, take, lt→ltb, ne→eqb, take-copy_at_zero, bit_and,
}
use go_vncdriver.Common.Bits.{bit_and-127, bit_and-128}
use go_vncdriver.Common.Exec.{Exec, ok, pure}
use go_vncdriver.Vncclient.Color.{Color}
use go_vncdriver.Vncclient.QuickBuf.{QuickBuf, read_colors}
use go_vncdriver.Vncclient.QuickBuf.Laws.{
  Reads, Reads-pure, Reads-bind, Reads-bind_last, Reads-read_byte_bind, Reads-lift_bind, Reads-eq,
  Reads-read_colors, Reads-no_colors_bind, color_bytes, unread, advance,
}
use go_vncdriver.Vncclient.Fill.{fill_run}
use go_vncdriver.Vncclient.Fill.Laws.{fill_run_lem}
use go_vncdriver.Vncclient.Zrle.Tile.{decode_tile, plain_runs, palette_runs}
use go_vncdriver.Vncclient.Zrle.Format.{
  run_bytes, Tile, raw, solid, plain_rle, palette_rle, IsTile, tile_bytes, tile_colors, plain_bytes,
  plain_pixels, palette_bytes, palette_pixels,
}
use go_vncdriver.Vncclient.Zrle.Runs.{Reads-plain_runs}
use go_vncdriver.Vncclient.Zrle.PaletteRuns.{Reads-palette_runs}

-- The scratch memory behind a tile: a raw tile does not touch it.
abbrev pub scratch_after : ℕ → Tile → List Color → List Color
scratch_after n (raw colors) mem = mem
scratch_after n t mem = copy_at mem 0 (tile_colors n t)

abbrev used : ℕ → List Color → Exec QuickBuf (List Color × List Color)
used n mem = pure (take n mem, mem)

module _ (tw th : ℕ) (mem : List Color) (some_pixel : 0 < th * tw)
    (room : th * tw ≤ length mem) where
  Reads-used :
      (px : List Color)
      → length px ≡ th * tw
      → Reads (used (th * tw) (copy_at mem 0 px)) [] (px, copy_at mem 0 px)
  Reads-used px e =
      Reads-eq (used (th * tw) (copy_at mem 0 px)) []
        (ap (λ t. (t, copy_at mem 0 px))
          (ap (λ n. take n (copy_at mem 0 px)) (sym e) ∙ take-copy_at_zero mem px (omega arith)))
        (Reads-pure _)

  Reads-raw :
      (c : Color) (cs : List Color)
      → length (c ∷ cs) ≡ th * tw
      → Reads (decode_tile tw th mem) (tile_bytes (raw (c ∷ cs))) (c ∷ cs, mem)
  unfolding decode_tile
  Reads-raw c cs e = Reads-read_byte_bind _ 0 (color_bytes (c ∷ cs)) (
      Reads-no_colors_bind _ c.r (c.g ∷ c.b ∷ color_bytes cs) (
        Reads-bind_last (read_colors (th * tw)) (λ colors. pure (colors, mem))
          (color_bytes (c ∷ cs))
          (subst (λ n. Reads (read_colors n) (color_bytes (c ∷ cs)) (c ∷ cs)) e
            (Reads-read_colors c cs))
          (Reads-pure (c ∷ cs, mem))))

  Reads-solid :
      (c : Color)
      → Reads
          (decode_tile tw th mem)
          (tile_bytes (solid c))
          (replicate (th * tw) c, copy_at mem 0 (replicate (th * tw) c))
  unfolding decode_tile
  Reads-solid c = Reads-read_byte_bind _ 1 (color_bytes (c ∷ [])) (
      Reads-bind_last (read_colors 1) _ (color_bytes (c ∷ [])) (Reads-read_colors c []) (
        Reads-lift_bind (fill_run mem 0 (th * tw) c) (used (th * tw)) []
          (fill_run_lem c mem 0 (th * tw) (omega arith) some_pixel)
          (Reads-used (replicate (th * tw) c) (length-replicate (th * tw) c))))

  Reads-plain_rle :
      (c : Color) (k : ℕ) (rs : List (Color × ℕ))
      → IsTile (th * tw) (plain_rle ((c, k) ∷ rs))
      → let t = plain_rle ((c, k) ∷ rs) in
        Reads
          (decode_tile tw th mem)
          (tile_bytes t)
          (tile_colors (th * tw) t, copy_at mem 0 (tile_colors (th * tw) t))
  unfolding decode_tile
  Reads-plain_rle c k rs (runs, full) = Reads-read_byte_bind _ 128 (plain_bytes ((c, k) ∷ rs)) (
      Reads-no_colors_bind _ c.r (c.g ∷ c.b ∷ (run_bytes k ++ plain_bytes rs)) (
        Reads-bind_last (plain_runs (suc (th * tw)) (th * tw) 0 mem) (used (th * tw))
          (plain_bytes ((c, k) ∷ rs))
          (Reads-plain_runs ((c, k) ∷ rs) (suc (th * tw)) (th * tw) 0 mem runs (omega (arith, full))
            room (omega arith))
          (Reads-used (plain_pixels ((c, k) ∷ rs)) full)))

  Reads-palette_rle :
      (c : Color) (cs : List Color) (rs : List (ℕ × ℕ))
      → IsTile (th * tw) (palette_rle (c ∷ cs) rs)
      → let t = palette_rle (c ∷ cs) rs in
        Reads
          (decode_tile tw th mem)
          (tile_bytes t)
          (tile_colors (th * tw) t, copy_at mem 0 (tile_colors (th * tw) t))
  unfolding decode_tile
  Reads-palette_rle c cs rs (two, small, runs, full) =
      Reads-read_byte_bind _ (128 + length palette) (color_bytes palette ++ palette_bytes rs) (
        rw (low, top)
          (Reads-bind (read_colors (length palette)) _ (color_bytes palette) (palette_bytes rs)
            (Reads-read_colors c cs)
            (rw
              (
                ne→eqb (length palette) 0 (omega arith),
                ne→eqb (length palette) 1 (omega arith),
                lt→ltb 1 (length palette) two,
              )
              (Reads-bind_last (palette_runs palette (suc n) n 0 mem) (used n) (palette_bytes rs)
                (Reads-palette_runs palette small rs (suc n) n 0 mem runs (omega (arith, full)) room
                  (omega arith))
                (Reads-used (palette_pixels palette rs) full)))))
    where
      n : ℕ
      n = th * tw

      palette : List Color
      palette = c ∷ cs

      low : bit_and (128 + length palette) 127 ≡ length palette
      low = bit_and-127 (128 + length palette) (omega arith) ∙ omega arith

      top : bit_and (128 + length palette) 128 ≡ 128
      top = bit_and-128 (128 + length palette) (omega arith) ∙ omega arith

Reads-tile :
    (tw th : ℕ) (mem : List Color) (t : Tile)
    → 0 < th * tw
    → th * tw ≤ length mem
    → IsTile (th * tw) t
    → Reads
        (decode_tile tw th mem)
        (tile_bytes t)
        (tile_colors (th * tw) t, scratch_after (th * tw) t mem)
Reads-tile tw th mem (raw []) some_pixel room e = absurd (omega arith)
Reads-tile tw th mem (raw (c ∷ cs)) some_pixel room e = Reads-raw tw th mem some_pixel room c cs e
Reads-tile tw th mem (solid c) some_pixel room e = Reads-solid tw th mem some_pixel room c
Reads-tile tw th mem (plain_rle []) some_pixel room (_, e) = absurd (omega arith)
Reads-tile tw th mem (plain_rle ((c, k) ∷ rs)) some_pixel room e =
    Reads-plain_rle tw th mem some_pixel room c k rs e
Reads-tile tw th mem (palette_rle [] rs) some_pixel room e = absurd (omega arith)
Reads-tile tw th mem (palette_rle (c ∷ cs) rs) some_pixel room e =
    Reads-palette_rle tw th mem some_pixel room c cs rs e

-- `parseTile` reads back every raw, solid, plain RLE and palette RLE tile that the format allows
-- for its size: it takes exactly the tile's bytes, whatever follows them, and returns its pixels.
-- The scratch memory has room for the tile, which has a pixel at least.
pub decode_tile-tile_bytes :
    (tw th : ℕ) (mem : List Color) (t : Tile) (q : QuickBuf) (rest : List ℕ)
    → 0 < th * tw
    → th * tw ≤ length mem
    → IsTile (th * tw) t
    → unread q ≡ tile_bytes t ++ rest
    → decode_tile tw th mem q ≡ (
      ok (tile_colors (th * tw) t, scratch_after (th * tw) t mem),
      advance q (length (tile_bytes t)),
    )
decode_tile-tile_bytes tw th mem t q rest some_pixel room e =
    Reads-tile tw th mem t some_pixel room e q rest
