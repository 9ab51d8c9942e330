-- ===== src/Vncclient/Zrle/Format.antt =====
-- The ZRLE tile format of RFC 6143 (7.7.6), as the comments of `parseTile` describe it: the bytes
-- that a server writes for a tile, and the pixels that they stand for.
use go_vncdriver.Common.{
  ℕ, zero, suc, ◌+◌, ◌-◌, ◌/◌, ◌%◌, ◌≤◌, ◌<◌, ◌≡◌, List, [], ◌∷◌, ◌++◌, length, replicate, All,
  ◌==◌, if◌then◌else◌,
}
use go_vncdriver.Vncclient.Color.{Color, black}
use go_vncdriver.Vncclient.QuickBuf.Laws.{color_bytes}

pub data Tile : Type 0 where
  raw : List Color → Tile
  solid : Color → Tile
  plain_rle : List (Color × ℕ) → Tile
  palette_rle : List Color → List (ℕ × ℕ) → Tile

-- One more than the sum of the bytes; only the last one is not 255.
abbrev pub run_bytes : ℕ → List ℕ
run_bytes k = replicate ((k - 1) / 255) 255 ++ ((k - 1) % 255) ∷ []

abbrev pub plain_bytes : List (Color × ℕ) → List ℕ
plain_bytes [] = []
plain_bytes ((c, k) ∷ rs) = color_bytes (c ∷ []) ++ (run_bytes k ++ plain_bytes rs)

abbrev pub palette_run_bytes : ℕ → ℕ → List ℕ
palette_run_bytes idx k = if k == 1 then idx ∷ [] else (idx + 128) ∷ run_bytes k

abbrev pub palette_bytes : List (ℕ × ℕ) → List ℕ
palette_bytes [] = []
palette_bytes ((idx, k) ∷ rs) = palette_run_bytes idx k ++ palette_bytes rs

abbrev pub tile_bytes : Tile → List ℕ
tile_bytes (raw colors) = 0 ∷ color_bytes colors
tile_bytes (solid c) = 1 ∷ color_bytes (c ∷ [])
tile_bytes (plain_rle rs) = 128 ∷ plain_bytes rs
tile_bytes (palette_rle palette rs) =
    (128 + length palette) ∷ (color_bytes palette ++ palette_bytes rs)

-- What a palette entry stands for; the format has no index outside the palette.
abbrev pub entry : List Color → ℕ → Color
entry [] i = black
entry (c ∷ cs) zero = c
entry (c ∷ cs) (suc i) = entry cs i

abbrev pub plain_pixels : List (Color × ℕ) → List Color
plain_pixels [] = []
plain_pixels ((c, k) ∷ rs) = replicate k c ++ plain_pixels rs

abbrev pub palette_pixels : List Color → List (ℕ × ℕ) → List Color
palette_pixels palette [] = []
palette_pixels palette ((i, k) ∷ rs) = replicate k (entry palette i) ++ palette_pixels palette rs

-- The pixels of a tile of `n` pixels, row by row.
abbrev pub tile_colors : ℕ → Tile → List Color
tile_colors n (raw colors) = colors
tile_colors n (solid c) = replicate n c
tile_colors n (plain_rle rs) = plain_pixels rs
tile_colors n (palette_rle palette rs) = palette_pixels palette rs

abbrev pub IsRun : Color × ℕ → Type 0
IsRun (c, k) = 1 ≤ k

abbrev pub IsPaletteRun : ℕ → ℕ × ℕ → Type 0
IsPaletteRun size (i, k) = (i < size) × (1 ≤ k)

-- A tile that the format allows for `n` pixels.
abbrev pub IsTile : ℕ → Tile → Type 0
IsTile n (raw colors) = length colors ≡ n
IsTile n (solid c) = Unit
IsTile n (plain_rle rs) = All IsRun rs × (length (plain_pixels rs) ≡ n)
IsTile n (palette_rle palette rs) =
    (2 ≤ length palette)
    × (length palette ≤ 127)
    × All (IsPaletteRun (length palette)) rs
    × (length (palette_pixels palette rs) ≡ n)
