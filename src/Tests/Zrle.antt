-- ===== src/Tests/Zrle.antt =====
-- Runs of the ZRLE decoder of vncclient/encoding.go.
use go_vncdriver.Common.{ℕ, ◌≡◌, refl, List, [], ◌∷◌, ◌++◌, arith, replicate, length}
use go_vncdriver.Common.Exec.{ok, err, panic, unhandled_subencoding, index_out_of_range}
use go_vncdriver.Vncclient.Color.{Color, black}
use go_vncdriver.Vncclient.QuickBuf.{QuickBuf, new_quick_buf, read_byte, read_colors}
use go_vncdriver.Vncclient.QuickBuf.Laws.{advance}
use go_vncdriver.Vncclient.Fill.{fill_color}
use go_vncdriver.Vncclient.Fill.Laws.{fill_color_lem}
use go_vncdriver.Vncclient.Zrle.Tile.{decode_tile}
use go_vncdriver.Common.Total.{IsFinished}
use go_vncdriver.Vncclient.Zrle.Parse.{parse}
use go_vncdriver.Vncclient.Zrle.Termination.{parse_finishes}
use go_vncdriver.Vncclient.Zrle.Format.{Tile, palette_rle, tile_bytes, tile_colors}
use go_vncdriver.Vncclient.Zrle.RoundTrip.{decode_tile-tile_bytes, scratch_after}

abbrev red : Color
red = record { r = 255; g = 0; b = 0 }

abbrev blue : Color
blue = record { r = 0; g = 0; b = 255 }

abbrev scratch : List Color
scratch = replicate 8 black

-- Two columns, three rows, a palette of two, and a run over the end of a row.
abbrev two_runs : Tile
two_runs = palette_rle (red ∷ blue ∷ []) ((0, 5) ∷ (1, 1) ∷ [])

abbrev cursor : QuickBuf
cursor = new_quick_buf (tile_bytes two_runs ++ (9 ∷ []))

abbrev five : List ℕ
five = 1 ∷ 2 ∷ 3 ∷ 4 ∷ 5 ∷ []

fill_color_lem_example : fill_color five 7 ≡ ok (replicate 5 7)
fill_color_lem_example = fill_color_lem 7 five (omega arith)

decode_tile-tile_bytes_example : decode_tile 2 3 scratch cursor ≡ (
  ok (tile_colors 6 two_runs, scratch_after 6 two_runs scratch),
  advance cursor (length (tile_bytes two_runs)),
)
unfolding new_quick_buf
decode_tile-tile_bytes_example =
    decode_tile-tile_bytes 2 3 scratch two_runs cursor (9 ∷ []) (omega arith) (omega arith)
      (omega arith) refl

-- The reuse of the last palette, which RFC 6143 does not have.
reuse_refused :
    (decode_tile 2 2 scratch (new_quick_buf (129 ∷ 1 ∷ 2 ∷ 3 ∷ []))).0 ≡ err unhandled_subencoding
unfolding decode_tile new_quick_buf read_byte read_colors
reuse_refused = refl

-- Input that ends behind the subencoding byte is no error but a fault.
cut_short : (decode_tile 2 2 scratch (new_quick_buf (128 ∷ []))).0 ≡ panic index_out_of_range
unfolding decode_tile new_quick_buf read_byte read_colors
cut_short = refl

-- A run that goes on for ever in the bytes that are there.
abbrev endless : QuickBuf
endless = new_quick_buf (128 ∷ 1 ∷ 2 ∷ 3 ∷ 255 ∷ 255 ∷ 255 ∷ [])

parse_finishes_example :
    IsFinished (parse (record { x = 0; y = 0; width = 100; height = 70 }) endless).0
parse_finishes_example =
    parse_finishes (record { x = 0; y = 0; width = 100; height = 70 }) endless (omega arith)
      (omega arith)
