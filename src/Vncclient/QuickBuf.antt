-- ===== src/Vncclient/QuickBuf.antt =====
-- vncclient/quickbuf.go: a cursor over a byte slice. The laws are in Vncclient/QuickBuf/Laws.
pub mod Laws
use go_vncdriver.Common.{
  ℕ, zero, suc, ◌+◌, ◌-◌, ◌*◌, List, [], ◌∷◌, leb, ltb, if◌then◌else◌, length, index, drop,
}
use go_vncdriver.Common.Exec.{
  Exec, Result, ok, err, panic, index_out_of_range, eof, pure, lift, modify, ◌>>=◌, ◌>>◌,
}
use go_vncdriver.Vncclient.Color.{Color, color_size}

pub record QuickBuf : Type 0 where
  pub buf : List ℕ
  pub off : ℕ

unfoldable pub new_quick_buf : List ℕ → QuickBuf
new_quick_buf bs = record { buf = bs; off = 0 }

-- `int` is signed: the cursor never passes the end, so the truncated `-` is exact (`off-le-length`).
unfoldable pub len : QuickBuf → ℕ
len q = length q.buf - q.off

unfoldable pub read_byte : Exec QuickBuf ℕ
read_byte q =
    if leb (length q.buf) q.off
    then (err eof, q)
    else (index q.buf q.off, record q { off = q.off + 1 })

-- The reinterpretation of memory as colours: three bytes to each.
abbrev pub colors_of : ℕ → List ℕ → List Color
colors_of zero bs = []
colors_of (suc n) (r ∷ g ∷ b ∷ bs) = record { r = r; g = g; b = b } ∷ colors_of n bs
colors_of (suc n) _ = []

-- `&b.buf[b.off]` faults at the very end of the buffer, also when no colour is asked for.
unfoldable pub read_colors : ℕ → Exec QuickBuf (List Color)
read_colors n q =
    if ltb (length q.buf) (q.off + color_size * n)
    then (err eof, q)
    else if leb (length q.buf) q.off
    then (panic index_out_of_range, q)
    else (ok (colors_of n (drop q.off q.buf)), record q { off = q.off + color_size * n })

-- `b.buf[b.off+k]`
abbrev pub read_at : ℕ → Exec QuickBuf ℕ
read_at k q = (index q.buf (q.off + k), q)

unfoldable pub read_color : Exec QuickBuf Color
read_color = do
  r ← read_at 0
  g ← read_at 1
  b ← read_at 2
  modify (λ q. record q { off = q.off + color_size })
  pure (record { r = r; g = g; b = b })
