-- ===== src/Tests/Tight.antt =====
-- Runs of the Tight decoder of vncclient/encoding.go.
use go_vncdriver.Common.{
  ℕ, ◌+◌, ◌*◌, ◌≡◌, refl, true, false, List, [], ◌∷◌, ◌++◌, Option, none, some, arith, take, drop,
  bit_or,
}
use go_vncdriver.Common.Exec.{Exec, ok}
use go_vncdriver.Vncclient.Color.{Color, black}
use go_vncdriver.Vncclient.QuickBuf.Laws.{color_bytes}
use go_vncdriver.Vncclient.Encoding.{tight, Rectangle, area}
use go_vncdriver.Vncclient.Tight.Streams.{Zlib, Tight, new_tight, is_reset, read_compact_length}
use go_vncdriver.Vncclient.Tight.Read.{is_supported, tight_read}
use go_vncdriver.Vncclient.Tight.Length.{past, read_compact_length-compact_bytes}
use go_vncdriver.Vncclient.Tight.Rectangles.{tight_read_copy, tight_read_reset}
use go_vncdriver.Gymvnc.Lifecycle.{rgb_format}

-- A zlib that stores its bytes.
abbrev pub stored : Zlib (Unit {0})
stored = record {
  new_reader = λ w. (ok tt, w);
  reset = λ z w. (z, w);
  read_up_to = λ n z w. (ok (take n w), (z, drop n w));
}

-- No image is a JPEG.
abbrev pub decode : Exec (List ℕ) (Option (List ℕ))
decode bs = (ok none, bs)

abbrev square : Rectangle
square = record { x = 0; y = 0; width = 2; height = 2 }

abbrev pub grey : Color
grey = record { r = 128; g = 128; b = 128 }

abbrev three : List Color
three = black ∷ grey ∷ black ∷ []

-- Two bytes for 300.
length_sent : Tight (Unit {0})
length_sent = new_tight (172 ∷ 2 ∷ 5 ∷ [])

read_compact_length-compact_bytes_example :
    read_compact_length length_sent ≡ (ok 300, past length_sent (5 ∷ []) 2)
unfolding length_sent
read_compact_length-compact_bytes_example =
    read_compact_length-compact_bytes length_sent 300 (5 ∷ []) (omega arith) refl

-- Stream 1 has been used, and one byte waits in it that `Reset` drops.
abbrev used : List ℕ → List ℕ → Tight (Unit {0})
used input waiting = record {
  input = input;
  streams =
      record { reader = none; waiting = [] }
      ∷ record { reader = some tt; waiting = waiting }
      ∷ record { reader = none; waiting = [] }
      ∷ record { reader = none; waiting = [] }
      ∷ [];
  reset = 0;
  buf = [];
  size = 0;
}

abbrev pixels : List ℕ
pixels = color_bytes (grey ∷ three)

no_reset : is_reset (bit_or 0 0) 1 ≡ false
unfolding is_reset
no_reset = refl

one_reset : is_reset (bit_or 0 2) 1 ≡ true
unfolding is_reset
one_reset = refl

supported : is_supported rgb_format ≡ true
unfolding is_supported
supported = refl

square-area : 4 ≡ area square
unfolding area
square-area = refl

tight_read_copy_example :
    tight_read stored decode rgb_format square (used (16 ∷ 12 ∷ (pixels ++ 5 ∷ [])) []) ≡ (
      ok (tight (grey ∷ three) (1 + 1 + 12 + area square * 3)),
      record (used (5 ∷ []) []) { size = 1 + 1 + 12 + area square * 3 },
    )
unfolding area
tight_read_copy_example =
    tight_read_copy stored decode rgb_format square supported (omega arith)
      (used (16 ∷ 12 ∷ (pixels ++ 5 ∷ [])) []) 1 0 (omega arith) (omega arith) pixels (5 ∷ [])
      (omega arith) grey three square-area (omega arith) refl tt tt [] [] refl no_reset refl

tight_read_reset_example :
    tight_read stored decode rgb_format square (used (18 ∷ 12 ∷ (pixels ++ 5 ∷ [])) (9 ∷ [])) ≡ (
      ok (tight (grey ∷ three) (1 + 1 + 12 + area square * 3)),
      record (used (5 ∷ []) []) { size = 1 + 1 + 12 + area square * 3 },
    )
unfolding area
tight_read_reset_example =
    tight_read_reset stored decode rgb_format square supported (omega arith)
      (used (18 ∷ 12 ∷ (pixels ++ 5 ∷ [])) (9 ∷ [])) 1 2 (omega arith) (omega arith) pixels (5 ∷ [])
      (omega arith) grey three square-area (omega arith) refl tt tt (9 ∷ []) [] refl tt pixels
      one_reset refl refl
