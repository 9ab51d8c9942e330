-- ===== src/Tests/Flexzlib.antt =====
-- Runs of flexzlib with a decompressor that stores its bytes.
use go_vncdriver.Common.{
  ℕ, suc, ◌≡◌, refl, true, false, List, [], ◌∷◌, Option, none, some, arith, take, drop,
}
use go_vncdriver.Common.Exec.{Error, ok, err, eof, unexpected_eof, invalid_header}
use go_vncdriver.Flexzlib.{Flate, is_header}
use go_vncdriver.Flexzlib.Inflator.{inflate}
use go_vncdriver.Flexzlib.Inflator.Laws.{
  Delivers, last, more, inflate_first, inflate_next, inflate_refused,
}

-- A piece that ends is taken for a block that was cut off.
abbrev chunk : ℕ → List ℕ → (List ℕ × Option Error) × (Unit {0} × List ℕ)
chunk n [] = (([], some unexpected_eof), (tt, []))
chunk n (b ∷ bs) = ((take n (b ∷ bs), none), (tt, drop n (b ∷ bs)))

abbrev pub flate : Flate (Unit {0})
flate = record {
  new_reader = tt;
  new_reader_dict = λ dict. tt;
  swap = λ d. d;
  reset = λ dict d. d;
  read = λ n d src. chunk n src;
  close = λ d. none;
  checksum = λ dict. 1;
}

abbrev pub room : ℕ → ℕ
room k = suc 1

roomy : (k : ℕ) → (n : ℕ) × (room k ≡ suc n)
roomy k = (1, refl)

-- Three bytes in two rounds, and the end.
three_bytes : Delivers flate room 2 0 tt (7 ∷ 8 ∷ 9 ∷ []) (7 ∷ 8 ∷ 9 ∷ []) tt []
three_bytes = more 1 0 tt tt tt (7 ∷ 8 ∷ 9 ∷ []) (9 ∷ []) [] (7 ∷ 8 ∷ []) (9 ∷ []) refl (
    more 0 2 tt tt tt (9 ∷ []) [] [] (9 ∷ []) [] refl
      (last 3 tt tt [] [] [] (some unexpected_eof) refl refl))

header : is_header 120 156 ≡ true
unfolding is_header
header = refl

no_header : is_header 120 157 ≡ false
unfolding is_header
no_header = refl

inflate_first_example :
    (e : Option Error) × (inflate flate room 3 (120 ∷ 156 ∷ 7 ∷ 8 ∷ 9 ∷ []) none
      ≡ (ok (7 ∷ 8 ∷ 9 ∷ []), some (record { source = []; decompressor = some tt; error = e })))
inflate_first_example =
    inflate_first flate room roomy 2 tt 120 156 (7 ∷ 8 ∷ 9 ∷ []) [] (7 ∷ 8 ∷ 9 ∷ []) 3 header refl
      three_bytes (omega arith)

inflate_next_example :
    (e : Option Error) × (inflate flate room 3
        (7 ∷ 8 ∷ 9 ∷ [])
        (some (record { source = []; decompressor = some tt; error = some eof }))
      ≡ (ok (7 ∷ 8 ∷ 9 ∷ []), some (record { source = []; decompressor = some tt; error = e })))
inflate_next_example =
    inflate_next flate room roomy 2 tt tt [] (some eof) (7 ∷ 8 ∷ 9 ∷ []) [] (7 ∷ 8 ∷ 9 ∷ []) 3
      three_bytes (omega arith)

inflate_refused_example :
    (inflate flate room 3 [] none ≡ (err eof, none))
    × (inflate flate room 3 (120 ∷ []) none ≡ (err unexpected_eof, none))
    × (inflate flate room 3 (120 ∷ 157 ∷ 7 ∷ []) none ≡ (err invalid_header, none))
inflate_refused_example = inflate_refused flate room 120 157 (7 ∷ []) 3 no_header
