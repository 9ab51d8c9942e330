-- ===== src/Vncclient/Zrle/Loops.antt =====
-- The loops over runs of the ZRLE decoder end, whatever a server sends.
use go_vncdriver.Common.{
  ℕ, zero, suc, ◌+◌, ◌-◌, ◌≤◌, ◌<◌, sym, subst, List, [], ◌∷◌, arith, length, leb, ltb, leb→lt,
  ltb→lt, Bool-cases, inl, inr, index, get_elem?, ◌==◌, bit_and,
}
use go_vncdriver.Common.Exec.{Exec, pure, lift}
use go_vncdriver.Common.Ensures.{Ensures, Ensures-pure, Ensures-bind}
use go_vncdriver.Common.Total.{
  IsFinished, continue-IsFinished, IsTotal, IsFinished-bind, IsTotal-bind, IsTotal-bind_known,
  IsTotal-pure, IsTotal-lift, IsTotal-if, element-IsFinished,
}
use go_vncdriver.Vncclient.Color.{Color}
use go_vncdriver.Vncclient.QuickBuf.{QuickBuf, read_byte, read_color, read_colors, read_at}
use go_vncdriver.Vncclient.Fill.{fill_color, fill_run, fill_run2, slice}
use go_vncdriver.Vncclient.Fill.Laws.{fill_color_lem}
use go_vncdriver.Vncclient.Zrle.Tile.{
  run_length, read_run_length, plain_runs, palette_run, palette_runs,
}

pub read_byte-IsTotal : IsTotal read_byte
unfolding read_byte
read_byte-IsTotal = record {
  finished = λ q. elim (Bool-cases (leb (length q.buf) q.off)) [
    | inl e ↦ rw e tt
    | inr e ↦ rw e (element-IsFinished (get_elem? q.buf q.off))
  ];
}

-- A byte that was read was one of those left.
run_length-IsFinished :
    (fuel count : ℕ) (q : QuickBuf)
    → length q.buf - q.off < fuel
    → IsFinished (run_length fuel count q).0
unfolding run_length read_byte
run_length-IsFinished zero count q h = absurd (omega arith)
run_length-IsFinished (suc fuel) count q h = elim (Bool-cases (leb (length q.buf) q.off)) [
  | inl e ↦ rw e tt
  | inr e ↦ rw e (
      continue-IsFinished (index q.buf q.off) _ (record q { off = q.off + 1 })
        (element-IsFinished (get_elem? q.buf q.off))
        (λ b _. elim (Bool-cases (b == 255)) [
          | inl more ↦ rw more (
              run_length-IsFinished fuel (count + b) (record q { off = q.off + 1 })
                (omega (arith, leb→lt (length q.buf) q.off e)))
          | inr last ↦ rw last tt
        ]))
]

run_length-Ensures : (fuel count : ℕ) → Ensures (run_length fuel count) (λ n. count ≤ n)
unfolding run_length
run_length-Ensures zero count = record { returned = λ s t a h. cc }
run_length-Ensures (suc fuel) count = Ensures-bind read_byte _ λ b. elim (Bool-cases (b == 255)) [
  | inl more ↦
      rw more (weaker (run_length fuel (count + b)) b (run_length-Ensures fuel (count + b)))
  | inr last ↦ rw last (Ensures-pure (count + b) (omega arith))
]
  where
    weaker :
        (m : Exec QuickBuf ℕ) (b : ℕ) → Ensures m (λ n. count + b ≤ n) → Ensures m (λ n. count ≤ n)
    weaker m b h = record { returned = λ s t a e. omega (arith, h.returned s t a e) }

read_run_length-IsTotal : IsTotal read_run_length
unfolding read_run_length
read_run_length-IsTotal = record {
  finished = λ q. run_length-IsFinished (suc (length q.buf)) 1 q (omega arith);
}

read_run_length-Ensures : Ensures read_run_length (λ n. 1 ≤ n)
unfolding read_run_length
read_run_length-Ensures = record {
  returned = λ q t n h. (run_length-Ensures (suc (length q.buf)) 1).returned q t n h;
}

palette_run-IsTotal : (idx : ℕ) → IsTotal (palette_run idx)
unfolding palette_run
palette_run-IsTotal idx =
    IsTotal-if (bit_and idx 128 == 0) (pure 1) read_run_length (IsTotal-pure 1)
      read_run_length-IsTotal

palette_run-Ensures : (idx : ℕ) → Ensures (palette_run idx) (λ n. 1 ≤ n)
unfolding palette_run
palette_run-Ensures idx = elim (Bool-cases (bit_and idx 128 == 0)) [
  | inl one ↦ rw one (Ensures-pure 1 (omega arith))
  | inr more ↦ rw more read_run_length-Ensures
]

fill_color-IsFinished : (dst : List Color) (v : Color) → IsFinished (fill_color dst v)
unfolding fill_color
fill_color-IsFinished [] v = tt
fill_color-IsFinished (d ∷ ds) v =
    subst IsFinished (sym (fill_color_lem v (d ∷ ds) (omega arith))) tt

slice-IsFinished : (mem : List Color) (pos count : ℕ) → IsFinished (slice mem pos count)
unfolding slice
slice-IsFinished mem pos count = elim (Bool-cases (ltb (length mem) (pos + count))) [
  | inl e ↦ rw e tt
  | inr e ↦ rw e tt
]

pub fill_run-IsFinished :
    (mem : List Color) (pos count : ℕ) (v : Color) → IsFinished (fill_run mem pos count v)
unfolding fill_run
fill_run-IsFinished mem pos count v =
    IsFinished-bind (slice mem pos count) _ (slice-IsFinished mem pos count)
      λ dst. IsFinished-bind (fill_color dst v) _ (fill_color-IsFinished dst v) λ filled. tt

fill_run2-IsFinished :
    (mem : List Color) (pos count : ℕ) (v : Color) → IsFinished (fill_run2 mem pos count v)
unfolding fill_run2
fill_run2-IsFinished mem pos count v =
    IsFinished-bind (slice mem pos count) _ (slice-IsFinished mem pos count) λ dst. tt

pub read_color-IsTotal : IsTotal read_color
unfolding read_color
read_color-IsTotal = IsTotal-bind (read_at 0) _ (at 0) λ r.
    IsTotal-bind (read_at 1) _ (at 1)
      λ g. IsTotal-bind (read_at 2) _ (at 2) λ b. record { finished = λ q. tt }
  where
    at : (k : ℕ) → IsTotal (read_at k)
    at k = record { finished = λ q. element-IsFinished (get_elem? q.buf (q.off + k)) }

pub read_colors-IsTotal : (n : ℕ) → IsTotal (read_colors n)
unfolding read_colors
read_colors-IsTotal n = record { finished = λ q. ground arith }

pub plain_runs-IsTotal :
    (fuel n pos : ℕ) (mem : List Color) → n - pos < fuel → IsTotal (plain_runs fuel n pos mem)
unfolding plain_runs
plain_runs-IsTotal zero n pos mem h = absurd (omega arith)
plain_runs-IsTotal (suc fuel) n pos mem h = elim (Bool-cases (ltb pos n)) [
  | inl more ↦ rw more (
      IsTotal-bind read_color _ read_color-IsTotal λ v.
        IsTotal-bind_known read_run_length _ read_run_length-IsTotal read_run_length-Ensures
          λ count hc.
            IsTotal-bind (lift (fill_run2 mem pos count v)) _
              (IsTotal-lift _ (fill_run2-IsFinished mem pos count v))
              λ mem'.
                plain_runs-IsTotal fuel n (pos + count) mem' (omega (arith, ltb→lt pos n more)))
  | inr done ↦ rw done (IsTotal-pure mem)
]

pub palette_runs-IsTotal :
    (palette : List Color) (fuel n pos : ℕ) (mem : List Color)
    → n - pos < fuel
    → IsTotal (palette_runs palette fuel n pos mem)
unfolding palette_runs
palette_runs-IsTotal palette zero n pos mem h = absurd (omega arith)
palette_runs-IsTotal palette (suc fuel) n pos mem h = elim (Bool-cases (ltb pos n)) [
  | inl more ↦ rw more (
      IsTotal-bind read_byte _ read_byte-IsTotal λ idx.
        IsTotal-bind_known (palette_run idx) _ (palette_run-IsTotal idx) (palette_run-Ensures idx)
          λ count hc.
            IsTotal-bind (lift (index palette (bit_and idx 127))) _
              (IsTotal-lift _ (element-IsFinished (get_elem? palette (bit_and idx 127))))
              λ v.
                IsTotal-bind (lift (fill_run mem pos count v)) _
                  (IsTotal-lift _ (fill_run-IsFinished mem pos count v))
                  λ mem'.
                    palette_runs-IsTotal palette fuel n (pos + count) mem'
                      (omega (arith, ltb→lt pos n more)))
  | inr done ↦ rw done (IsTotal-pure mem)
]
