-- ===== src/Vncclient/Zrle/Runs.antt =====
-- The run-length loops of `parseTile` read back what the format writes.
use go_vncdriver.Common.{
  ℕ, zero, suc, ◌+◌, ◌-◌, ◌*◌, ◌/◌, ◌%◌, ◌≤◌, ◌<◌, ◌≡◌, sym, ap, subst, ◌∙◌, List, [], ◌∷◌, ◌++◌,
  arith, length, replicate, All, copy_at, ◌==◌, if◌then◌else◌, ne→eqb, le→ltb, lt→ltb,
  length-append, length-replicate, length-copy_at, copy_at-nil, copy_at-append,
}
use go_vncdriver.Common.Exec.{Exec, pure, lift, ◌>>=◌}
use go_vncdriver.Vncclient.Color.{Color}
use go_vncdriver.Vncclient.QuickBuf.{QuickBuf, read_color}
use go_vncdriver.Vncclient.QuickBuf.Laws.{
  Reads, Reads-pure, Reads-bind, Reads-read_color, length-unread, color_bytes, Reads-lift_bind,
  Reads-read_byte_bind, Reads-eq,
}
use go_vncdriver.Vncclient.Fill.{fill_run2}
use go_vncdriver.Vncclient.Fill.Laws.{fill_run2_lem}
use go_vncdriver.Vncclient.Zrle.Tile.{run_length, read_run_length, plain_runs}
use go_vncdriver.Vncclient.Zrle.Format.{run_bytes, plain_bytes, plain_pixels, IsRun}

abbrev run_length_step : ℕ → ℕ → ℕ → Exec QuickBuf ℕ
run_length_step fuel count b = if b == 255 then run_length fuel (count + b) else pure (count + b)

Reads-run_length :
    (q fuel count r : ℕ)
    → q < fuel
    → r < 255
    → Reads (run_length fuel count) (replicate q 255 ++ r ∷ []) (count + 255 * q + r)
unfolding run_length
Reads-run_length q zero count r hq hr = absurd (omega arith)
Reads-run_length zero (suc fuel) count r hq hr =
    Reads-read_byte_bind (run_length_step fuel count) r [] (
      rw (ne→eqb r 255 (omega arith))
        (Reads-eq (pure (count + r)) [] (omega arith) (Reads-pure (count + r))))
Reads-run_length (suc q) (suc fuel) count r hq hr =
    Reads-read_byte_bind (run_length_step fuel count) 255 (replicate q 255 ++ r ∷ []) (
      Reads-eq (run_length fuel (count + 255)) (replicate q 255 ++ r ∷ []) (omega arith)
        (Reads-run_length q fuel (count + 255) r (omega arith) hr))

pub Reads-read_run_length : (k : ℕ) → 1 ≤ k → Reads read_run_length (run_bytes k) k
unfolding read_run_length
Reads-read_run_length k h q rest e =
    Reads-eq (run_length (suc (length q.buf)) 1) (run_bytes k) (omega arith)
      (Reads-run_length ((k - 1) / 255) (suc (length q.buf)) 1 ((k - 1) % 255) fuel (omega arith)) q
      rest e
  where
    fuel : (k - 1) / 255 < suc (length q.buf)
    fuel = omega (
      arith,
      length-unread q,
      ap length e,
      length-append (run_bytes k) rest,
      length-append (replicate ((k - 1) / 255) 255) (((k - 1) % 255) ∷ []),
      length-replicate {A = ℕ} ((k - 1) / 255) 255,
    )

-- A run and the runs behind it, as one copy.
pub run_then :
    (mem : List Color) (pos k : ℕ) (c : Color) (xs : List Color)
    → copy_at (copy_at mem pos (replicate k c)) (pos + k) xs ≡ copy_at mem pos (replicate k c ++ xs)
run_then mem pos k c xs =
    subst
      (λ n.
        copy_at (copy_at mem pos (replicate k c)) (pos + n) xs
        ≡ copy_at mem pos (replicate k c ++ xs))
      (length-replicate k c) (copy_at-append mem pos (replicate k c) xs)

pub length-run_then :
    (k : ℕ) (c : Color) (xs : List Color) → length (replicate k c ++ xs) ≡ k + length xs
length-run_then k c xs =
    length-append (replicate k c) xs ∙ ap (λ n. n + length xs) (length-replicate k c)

pub Reads-plain_runs :
    (rs : List (Color × ℕ)) (fuel n pos : ℕ) (mem : List Color)
    → All IsRun rs
    → pos + length (plain_pixels rs) ≡ n
    → n ≤ length mem
    → n < fuel + pos
    → Reads (plain_runs fuel n pos mem) (plain_bytes rs) (copy_at mem pos (plain_pixels rs))
unfolding plain_runs
Reads-plain_runs rs zero n pos mem runs full fits enough = absurd (omega arith)
Reads-plain_runs [] (suc fuel) n pos mem runs full fits enough =
    rw (le→ltb pos n (omega arith))
      (Reads-eq (pure mem) [] (sym (copy_at-nil mem pos)) (Reads-pure mem))
Reads-plain_runs ((c, k) ∷ rs) (suc fuel) n pos mem (run, runs) full fits enough =
    rw (lt→ltb pos n (omega (arith, size))) (
      Reads-bind read_color
        (λ v. read_run_length >>= λ count.
          lift (fill_run2 mem pos count v) >>= plain_runs fuel n (pos + count))
        (color_bytes (c ∷ [])) (run_bytes k ++ plain_bytes rs) (Reads-read_color c)
        (Reads-bind read_run_length
          (λ count. lift (fill_run2 mem pos count c) >>= plain_runs fuel n (pos + count))
          (run_bytes k) (plain_bytes rs) (Reads-read_run_length k run)
          (Reads-lift_bind (fill_run2 mem pos k c) (plain_runs fuel n (pos + k)) (plain_bytes rs)
            (fill_run2_lem c mem pos k (omega (arith, size)))
            (Reads-eq (plain_runs fuel n (pos + k) (copy_at mem pos (replicate k c)))
              (plain_bytes rs) (run_then mem pos k c (plain_pixels rs))
              (Reads-plain_runs rs fuel n (pos + k) (copy_at mem pos (replicate k c)) runs
                (omega (arith, size)) (omega (arith, length-copy_at mem pos (replicate k c)))
                (omega arith))))))
  where
    size : length (plain_pixels ((c, k) ∷ rs)) ≡ k + length (plain_pixels rs)
    size = length-run_then k c (plain_pixels rs)
