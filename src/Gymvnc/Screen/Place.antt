-- ===== src/Gymvnc/Screen/Place.antt =====
-- Where `applyRect` puts the pixels of a rectangle that lies inside the framebuffer.
use go_vncdriver.Common.{
  Bool, Bool-cases, if◌then◌else◌, true, false, leb, ltb, ◌&&◌, ℕ, zero, suc, ◌+◌, ◌-◌, ◌*◌, ◌≤◌,
  ◌<◌, ◌≡◌, refl, sym, ap, ◌∙◌, subst, ◌⊎◌, inl, inr, List, arith, length, take, drop, copy_at,
  get_elem?, le→ltb, length-take, length-drop, length-copy_at, get_elem?-drop_add, get-copy_at_in,
  get-copy_at_out, get-take,
}
use native.Mathlib.Nat.{mul-le-mul_left}
use go_vncdriver.Common.Bytes.{u32, IsU16}
use go_vncdriver.Common.Exec.{ok}
use go_vncdriver.Vncclient.Color.{Color}
use go_vncdriver.Vncclient.Encoding.{Rectangle}
use go_vncdriver.Gymvnc.Screen.{copy_row, apply_rows, apply_rect}

le-cases : (m n : ℕ) → m ≤ n → (m ≡ n) ⊎ (m + 1 ≤ n)
le-cases m n h = ground arith

order : (m n : ℕ) → (m < n) ⊎ ((n < m) ⊎ (m ≡ n))
order m n = ground arith

-- The rectangle has the pixel in column `px` and row `py` of the screen.
abbrev pub covers : Rectangle → ℕ → ℕ → Bool
covers rect px py =
    (leb rect.x px && ltb px (rect.x + rect.width))
    && (leb rect.y py && ltb py (rect.y + rect.height))

module _ (fw fh : ℕ) (rect : Rectangle) (colors : List Color) (hx : rect.x + rect.width ≤ fw)
    (hy : rect.y + rect.height ≤ fh) (wide : IsU16 fw) (high : IsU16 fh)
    (hc : length colors ≡ rect.width * rect.height) where
  -- The first pixel of a row on the screen, and the row in the colours.
  abbrev start : ℕ → ℕ
  start y = fw * (rect.y + y) + rect.x

  abbrev row : ℕ → List Color
  row y = take rect.width (drop (rect.width * y) colors)

  below : (y z : ℕ) → y < z → fw * (rect.y + y) + fw ≤ fw * (rect.y + z)
  below y z h =
      omega (arith, mul-le-mul_left {m = rect.y + y + 1} {n = rect.y + z} fw (omega arith))

  start_fits : (y : ℕ) → y < rect.height → start y + rect.width ≤ fw * fh
  start_fits y h = omega (arith, mul-le-mul_left {m = rect.y + y + 1} {n = fh} fw (omega arith))

  row_fits : (y : ℕ) → y < rect.height → rect.width * y + rect.width ≤ length colors
  row_fits y h =
      omega (arith, hc, mul-le-mul_left {m = y + 1} {n = rect.height} rect.width (omega arith))

  length-row : (y : ℕ) → y < rect.height → length (row y) ≡ rect.width
  length-row y h = omega (
    arith,
    row_fits y h,
    length-take rect.width (drop (rect.width * y) colors),
    length-drop (rect.width * y) colors,
  )

  small : fw * fh < 4294967296
  small = omega (arith, mul-le-mul_left {m = fh} {n = 65535} fw (omega arith))

  colors_small : rect.width * rect.height ≤ fw * fh
  colors_small = omega (
    arith,
    mul-le-mul_left {m = rect.height} {n = fh} rect.width (omega arith),
    mul-le-mul_left {m = rect.width} {n = fw} fh (omega arith),
  )

  u32_small : (n : ℕ) → n < 4294967296 → u32 n ≡ n
  u32_small n h = omega arith

  -- One row of `applyRect`, without the wrap-arounds.
  row_written :
      (y : ℕ) (pixels : List Color)
      → y < rect.height
      → length pixels ≡ fw * fh
      → let enc_start = u32 (rect.width * y) in
        let first = u32 (u32 (fw * u32 (rect.y + y)) + rect.x) in
        copy_row first
          (u32 (first + rect.width))
          enc_start
          (u32 (enc_start + rect.width))
          colors
          pixels
        ≡ (ok tt, copy_at pixels (start y) (row y))
  unfolding copy_row
  row_written y pixels h size =
      rw
        (
          u32_small (rect.y + y) (omega arith),
          u32_small (fw * (rect.y + y)) (omega (arith, small, start_fits y h)),
          u32_small (start y) (omega (arith, small, start_fits y h)),
          u32_small (start y + rect.width) (omega (arith, small, start_fits y h)),
          u32_small (rect.width * y) (omega (arith, small, colors_small, row_fits y h, hc)),
          u32_small (rect.width * y + rect.width)
              (omega (arith, small, colors_small, row_fits y h, hc)),
          le→ltb (length pixels) (start y + rect.width) (omega (arith, start_fits y h, size)),
          le→ltb (start y + rect.width) (start y) (omega arith),
          le→ltb (length colors) (rect.width * y + rect.width) (row_fits y h),
          le→ltb (rect.width * y + rect.width) (rect.width * y) (omega arith),
        )
        (ap (λ n. (ok tt, copy_at pixels (start y) (take n (drop (rect.width * y) colors))))
          (omega arith))

  -- `q` is `pixels` with the rows from `y` on.
  record IsPainted (y : ℕ) (pixels q : List Color) : Type 0 where
    size : length q ≡ length pixels
    inside :
        (i j : ℕ)
        → i < rect.width
        → y ≤ j
        → j < rect.height
        → get_elem? q (start j + i) ≡ get_elem? colors (rect.width * j + i)
    outside :
        (p : ℕ)
        → ((j : ℕ) → y ≤ j → j < rect.height → (p < start j) ⊎ (start j + rect.width ≤ p))
        → get_elem? q p ≡ get_elem? pixels p

  get-row : (y i : ℕ) → i < rect.width → get_elem? (row y) i ≡ get_elem? colors (rect.width * y + i)
  get-row y i h =
      get-take rect.width (drop (rect.width * y) colors) i h
      ∙ sym (get_elem?-drop_add (rect.width * y) colors i)

  painted_row :
      (y i : ℕ) (pixels : List Color)
      → i < rect.width
      → y < rect.height
      → length pixels ≡ fw * fh
      → get_elem? (copy_at pixels (start y) (row y)) (start y + i)
        ≡ get_elem? colors (rect.width * y + i)
  painted_row y i pixels hi h size =
      get-copy_at_in pixels (start y) (row y) i
        (omega (arith, length-row y h, start_fits y h, size)) (omega (arith, length-row y h))
      ∙ get-row y i hi

  -- A row in front of rows that are painted.
  IsPainted-suc :
      (y : ℕ) (pixels q : List Color)
      → y < rect.height
      → length pixels ≡ fw * fh
      → IsPainted (y + 1) (copy_at pixels (start y) (row y)) q
      → IsPainted y pixels q
  IsPainted-suc y pixels q h size k = record {
    size = k.size ∙ length-copy_at pixels (start y) (row y);
    inside = λ i j hi hy' hj. elim (le-cases y j hy') [
      | inl same ↦
          subst (λ n. get_elem? q (start n + i) ≡ get_elem? colors (rect.width * n + i)) same
            (k.outside (start y + i) (λ z hz hl. inl (omega (arith, below y z (omega arith))))
              ∙ painted_row y i pixels hi h size)
      | inr later ↦ k.inside i j hi later hj
    ];
    outside = λ p out.
        k.outside p (λ j hj. out j (omega arith))
        ∙ get-copy_at_out pixels (start y) (row y) p (rw (length-row y h) (out y (omega arith) h));
  }

  apply_rows-IsPainted :
      (k y : ℕ) (pixels : List Color)
      → y + k ≡ rect.height
      → length pixels ≡ fw * fh
      → (q : List Color) × (apply_rows fw rect colors k y pixels ≡ (ok tt, q))
        × IsPainted y pixels q
  unfolding apply_rows
  apply_rows-IsPainted zero y pixels e size = (
    pixels,
    refl,
    record { size = refl; inside = λ i j hi hy' hj. absurd (omega arith); outside = λ p out. refl },
  )
  apply_rows-IsPainted (suc k) y pixels e size =
      let h : y < rect.height = omega arith in
      let (q, done, painted) =
        apply_rows-IsPainted k (y + 1) (copy_at pixels (start y) (row y)) (omega arith)
          (length-copy_at pixels (start y) (row y) ∙ size) in
      (q, rw (row_written y pixels h size) done, IsPainted-suc y pixels q h size painted)

  covers_at :
      (px py : ℕ)
      → covers rect px py ≡ true
      → (px - rect.x < rect.width)
        × (py - rect.y < rect.height)
        × (rect.x + (px - rect.x) ≡ px)
        × (rect.y + (py - rect.y) ≡ py)
  covers_at px py h = (ground arith, ground arith, ground arith, ground arith)

  -- A pixel of a row that the rectangle has, in a column that it does not have.
  beside :
      (px j : ℕ)
      → covers rect px (rect.y + j) ≡ false
      → j < rect.height
      → (px < rect.x) ⊎ (rect.x + rect.width ≤ px)
  beside px j no' hj = ground arith

  -- Outside of the rectangle a pixel is in no row of it.
  uncovered :
      (px py j : ℕ)
      → px < fw
      → covers rect px py ≡ false
      → j < rect.height
      → (fw * py + px < start j) ⊎ (start j + rect.width ≤ fw * py + px)
  uncovered px py j h no' hj = elim (order py (rect.y + j)) [
    | inl above ↦
        inl (omega (arith, mul-le-mul_left {m = py + 1} {n = rect.y + j} fw (omega arith)))
    | inr (inl behind) ↦
        inr (omega (arith, mul-le-mul_left {m = rect.y + j + 1} {n = py} fw (omega arith)))
    | inr (inr same) ↦ elim (beside px j (ap (covers rect px) (sym same) ∙ no') hj) [
      | inl left ↦ inl (omega (arith, ap (λ n. fw * n) same))
      | inr right ↦ inr (omega (arith, ap (λ n. fw * n) same))
    ]
  ]

  -- The framebuffer's sides and the rectangle's are of 16 bits, the rectangle lies inside the
  -- framebuffer and has a colour for each of its pixels, and the screen is as large as the
  -- framebuffer: then `applyRect` does not fail, a pixel that the rectangle covers gets its colour
  -- from the rectangle, and every other pixel of the screen keeps its own.
  pub apply_rect_lem :
      (pixels : List Color) (px py : ℕ)
      → length pixels ≡ fw * fh
      → px < fw
      → ((apply_rect fw rect colors pixels).0 ≡ ok tt)
        × (get_elem? (apply_rect fw rect colors pixels).1 (fw * py + px) ≡ (
            if covers rect px py
            then get_elem? colors (rect.width * (py - rect.y) + (px - rect.x))
            else get_elem? pixels (fw * py + px)))
  unfolding apply_rect
  apply_rect_lem pixels px py size h =
      let (q, done, painted) = apply_rows-IsPainted rect.height 0 pixels (omega arith) size in
      rw done (
        refl,
        elim (Bool-cases (covers rect px py)) [
          | inl yes' ↦
              let (hi, hj, column, line) = covers_at px py yes' in
              let place : start (py - rect.y) + (px - rect.x) ≡ fw * py + px =
                omega (arith, column, ap (λ n. fw * n) line) in
              rw (yes', ← place) (painted.inside (px - rect.x) (py - rect.y) hi (omega arith) hj)
          | inr no' ↦ rw no' (painted.outside (fw * py + px) (λ j _ hj. uncovered px py j h no' hj))
        ],
      )
