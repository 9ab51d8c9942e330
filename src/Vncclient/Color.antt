-- ===== src/Vncclient/Color.antt =====
-- vncclient/color.go.
use go_vncdriver.Common.{ℕ}

-- Every component is a byte.
pub record Color : Type 0 where
  pub r : ℕ
  pub g : ℕ
  pub b : ℕ

abbrev pub color_size : ℕ
color_size = 3

abbrev pub black : Color
black = record { r = 0; g = 0; b = 0 }
