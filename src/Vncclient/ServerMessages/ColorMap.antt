-- ===== src/Vncclient/ServerMessages/ColorMap.antt =====
-- SetColorMapEntries as the code reads it, with one byte for each component of a colour; RFC 6143,
-- section 7.6.2, has two.
use go_vncdriver.Common.{
  ℕ, ◌+◌, ◌≤◌, ◌<◌, ◌≡◌, ap, List, [], ◌∷◌, ◌++◌, arith, length, lt→ltb, copy_at, copy_at-append,
  copy_at-nil,
}
use go_vncdriver.Common.Bytes.{be16, u16}
use go_vncdriver.Common.Exec.{ok}
use go_vncdriver.Vncclient.Color.{Color}
use go_vncdriver.Vncclient.QuickBuf.Laws.{color_bytes}
use go_vncdriver.Vncclient.Wire.Laws.{read_full-append, read_u8-cons, read_u16-be16}
use go_vncdriver.Vncclient.Client.{ClientConn}
use go_vncdriver.Vncclient.ServerMessages.{
  set_color_map_entries, set_color, read_entry, read_entries, set_color_map_entries_read,
}

module _ {I : Type 0} where
  -- A connection with this input and this colour map.
  abbrev at : ClientConn I → List ℕ → List Color → ClientConn I
  at c input map = record c { input = input; color_map = map }

  read_entry_lem :
      (c : ClientConn I) (color : Color) (rest : List ℕ) (map : List Color)
      → read_entry (at c (color_bytes (color ∷ []) ++ rest) map) ≡ (ok color, at c rest map)
  unfolding read_entry
  read_entry_lem c color rest map =
      rw (read_u8-cons color.r (color.g ∷ color.b ∷ rest))
        (rw (read_u8-cons color.g (color.b ∷ rest)) (rw (read_u8-cons color.b rest)))

  set_color_lem :
      (c : ClientConn I) (i : ℕ) (color : Color) (rest : List ℕ) (map : List Color)
      → i < 256
      → set_color (u16 i) color (at c rest map) ≡ (ok tt, at c rest (copy_at map i (color ∷ [])))
  unfolding set_color
  set_color_lem c i color rest map h = rw (low, lt→ltb i 256 h)
    where
      low : u16 i ≡ i
      low = omega arith

  read_entries_lem :
      (c : ClientConn I) (first i : ℕ) (colors : List Color) (rest : List ℕ) (map : List Color)
      → first + i + length colors ≤ 256
      → read_entries (length colors) first i (at c (color_bytes colors ++ rest) map)
        ≡ (ok colors, at c rest (copy_at map (first + i) colors))
  unfolding read_entries
  read_entries_lem c first i [] rest map h = rw (copy_at-nil map (first + i))
  read_entries_lem c first i (color ∷ colors) rest map h =
      rw (read_entry_lem c color (color_bytes colors ++ rest) map) (
        rw (set_color_lem c (first + i) color (color_bytes colors ++ rest) map (omega arith)) (
          rw
            (read_entries_lem c first (i + 1) colors rest (copy_at map (first + i) (color ∷ []))
              (omega arith))
            (ap (λ m. (ok (color ∷ colors), at c rest m)) joined)))
    where
      behind : first + (i + 1) ≡ first + i + 1
      behind = omega arith

      joined :
          copy_at (copy_at map (first + i) (color ∷ [])) (first + (i + 1)) colors
          ≡ copy_at map (first + i) (color ∷ colors)
      joined = rw behind (copy_at-append map (first + i) (color ∷ []) colors)

  -- In a message with one byte for each component, the server sets a run of the colour map that stays inside its 256 entries: the message is read
  -- without an error, nothing behind it is taken, and the connection's map holds the new colours
  -- from the first one on; nothing else of the connection changes.
  pub set_color_map_entries_read_lem :
      (c : ClientConn I) (first : ℕ) (colors : List Color) (padding : ℕ) (rest : List ℕ)
      → first < 256
      → first + length colors ≤ 256
      → c.input ≡ padding ∷ (be16 first ++ (be16 (length colors) ++ (color_bytes colors ++ rest)))
      → set_color_map_entries_read c ≡ (
        ok (set_color_map_entries first colors),
        record c { input = rest; color_map = copy_at c.color_map first colors },
      )
  unfolding set_color_map_entries_read
  set_color_map_entries_read_lem c first colors padding rest h fits e = rw e (
      rw (read_full-append (padding ∷ []) _ (omega arith)) (
        rw (read_u16-be16 first _ (omega arith)) (
          rw (read_u16-be16 (length colors) _ (omega arith)) (
            rw (read_entries_lem c first 0 colors rest c.color_map (omega arith)) (
              ap
                (λ n. (
                  ok (set_color_map_entries first colors),
                  at c rest (copy_at c.color_map n colors),
                ))
                (zero_right first))))))
    where
      zero_right : (n : ℕ) → n + 0 ≡ n
      zero_right n = omega arith
