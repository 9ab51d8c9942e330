-- ===== src/Vncclient/ServerMessages/Total.antt =====
-- The readers of vncclient/server_messages.go always end.
use go_vncdriver.Common.{
  ℕ, zero, suc, ◌+◌, Bool, true, false, List, ltb, ◌==◌, if◌then◌else◌, Bool-cases, inl, inr,
  length,
}
use go_vncdriver.Common.Exec.{Exec, Result}
use go_vncdriver.Common.Total.{IsFinished, IsTotal, IsTotal-bind, IsTotal-pure}
use go_vncdriver.Vncclient.Color.{Color}
use go_vncdriver.Vncclient.Wire.{read_full, read_number, read_u8, read_u16, read_u32}
use go_vncdriver.Vncclient.Client.{on_input}
use go_vncdriver.Vncclient.ServerMessages.{
  set_color, read_entry, read_entries, set_color_map_entries_read, server_cut_text_read,
}

pub IsFinished-if :
    {A : Type 0} (b : Bool) (r q : Result A)
    → IsFinished r
    → IsFinished q
    → IsFinished (if b then r else q)
IsFinished-if true r q h k = h
IsFinished-if false r q h k = k

pub read_full-IsTotal : (n : ℕ) → IsTotal (read_full n)
unfolding read_full
read_full-IsTotal n = record { finished = λ bs. ends bs }
  where
    ends : (bs : List ℕ) → IsFinished (read_full n bs).0
    ends bs = elim (Bool-cases (n == 0)) [
      | inl e ↦ rw e tt
      | inr e ↦ elim (Bool-cases (length bs == 0)) [
        | inl f ↦ rw (e, f) tt
        | inr f ↦ elim (Bool-cases (ltb (length bs) n)) [
          | inl g ↦ rw (e, f) (rw g tt)
          | inr g ↦ rw (e, f) (rw g tt)
        ]
      ]
    ]

pub read_number-IsTotal : (n : ℕ) → IsTotal (read_number n)
unfolding read_number
read_number-IsTotal n = IsTotal-bind (read_full n) _ (read_full-IsTotal n) λ bs. IsTotal-pure _

module _ {I : Type 0} where
  pub on_input-IsTotal :
      {A : Type 0} (m : Exec (List ℕ) A) → IsTotal m → IsTotal (on_input {I = I} m)
  on_input-IsTotal m h = record { finished = λ c. h.finished c.input }

  pub bytes-IsTotal : (n : ℕ) → IsTotal (on_input {I = I} (read_full n))
  bytes-IsTotal n = on_input-IsTotal (read_full n) (read_full-IsTotal n)

  pub number-IsTotal : (n : ℕ) → IsTotal (on_input {I = I} (read_number n))
  number-IsTotal n = on_input-IsTotal (read_number n) (read_number-IsTotal n)

  set_color-IsTotal : (i : ℕ) (color : Color) → IsTotal (set_color {I = I} i color)
  unfolding set_color
  set_color-IsTotal i color = record {
    finished = λ c. elim (Bool-cases (ltb i 256)) [ inl e ↦ rw e tt | inr e ↦ rw e tt ];
  }

  read_entry-IsTotal : IsTotal (read_entry {I = I})
  unfolding read_entry
  read_entry-IsTotal = IsTotal-bind (on_input read_u8) _ (number-IsTotal 1) λ r.
      IsTotal-bind (on_input read_u8) _ (number-IsTotal 1)
        λ g. IsTotal-bind (on_input read_u8) _ (number-IsTotal 1) λ b. IsTotal-pure _

  read_entries-IsTotal : (k first i : ℕ) → IsTotal (read_entries {I = I} k first i)
  unfolding read_entries
  read_entries-IsTotal zero first i = IsTotal-pure _
  read_entries-IsTotal (suc k) first i = IsTotal-bind read_entry _ read_entry-IsTotal λ color.
      IsTotal-bind (set_color _ color) _ (set_color-IsTotal _ color) λ _.
        IsTotal-bind (read_entries k first (i + 1)) _ (read_entries-IsTotal k first (i + 1))
          λ cs. IsTotal-pure _

  pub set_color_map_entries_read-IsTotal : IsTotal (set_color_map_entries_read {I = I})
  unfolding set_color_map_entries_read
  set_color_map_entries_read-IsTotal =
      IsTotal-bind (on_input (read_full 1)) _ (bytes-IsTotal 1) λ _.
        IsTotal-bind (on_input read_u16) _ (number-IsTotal 2) λ first.
          IsTotal-bind (on_input read_u16) _ (number-IsTotal 2) λ count.
            IsTotal-bind (read_entries count first 0) _ (read_entries-IsTotal count first 0)
              λ cs. IsTotal-pure _

  pub server_cut_text_read-IsTotal : IsTotal (server_cut_text_read {I = I})
  unfolding server_cut_text_read
  server_cut_text_read-IsTotal = IsTotal-bind (on_input (read_full 3)) _ (bytes-IsTotal 3) λ _.
      IsTotal-bind (on_input read_u32) _ (number-IsTotal 4)
        λ n. IsTotal-bind (on_input (read_full n)) _ (bytes-IsTotal n) λ text. IsTotal-pure _
