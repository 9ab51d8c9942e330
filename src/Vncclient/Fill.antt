-- ===== src/Vncclient/Fill.antt =====
-- The two fill loops of vncclient/encoding.go. What they compute is in Vncclient/Fill/Laws.
pub mod Laws
use go_vncdriver.Common.{
  ℕ, zero, suc, ◌+◌, ◌*◌, List, [], ◌∷◌, ltb, if◌then◌else◌, length, take, drop, map, copy_at,
}
use go_vncdriver.Common.Exec.{
  Result, ok, err, panic, stuck, index_out_of_range, slice_out_of_range, bind,
}

module _ {ℓ} {A : Type ℓ} where
  -- `for bp := 1; bp < len(dst); { copy(dst[bp:], dst[:bp]); bp *= 2 }`
  unfoldable pub fill_doubling : ℕ → ℕ → List A → Result (List A)
  fill_doubling zero bp dst = stuck
  fill_doubling (suc fuel) bp dst =
      let rest = fill_doubling fuel (bp * 2) (copy_at dst bp (take bp dst)) in
      if ltb bp (length dst) then rest else ok dst

  unfoldable pub fill_color : List A → A → Result (List A)
  unfolding fill_doubling
  fill_color [] v = panic index_out_of_range
  fill_color (d ∷ ds) v = fill_doubling (length (d ∷ ds)) 1 (v ∷ ds)

  unfoldable pub fill_color2 : List A → A → List A
  fill_color2 dst v = map (λ _. v) dst

  -- `mem[pos:pos+count]`: a slice may reach into the capacity behind its length.
  unfoldable pub slice : List A → ℕ → ℕ → Result (List A)
  slice mem pos count =
      if ltb (length mem) (pos + count)
      then panic slice_out_of_range
      else ok (take count (drop pos mem))

  -- `fillColor(mem[pos:pos+count], v)` and `fillColor2(…)`, on the backing array `mem`.
  unfoldable pub fill_run : List A → ℕ → ℕ → A → Result (List A)
  unfolding slice fill_color
  fill_run mem pos count v =
      bind (slice mem pos count)
        λ dst. bind (fill_color dst v) λ filled. ok (copy_at mem pos filled)

  unfoldable pub fill_run2 : List A → ℕ → ℕ → A → Result (List A)
  unfolding slice fill_color2
  fill_run2 mem pos count v =
      bind (slice mem pos count) λ dst. ok (copy_at mem pos (fill_color2 dst v))
