-- ===== src/Layout/Columns/Column.antt =====
-- src/workspace/layout.c: the boxes of `leme_layout_arrange_column` along the column.
use native.Mathlib.Nat.{div-add-mod}
use leme.Base.{
  ℕ, ◌+◌, ◌-◌, ◌*◌, ◌/◌, ◌≤◌, ◌<◌, List, [], ◌∷◌, map, ◌≡◌, refl, subst, sym, arith, length,
}
use leme.Base.Int.{
  ℤ, pos, ◌+ℤ◌, ◌-ℤ◌, ◌*ℤ◌, ◌≤ℤ◌, div_by, eq_of_parts, int_laws, mul_suc, mul_zero, le→ltb_ℤ,
  pos_part, of_nonneg,
}
use leme.Box.{Box}
use leme.Layout.View.{View}
use leme.Layout.Columns.{column_height, column_box, column_from, column_available, arrange_column}

-- Positions and sizes along one axis: each part has a pixel and starts where the one before it
-- ends, plus the gap; the first starts at `start`, the last ends at `stop`.
pub data Chained (gap stop : ℤ) : ℤ → List (ℤ × ℤ) → Type 0 where
  last :
      {start p s : ℤ}
      → p ≡ start
      → pos 1 ≤ℤ s
      → p +ℤ s ≡ stop
      → Chained gap stop start ((p, s) ∷ [])
  more :
      {start p s : ℤ} {rest : List (ℤ × ℤ)}
      → p ≡ start
      → pos 1 ≤ℤ s
      → Chained gap stop (p +ℤ s +ℤ gap) rest
      → Chained gap stop start ((p, s) ∷ rest)

abbrev pub down_axis : View × Box → ℤ × ℤ
down_axis c = (c.1.y, c.1.height)

abbrev pub across_axis : View × Box → ℤ × ℤ
across_axis c = (c.1.x, c.1.width)

share_le : (n k i : ℕ) → 0 < k → i < k → i * (n / k) + n / k ≤ n
share_le n k i h j = grind (arith, div-add-mod n k)

share_pos : (n k : ℕ) → 0 < k → k ≤ n → 1 ≤ n / k
share_pos n k h j = grind (arith, div-add-mod n k)

module _ (count n : ℕ) (area : Box) (gap : ℤ) (enough : count ≤ n) where
  -- The offset before the box at an index.
  abbrev offset_at : ℕ → ℤ
  offset_at index = pos (index * (n / count))

  abbrev start_at : ℕ → ℤ
  start_at index = area.y +ℤ offset_at index +ℤ pos index *ℤ gap

  next_offset : (index : ℕ) → offset_at index +ℤ pos (n / count) ≡ offset_at (index + 1)
  next_offset index = eq_of_parts _ _ (omega int_laws)

  next_start : (index : ℕ) → start_at index +ℤ pos (n / count) +ℤ gap ≡ start_at (index + 1)
  next_start index = rw (mul_suc index gap) (eq_of_parts _ _ (omega int_laws))

  height_last :
      (index : ℕ)
      → index + 1 ≡ count
      → column_height count (pos n) index (offset_at index) ≡ pos n -ℤ offset_at index
  unfolding column_height
  height_last index e = ground arith

  height_inner :
      (index : ℕ) (o : ℤ)
      → index + 1 < count
      → column_height count (pos n) index o ≡ pos (n / count)
  unfolding column_height div_by
  height_inner index o e = ground arith

  column_from-Chained :
      (index : ℕ) (o start : ℤ) (v : View) (vs : List View)
      → index + length (v ∷ vs) ≡ count
      → o ≡ offset_at index
      → start ≡ start_at index
      → Chained gap
          (area.y +ℤ pos n +ℤ pos (count - 1) *ℤ gap)
          start
          (map down_axis (column_from count (pos n) area gap index o (v ∷ vs)))
  unfolding column_from column_box
  column_from-Chained index o start v [] e p q =
      let size = share_le n count index (omega arith) (omega arith) in
      let some_share = share_pos n count (omega arith) enough in
      let final : count - 1 ≡ index = omega arith in
      rw (p, q, height_last index (omega arith), final)
        (last refl (omega int_laws) (eq_of_parts _ _ (omega int_laws)))
  column_from-Chained index o start v (w ∷ vs) e p q =
      let some_share = share_pos n count (omega arith) enough in
      let h = height_inner index o (omega arith) in
      more (rw p (sym q)) (rw h (omega arith)) (
        column_from-Chained (index + 1) _ _ w vs (omega arith) (rw (h, p) (next_offset index))
          (rw (h, p) (next_start index)))

column_available_fits :
    (count : ℕ) (area : Box) (gap : ℤ)
    → pos count +ℤ pos (count - 1) *ℤ gap ≤ℤ area.height
    → (n : ℕ) × (column_available count area gap ≡ pos n)
      × (pos count ≤ℤ pos n)
      × (area.y +ℤ pos n +ℤ pos (count - 1) *ℤ gap ≡ area.y +ℤ area.height)
unfolding column_available
column_available_fits count area gap h =
    let total = pos (count - 1) *ℤ gap in
    let n = pos_part (area.height -ℤ total) in
    let full : area.height -ℤ total ≡ pos n = of_nonneg _ (omega int_laws) in
    (
      n,
      rw (le→ltb_ℤ (area.height -ℤ total) (pos count) (omega int_laws)) full,
      subst (λ t. pos count ≤ℤ t) full (omega int_laws),
      subst (λ t. area.y +ℤ t +ℤ total ≡ area.y +ℤ area.height) full
          (eq_of_parts _ _ (omega int_laws)),
    )

-- A column with a pixel for each window: from top to bottom every window has a pixel, stands at
-- the gap's distance under the one before it, and the last ends where the area ends.
pub arrange_column-Chained :
    (v : View) (vs : List View) (area : Box) (gap : ℤ)
    → pos (length (v ∷ vs)) +ℤ pos (length (v ∷ vs) - 1) *ℤ gap ≤ℤ area.height
    → Chained gap (area.y +ℤ area.height) area.y (map down_axis (arrange_column (v ∷ vs) area gap))
unfolding arrange_column
arrange_column-Chained v vs area gap fits =
    let (n, e, enough, stop) = column_available_fits (length (v ∷ vs)) area gap fits in
    rw (e, sym stop)
      (column_from-Chained (length (v ∷ vs)) n area gap (omega arith) 0 (pos 0) area.y v vs
        (omega arith) (eq_of_parts _ _ (omega int_laws))
        (rw (mul_zero gap) (eq_of_parts _ _ (omega int_laws))))
