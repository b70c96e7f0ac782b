-- ===== src/Layout/Drop/Halves.antt =====
-- src/workspace/layout.c: the half that `leme_layout_drop_at` shows and the
-- corner that `leme_layout_resize_edges` picks.
use leme.Base.{true, some, ◌≡◌, refl, arith}
use leme.Base.Int.{pos, le→ltb_ℤ, int_laws}
use leme.Base.Floats.{Floats}
use leme.Box.{Box, HasArea, Within}
use leme.Layout.Direction.{Direction}
use leme.Layout.Drag.{edges_valid, has_top, has_bottom, has_left, has_right}
use leme.Layout.Drop.{DropMode, Drop, half_box, drop_direction, drop_at, resize_edges}

half_box-Within :
    (content : Box) (d : Direction) → HasArea content → Within (half_box content d) content
unfolding half_box
half_box-Within content Direction.left h = omega int_laws
half_box-Within content Direction.right h = omega int_laws
half_box-Within content Direction.up h = omega int_laws
half_box-Within content Direction.down h = omega int_laws

-- A drop over a window that has a pixel each way succeeds in either mode, and the box that it shows
-- lies within that window.
pub drop_at-Within :
    (R : Floats) (mode : DropMode) (content : Box) (px py : R.F)
    → HasArea content
    → (drop : Drop) × (drop_at R mode content px py ≡ some drop) × Within drop.box content
unfolding drop_at
drop_at-Within R mode content px py h =
    let direction = drop_direction R mode content px py in
    let drop : Drop = record { direction = direction; box = half_box content direction } in
    (
      drop,
      rw (le→ltb_ℤ content.width (pos 1) h.wide, le→ltb_ℤ content.height (pos 1) h.high) refl,
      half_box-Within content direction h,
    )

-- The corner that is picked for a pointer is a valid set of edges.
pub resize_edges_valid :
    (R : Floats) (box : Box) (cursor_x cursor_y : R.F)
    → edges_valid (resize_edges R box cursor_x cursor_y) ≡ true
unfolding resize_edges edges_valid has_top has_bottom has_left has_right
resize_edges_valid R box cursor_x cursor_y = ground arith
