-- ===== src/Layout/Geometry.antt =====
-- src/workspace/layout.c: moving and resizing the box of a floating window, with saturation. Edges are
-- the bits of `enum leme_grab_edge`.
pub mod Bounds
use leme.Base.{ℕ, ◌||◌, ◌&&◌, not, if◌then◌else◌, Bool, true, false}
use leme.Base.Int.{ℤ, pos, ◌+ℤ◌, ◌-ℤ◌, ltb_ℤ, int_max, int_min}
use leme.Box.{Box}
use leme.Layout.Direction.{Direction}
use leme.Layout.Direction
use leme.Layout.Drag.{edges_valid, has_top, has_bottom, has_left, has_right}

unfoldable pub saturate_int : ℤ → ℤ
saturate_int v = if ltb_ℤ v int_min then int_min else if ltb_ℤ int_max v then int_max else v

unfoldable pub saturate_origin : ℤ → ℤ → ℤ
saturate_origin v extent =
    let limit = int_max -ℤ (if ltb_ℤ (pos 0) extent then extent else pos 0) in
    if ltb_ℤ v int_min then int_min else if ltb_ℤ limit v then limit else v

unfoldable pub saturate_dimension : ℤ → ℤ
saturate_dimension v = if ltb_ℤ v (pos 1) then pos 1 else if ltb_ℤ int_max v then int_max else v

unfoldable pub saturate_box : Box → Box
saturate_box box = record box {
  x = saturate_origin box.x box.width;
  y = saturate_origin box.y box.height;
}

unfoldable pub move_by : Box → Direction → ℤ → Box
move_by box Direction.left amount = record box { x = saturate_origin (box.x -ℤ amount) box.width }
move_by box Direction.right amount = record box { x = saturate_origin (box.x +ℤ amount) box.width }
move_by box Direction.up amount = record box { y = saturate_origin (box.y -ℤ amount) box.height }
move_by box Direction.down amount = record box { y = saturate_origin (box.y +ℤ amount) box.height }

unfoldable pub move_box : Box → Direction → ℤ → Box
move_box box direction amount = if ltb_ℤ (pos 0) amount then move_by box direction amount else box

-- One axis of a resize: the new position and extent, where the edge at the low (high) end moves.
unfoldable pub resize_axis : Bool → Bool → ℤ → ℤ → ℤ → ℤ × ℤ
resize_axis low high position extent delta =
    let stop = position +ℤ extent in
    let moved = stop -ℤ (position +ℤ delta) in
    let grown = extent +ℤ delta in
    if low
    then (if ltb_ℤ moved (pos 1) then (stop -ℤ pos 1, pos 1) else (position +ℤ delta, moved))
    else if high
    then (position, if ltb_ℤ grown (pos 1) then pos 1 else grown)
    else (position, extent)

unfoldable pub resize_box : Box → ℕ → ℤ → ℤ → Box
resize_box box edges dx dy =
    let (x, width) = resize_axis (has_left edges) (has_right edges) box.x box.width dx in
    let (y, height) = resize_axis (has_top edges) (has_bottom edges) box.y box.height dy in
    let w = saturate_dimension width in
    let h = saturate_dimension height in
    if edges_valid edges
    then record { x = saturate_origin x w; y = saturate_origin y h; width = w; height = h }
    else box
