-- ===== src/Layout/Drop.antt =====
-- src/workspace/layout.c: `leme_layout_drop_at`, where a dragged window would go, and
-- `leme_layout_resize_edges`. The two modes are the only values of the type.
pub mod Halves
use leme.Base.{ℕ, ◌+◌, if◌then◌else◌, Bool, true, false, Option, none, some, ◌||◌, not, leb}
use leme.Base.Int.{ℤ, pos, ◌+ℤ◌, ◌-ℤ◌, half, ltb_ℤ}
use leme.Base.Floats.{Floats}
use leme.Box.{Box}
use leme.Layout.Direction.{Direction}

pub data DropMode : Type 0 where
  simple edges : DropMode

pub record Drop : Type 0 where
  pub direction : Direction
  pub box : Box

-- The box of the half on the side of the direction.
unfoldable pub half_box : Box → Direction → Box
half_box content Direction.left = record content { width = half content.width }
half_box content Direction.right = record content {
  x = content.x +ℤ half content.width;
  width = content.width -ℤ half content.width;
}
half_box content Direction.up = record content { height = half content.height }
half_box content Direction.down = record content {
  y = content.y +ℤ half content.height;
  height = content.height -ℤ half content.height;
}

module _ (R : Floats) where
  open R use {F, of_int, add, sub, div, lt}

  unfoldable pub fabs : F → F
  fabs d = if lt d (of_int (pos 0)) then sub (of_int (pos 0)) d else d

  unfoldable pub halved : ℤ → F
  halved n = div (of_int n) (of_int (pos 2))

  unfoldable pub simple_direction : Box → F → F → Direction
  simple_direction content px py =
      if not (ltb_ℤ content.width content.height)
      then (if lt px (add (of_int content.x) (halved content.width))
          then Direction.left
          else Direction.right)
      else if lt py (add (of_int content.y) (halved content.height))
      then Direction.up
      else Direction.down

  -- One round of the loop over `distances`: the index of the best with its distance.
  unfoldable pub better : Direction × F → Direction × F → Direction × F
  better (best, d) (next, e) = if lt e d then (next, e) else (best, d)

  unfoldable pub edge_distance : Box → F → F → Direction → F
  edge_distance content px py Direction.left = fabs (sub px (of_int content.x))
  edge_distance content px py Direction.right =
      fabs (sub px (add (of_int content.x) (of_int content.width)))
  edge_distance content px py Direction.up = fabs (sub py (of_int content.y))
  edge_distance content px py Direction.down =
      fabs (sub py (add (of_int content.y) (of_int content.height)))

  unfoldable pub nearest_edge : Box → F → F → Direction × F
  nearest_edge content px py =
      let distance = edge_distance content px py in
      better
        (better
          (better (Direction.left, distance Direction.left)
            (Direction.right, distance Direction.right))
          (Direction.up, distance Direction.up))
        (Direction.down, distance Direction.down)

  unfoldable pub drop_direction : DropMode → Box → F → F → Direction
  drop_direction simple content px py = simple_direction content px py
  drop_direction edges content px py = (nearest_edge content px py).0

  -- `none` where the source returns false.
  unfoldable pub drop_at : DropMode → Box → F → F → Option Drop
  drop_at mode content px py =
      let direction = drop_direction mode content px py in
      if ltb_ℤ content.width (pos 1) || ltb_ℤ content.height (pos 1)
      then none
      else some (record { direction = direction; box = half_box content direction })

  -- The bits of `enum leme_grab_edge`: left 4, right 8, top 1, bottom 2.
  unfoldable pub resize_edges : Box → F → F → ℕ
  resize_edges box cursor_x cursor_y =
      (if lt cursor_x (halved box.width) then 4 else 8)
      + (if lt cursor_y (halved box.height) then 1 else 2)
