-- ===== src/Layout/Drag.antt =====
-- src/workspace/layout.c: `leme_layout_resize_drag_begin` and `leme_layout_resize_drag_update`.
pub mod Walk
pub mod Update
use leme.Base.{
  ℕ, ◌==◌, ◌&&◌, ◌||◌, ◌/◌, ◌%◌, not, ltb, if◌then◌else◌, Bool, true, false, Option, none, some,
  List, [], ◌∷◌,
}
use leme.Base.Int.{ℤ, pos, ltb_ℤ}
use leme.Base.Floats.{Floats}
use leme.Layout.View.{View, null}
use leme.Layout.Node.{
  Split, horizontal, vertical, Branch, Node, leaf, branch, Frame, in_first, in_second, Found, plug,
  find,
}
use leme.Layout.Detach.{frame_branch, is_first}
use leme.Layout.Resize.{same_split, clamp_ratio}

-- enum leme_grab_edge: a set of edges, one bit each.
unfoldable pub has_top : ℕ → Bool
has_top edges = edges % 2 == 1

unfoldable pub has_bottom : ℕ → Bool
has_bottom edges = edges / 2 % 2 == 1

unfoldable pub has_left : ℕ → Bool
has_left edges = edges / 4 % 2 == 1

unfoldable pub has_right : ℕ → Bool
has_right edges = edges / 8 % 2 == 1

-- Some edge, no other bit, and no two opposite edges.
unfoldable pub edges_valid : ℕ → Bool
edges_valid edges =
    not (edges == 0)
    && ltb edges 16
    && not (has_top edges && has_bottom edges)
    && not (has_left edges && has_right edges)

-- One axis of struct leme_layout_resize_drag.
pub record DragAxis (F : Type 0) : Type 0 where
  pub address : ℕ
  pub ratio : F
  pub length : ℤ

pub record Drag (F : Type 0) : Type 0 where
  pub horizontal_axis : Option (DragAxis F)
  pub vertical_axis : Option (DragAxis F)

unfoldable pub is_none : {A : Type 0} → Option A → Bool
is_none none = true
is_none (some a) = false

module _ {F : Type 0} where
  unfoldable pub empty_drag : Drag F
  empty_drag = record { horizontal_axis = none; vertical_axis = none }

  unfoldable pub axis_of : Branch F → DragAxis F
  axis_of b = record { address = b.address; ratio = b.ratio; length = b.axis_length }

  unfoldable pub horizontal_match : ℕ → Frame F → Bool
  horizontal_match edges f = has_left edges && not (is_first f) || has_right edges && is_first f

  unfoldable pub vertical_match : ℕ → Frame F → Bool
  vertical_match edges f = has_top edges && not (is_first f) || has_bottom edges && is_first f

  unfoldable pub drag_step : ℕ → Frame F → Drag F → Drag F
  drag_step edges f d =
      let b = frame_branch f in
      if ltb_ℤ (pos 0) b.axis_length
        && horizontal_match edges f
        && same_split b.split horizontal
        && is_none d.horizontal_axis
      then record d { horizontal_axis = some (axis_of b) }
      else if ltb_ℤ (pos 0) b.axis_length
          && vertical_match edges f
          && same_split b.split vertical
          && is_none d.vertical_axis
      then record d { vertical_axis = some (axis_of b) }
      else d

  unfoldable pub drag_walk : ℕ → List (Frame F) → Drag F → Drag F
  drag_walk edges [] d = d
  drag_walk edges (f ∷ above) d = drag_walk edges above (drag_step edges f d)

  -- The drag that the caller's struct holds after the call, and the value returned.
  unfoldable pub drag_begin : Option (Node F) → View → ℕ → Drag F × Bool
  drag_begin root view edges =
      if not (view == null) && edges_valid edges
      then elim (find root view) [
        | none ↦ (empty_drag, false)
        | some f ↦
            let d = drag_walk edges f.parents empty_drag in
            (d, not (is_none d.horizontal_axis) || not (is_none d.vertical_axis))
      ]
      else (empty_drag, false)

  unfoldable pub ratio_at : ℕ → Node F → Option F
  ratio_at address (leaf a v) = none
  ratio_at address (branch b l r) =
      let in_left = ratio_at address l in
      let in_right = ratio_at address r in
      if b.address == address
      then some b.ratio
      else elim in_left [ some x ↦ some x | none ↦ in_right ]

  unfoldable pub set_ratio : ℕ → F → Node F → Node F
  set_ratio address ratio (leaf a v) = leaf a v
  set_ratio address ratio (branch b l r) =
      branch (if b.address == address then record b { ratio = ratio } else b)
        (set_ratio address ratio l) (set_ratio address ratio r)

module _ (R : Floats) where
  open R use {F, of_int, add, div, eq}

  unfoldable pub dragged_ratio : DragAxis F → ℤ → F
  dragged_ratio axis delta =
      clamp_ratio R (add axis.ratio (div (of_int delta) (of_int axis.length)))

  unfoldable pub ratio_differs : Option F → F → Bool
  ratio_differs none ratio = false
  ratio_differs (some old) ratio = not (eq old ratio)

  -- One axis of the update. The node that the drag points at stands in the tree.
  unfoldable pub update_axis : Option (DragAxis F) → ℤ → Node F → Node F × Bool
  update_axis none delta root = (root, false)
  update_axis (some axis) delta root =
      if ltb_ℤ (pos 0) axis.length
      then (
        set_ratio axis.address (dragged_ratio axis delta) root,
        ratio_differs (ratio_at axis.address root) (dragged_ratio axis delta),
      )
      else (root, false)

  unfoldable pub drag_update : Drag F → ℤ → ℤ → Node F → Node F × Bool
  drag_update d dx dy root =
      let (root', changed) = update_axis d.horizontal_axis dx root in
      let (root'', changed') = update_axis d.vertical_axis dy root' in (root'', changed || changed')
