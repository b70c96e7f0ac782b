-- ===== src/Layout/Resize.antt =====
-- src/workspace/layout.c: `leme_layout_resize_focused`, and `leme_layout_clamp_ratio`.
-- The walk along `parent` goes through the frames; a drag keeps the addresses of the two inner
-- nodes that it moves.
pub mod Ratio
use leme.Base.{
  ℕ, ◌==◌, ◌&&◌, ◌||◌, not, if◌then◌else◌, Bool, true, false, Option, none, some, List, [], ◌∷◌,
}
use leme.Base.Int.{ℤ, pos, ltb_ℤ}
use leme.Base.Floats.{Floats}
use leme.Layout.View.{View, null}
use leme.Layout.Node.{
  Split, horizontal, vertical, Branch, Node, leaf, branch, Frame, in_first, in_second, Found, plug,
  find,
}
use leme.Layout.Detach.{frame_branch, is_first}

-- enum leme_resize_edge
pub data Edge : Type 0 where
  left right up down : Edge

unfoldable pub edge_split : Edge → Split
edge_split left = horizontal
edge_split right = horizontal
edge_split up = vertical
edge_split down = vertical

unfoldable pub needs_first : Edge → Bool
needs_first left = false
needs_first right = true
needs_first up = false
needs_first down = true

unfoldable pub same_split : Split → Split → Bool
same_split horizontal horizontal = true
same_split vertical vertical = true
same_split _ _ = false

unfoldable pub same_side : Bool → Bool → Bool
same_side true b = b
same_side false b = not b

unfoldable pub set_frame_ratio : {F : Type 0} → F → Frame F → Frame F
set_frame_ratio r (in_first b other) = in_first (record b { ratio = r }) other
set_frame_ratio r (in_second b other) = in_second (record b { ratio = r }) other

module _ (R : Floats) where
  open R use {F, of_int, add, sub, mul, div, lt, tenth, nine_tenths}

  unfoldable pub clamp_ratio : F → F
  clamp_ratio r = if lt r tenth then tenth else if lt nine_tenths r then nine_tenths else r

  -- `direction * (double)delta / axis_length`, with a direction of 1.0 or -1.0.
  unfoldable pub shifted : Bool → F → ℤ → ℤ → F
  shifted toward_first ratio delta length =
      let step = div (of_int delta) (of_int length) in
      if toward_first then add ratio step else sub ratio step

  -- Whether the walk stops at this parent.
  unfoldable pub stops_at : Edge → Frame F → Bool
  stops_at edge f =
      same_split (frame_branch f).split (edge_split edge)
      && same_side (is_first f) (needs_first edge)
      && ltb_ℤ (pos 0) (frame_branch f).axis_length

  unfoldable pub resize_frame : Edge → ℤ → Frame F → Frame F
  resize_frame edge delta f =
      set_frame_ratio
        (clamp_ratio
          (shifted (needs_first edge) (frame_branch f).ratio delta (frame_branch f).axis_length))
        f

  -- `none` where no parent qualifies.
  unfoldable pub resize_walk : Edge → ℤ → List (Frame F) → Option (List (Frame F))
  resize_walk edge delta [] = none
  resize_walk edge delta (f ∷ above) =
      let rest = resize_walk edge delta above in
      if stops_at edge f
      then some (resize_frame edge delta f ∷ above)
      else elim rest [ some above' ↦ some (f ∷ above') | none ↦ none ]

  unfoldable pub resize_found : Edge → ℤ → Option (Node F) → Found F → Option (Node F) × Bool
  resize_found edge delta root f = elim (resize_walk edge delta f.parents) [
    | some parents ↦ (some (plug parents (leaf f.address f.view)), true)
    | none ↦ (root, false)
  ]

  -- `leme_layout_resize_focused`: the tree after the call and the value returned.
  unfoldable pub resize_focused : Option (Node F) → View → Edge → ℤ → Option (Node F) × Bool
  resize_focused root focused edge delta = elim (find root focused) [
    | none ↦ (root, false)
    | some f ↦ if ltb_ℤ (pos 0) delta then resize_found edge delta root f else (root, false)
  ]
