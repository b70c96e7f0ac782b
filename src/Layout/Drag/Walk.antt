-- ===== src/Layout/Drag/Walk.antt =====
-- src/workspace/layout.c: the walk of `leme_layout_resize_drag_begin`, and for each axis a search for
-- the innermost border.
use leme.Base.{
  ℕ, ◌==◌, ◌&&◌, ◌/◌, ◌%◌, if◌then◌else◌, Bool, true, false, Option, none, some, List, [], ◌∷◌, ◌⊎◌,
  ◌≡◌, ◌≢◌, arith,
}
use leme.Base.Int.{pos, ltb_ℤ}
use leme.Layout.View.{View, null}
use leme.Layout.Node.{Split, horizontal, vertical, Node, Frame, in_first, in_second, Found, find}
use leme.Layout.Detach.{frame_branch, is_first}
use leme.Layout.Resize.{same_split}
use leme.Layout.Drag.{
  Drag, DragAxis, is_none, axis_of, horizontal_match, vertical_match, drag_step, drag_walk,
  empty_drag, edges_valid, has_top, has_bottom, has_left, has_right, drag_begin,
}

unfoldable pub first_of_two : {A : Type 0} → Option A → Option A → Option A
first_of_two (some a) o = some a
first_of_two none o = o

module _ {F : Type 0} where
  -- Whether the border between the two children of a laid out inner node, which is split this way, is
  -- the grabbed one: the view is in the first child and its far edge is grabbed, or in the second and
  -- its near edge is. The edges are top 1, bottom 2, left 4 and right 8.
  unfoldable pub grabbed : Split → ℕ → Frame F → Bool
  grabbed horizontal edges (in_first b other) = edges / 8 % 2 == 1
  grabbed horizontal edges (in_second b other) = edges / 4 % 2 == 1
  grabbed vertical edges (in_first b other) = edges / 2 % 2 == 1
  grabbed vertical edges (in_second b other) = edges % 2 == 1

  unfoldable pub borders : Split → ℕ → Frame F → Bool
  borders split edges f =
      same_split (frame_branch f).split split
      && (ltb_ℤ (pos 0) (frame_branch f).axis_length && grabbed split edges f)

  grabbed_horizontal :
      (edges : ℕ) (f : Frame F)
      → edges_valid edges ≡ true
      → horizontal_match edges f ≡ grabbed horizontal edges f
  unfolding horizontal_match grabbed is_first has_left has_right edges_valid
  grabbed_horizontal edges (in_first b other) v = ground (arith, v)
  grabbed_horizontal edges (in_second b other) v = ground (arith, v)

  grabbed_vertical :
      (edges : ℕ) (f : Frame F)
      → edges_valid edges ≡ true
      → vertical_match edges f ≡ grabbed vertical edges f
  unfolding vertical_match grabbed is_first has_top has_bottom edges_valid
  grabbed_vertical edges (in_first b other) v = ground (arith, v)
  grabbed_vertical edges (in_second b other) v = ground (arith, v)

  unfoldable pub innermost : (Frame F → Bool) → List (Frame F) → Option (DragAxis F)
  innermost test [] = none
  innermost test (f ∷ above) =
      if test f then some (axis_of (frame_branch f)) else innermost test above

  walk_from :
      (edges : ℕ) (above : List (Frame F)) (d : Drag F)
      → edges_valid edges ≡ true
      → ((drag_walk edges above d).horizontal_axis
          ≡ first_of_two d.horizontal_axis (innermost (borders horizontal edges) above))
        × ((drag_walk edges above d).vertical_axis
            ≡ first_of_two d.vertical_axis (innermost (borders vertical edges) above))
  unfolding drag_walk innermost first_of_two drag_step borders same_split is_none
  walk_from edges [] d v = ground arith
  walk_from edges (f ∷ above) d v = ground (
    arith,
    grabbed_horizontal edges f v,
    grabbed_vertical edges f v,
    walk_from edges above (drag_step edges f d) v,
  )

  -- For a view of the tree and a valid set of edges each axis of the drag is the innermost parent
  -- that is split along it, was laid out, and has the view in its first child where the right or bottom
  -- edge is grabbed and in its second where the left or top edge is, or absent if no parent is such.
  -- The call returns true, or the drag is empty and it returns false.
  pub drag_begin-innermost :
      (root : Node F) (v : View) (edges : ℕ) (f : Found F)
      → v ≢ null
      → edges_valid edges ≡ true
      → find (some root) v ≡ some f
      → ((drag_begin (some root) v edges).0.horizontal_axis
          ≡ innermost (borders horizontal edges) f.parents)
        × ((drag_begin (some root) v edges).0.vertical_axis
            ≡ innermost (borders vertical edges) f.parents)
        × (((drag_begin (some root) v edges).1 ≡ true)
            ⊎ (((drag_begin (some root) v edges).0 ≡ empty_drag)
                × ((drag_begin (some root) v edges).1 ≡ false)))
  unfolding drag_begin first_of_two empty_drag is_none
  drag_begin-innermost root v edges f present valid e =
      ground (arith, e, valid, walk_from edges f.parents empty_drag valid)
