-- ===== src/Layout/Neighbor.antt =====
-- src/workspace/layout.c: `leme_layout_neighbor`, the window that gets the focus next.
pub mod Cyclic
use leme.Base.{
  ℕ, ◌==◌, ◌||◌, not, if◌then◌else◌, Bool, true, false, Option, none, some, List, [], ◌∷◌,
}
use leme.Layout.View.{View, null}
use leme.Layout.Node.{Node, leaf, branch}

module _ {F : Type 0} where
  -- The flag is `*found`, before and after the call.
  unfoldable pub find_neighbor : Node F → View → Bool → View × Bool
  find_neighbor (leaf a w) view found = if found then (w, true) else (null, w == view)
  find_neighbor (branch b l r) view found =
      let (neighbor, found') = find_neighbor l view found in
      let in_right = find_neighbor r view found' in
      if not (neighbor == null) then (neighbor, found') else in_right

  unfoldable pub first_view : Node F → View
  first_view (leaf a w) = w
  first_view (branch b l r) = first_view l

  unfoldable pub neighbor : Option (Node F) → View → View
  neighbor none view = null
  neighbor (some root) view =
      let (next, found) = find_neighbor root view false in
      if view == null
      then null
      else if not (next == null) || not found
      then next
      else first_view root
