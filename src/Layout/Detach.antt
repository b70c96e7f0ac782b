-- ===== src/Layout/Detach.antt =====
-- src/workspace/layout.c: a window is taken out of the tree for a drag, and put back or elsewhere.
-- A `Detach` keeps pointers: the sibling and the grandparent are compared and written through by
-- their addresses. The removed inner node keeps its fields, and its child pointers still name the
-- leaf and the sibling.
pub mod Restore
pub mod Move
use leme.Base.{
  ℕ, ◌==◌, ◌&&◌, ◌||◌, not, if◌then◌else◌, Bool, true, false, Option, none, some, List, [], ◌∷◌,
}
use leme.Base.Int.{ℤ, pos}
use leme.Layout.View.{View, null}
use leme.Layout.Direction.{Direction}
use leme.Layout.Direction
use leme.Layout.Node.{
  Split, horizontal, vertical, Branch, Node, leaf, branch, Frame, in_first, in_second, Found,
  node_address, plug, sibling, find_from, find,
}

-- `first` says whether the leaf was the first child of the inner node.
pub record DetachedBranch (F : Type 0) : Type 0 where
  pub fields : Branch F
  pub leaf_is_first : Bool
  pub sibling_address : ℕ
  pub grandparent : Option ℕ
  pub branch_was_first : Bool

pub record Detach (F : Type 0) : Type 0 where
  pub leaf_address : ℕ
  pub leaf_view : View
  pub branch_part : Option (DetachedBranch F)

unfoldable pub direction_split : Direction → Split
direction_split Direction.left = horizontal
direction_split Direction.right = horizontal
direction_split Direction.up = vertical
direction_split Direction.down = vertical

unfoldable pub dragged_first : Direction → Bool
dragged_first Direction.left = true
dragged_first Direction.right = false
dragged_first Direction.up = true
dragged_first Direction.down = false

module _ {F : Type 0} where
  unfoldable pub frame_branch : Frame F → Branch F
  frame_branch (in_first b other) = b
  frame_branch (in_second b other) = b

  unfoldable pub is_first : Frame F → Bool
  is_first (in_first b other) = true
  is_first (in_second b other) = false

  unfoldable pub grandparent_of : List (Frame F) → Option ℕ
  grandparent_of [] = none
  grandparent_of (g ∷ above) = some (frame_branch g).address

  unfoldable pub was_first : List (Frame F) → Bool
  was_first [] = false
  was_first (g ∷ above) = is_first g

  unfoldable pub detach_found : Found F → List (Frame F) → Option (Node F) × Detach F
  detach_found f [] =
      (none, record { leaf_address = f.address; leaf_view = f.view; branch_part = none })
  detach_found f (p ∷ above) = (
    some (plug above (sibling p)),
    record {
      leaf_address = f.address;
      leaf_view = f.view;
      branch_part = some (record {
        fields = frame_branch p;
        leaf_is_first = is_first p;
        sibling_address = node_address (sibling p);
        grandparent = grandparent_of above;
        branch_was_first = was_first above;
      });
    },
  )

  -- `leme_layout_detach_view`, with the new root; the flag is whether `calloc` succeeds.
  unfoldable pub detach_view : Option (Node F) → View → Bool → Option (Node F) × Option (Detach F)
  detach_view root view memory =
      if view == null || not memory then (root, none) else elim (find root view) [
        | none ↦ (root, none)
        | some f ↦ let (root', d) = detach_found f f.parents in (root', some d)
      ]

  -- The inner node with its two children again.
  unfoldable pub rejoin : Detach F → DetachedBranch F → Node F → Node F
  rejoin d b other =
      if b.leaf_is_first
      then branch b.fields (leaf d.leaf_address d.leaf_view) other
      else branch b.fields other (leaf d.leaf_address d.leaf_view)

  -- Writes `make` of the child over the child of the node at `target`, if the child in that slot
  -- has the address `expected`; `none` where no such slot is found.
  unfoldable pub write_slot : ℕ → Bool → ℕ → (Node F → Node F) → Node F → Option (Node F)
  write_slot target first expected make (leaf a v) = none
  write_slot target first expected make (branch b l r) =
      let in_left = write_slot target first expected make l in
      let in_right = write_slot target first expected make r in
      if b.address == target
      then (if first
          then (if node_address l == expected then some (branch b (make l) r) else none)
          else if node_address r == expected
          then some (branch b l (make r))
          else none)
      else elim in_left [
        | some l' ↦ some (branch b l' r)
        | none ↦ elim in_right [ some r' ↦ some (branch b l r') | none ↦ none ]
      ]

  -- With no grandparent the slot is the root.
  unfoldable pub restore_at : Detach F → DetachedBranch F → Option ℕ → Node F → Option (Node F)
  restore_at d b none root =
      if node_address root == b.sibling_address then some (rejoin d b root) else none
  restore_at d b (some g) root = write_slot g b.branch_was_first b.sibling_address (rejoin d b) root

  unfoldable pub restore_root :
      Detach F → Option (DetachedBranch F) → Option (Node F) → Option (Node F)
  restore_root d none none = some (leaf d.leaf_address d.leaf_view)
  restore_root d none (some root) = none
  restore_root d (some b) none = none
  restore_root d (some b) (some root) = restore_at d b b.grandparent root

  -- `leme_layout_restore_view`: `none` where it returns false and changes nothing.
  unfoldable pub restore_view : Option (Node F) → Detach F → Option (Node F)
  restore_view root d = restore_root d d.branch_part root

  -- The inner node to use: the one that was detached, or a new one.
  unfoldable pub branch_address : Detach F → Option ℕ → Option ℕ
  branch_address d memory = elim d.branch_part [ some b ↦ some b.fields.address | none ↦ memory ]

  unfoldable pub join_beside : F → Detach F → Found F → Direction → ℕ → Node F
  join_beside half d target direction address =
      let b : Branch F = record {
        address = address;
        split = direction_split direction;
        ratio = half;
        axis_length = pos 0;
      } in
      let dragged = leaf d.leaf_address d.leaf_view in
      let other = leaf target.address target.view in
      plug target.parents
        (if dragged_first direction then branch b dragged other else branch b other dragged)

  -- `leme_layout_insert_detached`: `none` where it returns false and changes nothing. `memory` is
  -- what `calloc` returns where the detached leaf was alone.
  unfoldable pub insert_detached :
      F → Option (Node F) → Detach F → View → Direction → Option ℕ → Option (Node F)
  insert_detached half root d target direction memory =
      if target == null then none else elim (find root target) [
        | none ↦ none
        | some t ↦ if t.address == d.leaf_address then none else elim (branch_address d memory) [
          | none ↦ none
          | some address ↦ some (join_beside half d t direction address)
        ]
      ]
