-- ===== src/Layout/Node.antt =====
-- src/workspace/layout.c and layout.h: the dwindle tree. A node has the address that `calloc` gave it;
-- a view is a pointer, 0 for NULL. A node and its chain of `parent` pointers are a `Found`: the
-- node with the frames above it, innermost first.
pub mod Leaves
use leme.Base.{ℕ, zero, suc, ◌+◌, ◌==◌, ◌%◌, if◌then◌else◌, Option, none, some, List, [], ◌∷◌, ◌++◌}
use leme.Layout.View.{View}
use leme.Base.Int.{ℤ, pos}

pub data Split : Type 0 where
  horizontal vertical : Split

-- The fields of an inner node apart from its children.
pub record Branch (F : Type 0) : Type 0 where
  pub address : ℕ
  pub split : Split
  pub ratio : F
  pub axis_length : ℤ

pub data Node (F : Type 0) : Type 0 where
  leaf : ℕ → View → Node F
  branch : Branch F → Node F → Node F → Node F

-- A parent of a node that is its first (second) child, with the other child.
pub data Frame (F : Type 0) : Type 0 where
  in_first : Branch F → Node F → Frame F
  in_second : Branch F → Node F → Frame F

-- A leaf with its `parent` chain.
pub record Found (F : Type 0) : Type 0 where
  pub address : ℕ
  pub view : View
  pub parents : List (Frame F)

module _ {F : Type 0} where
  unfoldable pub node_address : Node F → ℕ
  node_address (leaf a w) = a
  node_address (branch b l r) = b.address

  unfoldable pub plug_frame : Frame F → Node F → Node F
  plug_frame (in_first b other) n = branch b n other
  plug_frame (in_second b other) n = branch b other n

  -- The tree whose node below the frames is `n`.
  unfoldable pub plug : List (Frame F) → Node F → Node F
  unfolding plug_frame
  plug [] n = n
  plug (f ∷ up) n = plug up (plug_frame f n)

  unfoldable pub sibling : Frame F → Node F
  sibling (in_first b other) = other
  sibling (in_second b other) = other

  unfoldable pub find_from : List (Frame F) → Node F → View → Option (Found F)
  find_from up (leaf a w) v =
      if w == v then some (record { address = a; view = w; parents = up }) else none
  find_from up (branch b l r) v = elim (find_from (in_first b r ∷ up) l v) [
    | some f ↦ some f
    | none ↦ find_from (in_second b l ∷ up) r v
  ]

  -- `leme_layout_find`, on a tree that may be NULL.
  unfoldable pub find : Option (Node F) → View → Option (Found F)
  find none v = none
  find (some n) v = find_from [] n v

  unfoldable pub first_from : List (Frame F) → Node F → Found F
  first_from up (leaf a w) = record { address = a; view = w; parents = up }
  first_from up (branch b l r) = first_from (in_first b r ∷ up) l

  -- `leme_layout_depth`: the steps to the root.
  unfoldable pub depth : List (Frame F) → ℕ
  depth [] = 0
  depth (f ∷ up) = depth up + 1

  -- The views of a tree, in the order in which `arrange` meets them.
  unfoldable pub leaves : Node F → List View
  leaves (leaf a w) = w ∷ []
  leaves (branch b l r) = leaves l ++ leaves r

  unfoldable pub order : Option (Node F) → List View
  order none = []
  order (some n) = leaves n
