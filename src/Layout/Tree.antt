-- ===== src/Layout/Tree.antt =====
-- src/workspace/layout.c: `leme_layout_insert`, `leme_layout_remove`, `leme_layout_neighbor` and
-- `leme_layout_swap_views`. What `calloc` returns is an argument, `none` where it fails.
pub mod Order
use leme.Base.{
  ℕ, ◌+◌, ◌==◌, ◌%◌, ◌||◌, if◌then◌else◌, Bool, true, false, Option, none, some, List, [], ◌∷◌,
}
use leme.Base.Int.{ℤ, pos}
use leme.Layout.View.{View}
use leme.Layout.Node.{
  Split, horizontal, vertical, Branch, Node, leaf, branch, Frame, Found, plug, sibling, find,
  first_from, depth,
}

module _ {F : Type 0} where
  unfoldable pub new_leaf : Option ℕ → View → Option (Node F)
  new_leaf none v = none
  new_leaf (some a) v = some (leaf a v)

  -- The leaf that an insertion splits: the focused one, or the first.
  unfoldable pub split_target : Node F → View → Found F
  split_target root focused = elim (find (some root) focused) [
    | some f ↦ f
    | none ↦ first_from [] root
  ]

  -- Both leaves were allocated: the old leaf turns into an inner node with the two below it.
  unfoldable pub split_leaf : F → Found F → Option (Node F) → Option (Node F) → Option (Node F)
  split_leaf half old (some retained) (some added) =
      some (plug old.parents (branch b retained added))
    where
      b : Branch F
      b = record {
        address = old.address;
        split = if depth old.parents % 2 == 0 then horizontal else vertical;
        ratio = half;
        axis_length = pos 0;
      }
  split_leaf half old _ _ = none

  unfoldable pub or_else : Option (Node F) → Node F → Option (Node F)
  or_else none root = some root
  or_else (some n) root = some n

  unfoldable pub insert : F → Option (Node F) → View → View → Option ℕ → Option ℕ → Option (Node F)
  insert half none focused added a b = new_leaf a added
  insert half (some root) focused added a b =
      let old = split_target root focused in
      or_else (split_leaf half old (new_leaf a old.view) (new_leaf b added)) root

  -- The parents of the leaf say what takes its place.
  unfoldable pub unlink : List (Frame F) → Option (Node F)
  unlink [] = none
  unlink (f ∷ up) = some (plug up (sibling f))

  unfoldable pub remove : Option (Node F) → View → Option (Node F)
  remove root removed = elim (find root removed) [ none ↦ root | some f ↦ unlink f.parents ]
