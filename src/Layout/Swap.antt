-- ===== src/Layout/Swap.antt =====
-- src/workspace/layout.c: `leme_layout_swap_views`.
pub mod Exchange
use leme.Base.{ℕ, ◌==◌, ◌||◌, if◌then◌else◌, Bool, true, false, Option, none, some}
use leme.Layout.View.{View, null}
use leme.Layout.Node.{Node, leaf, branch, Found, find}

module _ {F : Type 0} where
  -- A write to the view of the leaf at an address.
  unfoldable pub set_view : ℕ → View → Node F → Node F
  set_view address view (leaf a w) = leaf a (if a == address then view else w)
  set_view address view (branch b l r) =
      branch b (set_view address view l) (set_view address view r)

  unfoldable pub swap_found :
      Node F → View → View → Option (Found F) → Option (Found F) → Node F × Bool
  swap_found root first second (some f) (some g) =
      (set_view g.address first (set_view f.address second root), true)
  swap_found root first second _ _ = (root, false)

  unfoldable pub swap_views : Node F → View → View → Node F × Bool
  swap_views root first second =
      if first == null || second == null || first == second
      then (root, false)
      else swap_found root first second (find (some root) first) (find (some root) second)
