-- ===== src/Layout/Arrange.antt =====
-- src/workspace/layout.c: `leme_layout_arrange_node`. The calls of `apply` are the list of views with
-- their boxes, in the order of the calls; the tree comes back with the new `axis_length`s.
pub mod Fits
pub mod Boxes
use leme.Base.{if◌then◌else◌, Bool, true, false, not, Option, none, some, List, [], ◌∷◌, ◌++◌}
use leme.Base.Int.{ℤ, pos, ◌+ℤ◌, ◌-ℤ◌, ltb_ℤ}
use leme.Base.Floats.{Floats}
use leme.Box.{Box}
use leme.Layout.View.{View}
use leme.Layout.Node.{Split, horizontal, vertical, Branch, Node, leaf, branch}

-- What an inner node works out for the axis that it splits.
pub record Cut : Type 0 where
  pub available : ℤ
  pub first_size : ℤ
  pub second_offset : ℤ
  pub second_size : ℤ

-- The gap is dropped where it leaves no room.
unfoldable pub split_gap : ℤ → ℤ → ℤ
split_gap extent gap = if not (ltb_ℤ (extent -ℤ pos 2) gap) then gap else pos 0

unfoldable pub clamp_first : ℤ → ℤ → ℤ
clamp_first available size =
    if ltb_ℤ available (pos 2)
    then pos 1
    else if ltb_ℤ size (pos 1)
    then pos 1
    else if not (ltb_ℤ size available)
    then available -ℤ pos 1
    else size

-- `gap` is the one that `split_gap` allows, `size` the first child's share.
unfoldable pub cut_at : ℤ → ℤ → ℤ → Cut
cut_at available gap size =
    let first = clamp_first available size in
    record {
      available = available;
      first_size = first;
      second_offset = if ltb_ℤ available (pos 2) then pos 0 else first +ℤ gap;
      second_size = if ltb_ℤ available (pos 2) then pos 1 else available -ℤ first;
    }

unfoldable pub extent_of : Split → Box → ℤ
extent_of horizontal box = box.width
extent_of vertical box = box.height

unfoldable pub first_box : Split → Cut → Box → Box
first_box horizontal c box = record box { width = c.first_size }
first_box vertical c box = record box { height = c.first_size }

unfoldable pub second_box : Split → Cut → Box → Box
second_box horizontal c box = record box { x = box.x +ℤ c.second_offset; width = c.second_size }
second_box vertical c box = record box { y = box.y +ℤ c.second_offset; height = c.second_size }

module _ (R : Floats) where
  open R use {F, of_int, to_int, mul}

  unfoldable pub cut : Branch F → Box → ℤ → Cut
  cut b box gap =
      let extent = extent_of b.split box in
      let allowed = split_gap extent gap in
      let available = extent -ℤ allowed in
      cut_at available allowed (to_int (mul (of_int available) b.ratio))

  unfoldable pub arrange_node : Node F → Box → ℤ → Node F × List (View × Box)
  arrange_node (leaf a v) box gap = (leaf a v, (v, box) ∷ [])
  arrange_node (branch b l r) box gap =
      let c = cut b box gap in
      let (l', first) = arrange_node l (first_box b.split c box) gap in
      let (r', second) = arrange_node r (second_box b.split c box) gap in
      (branch (record b { axis_length = c.available }) l' r', first ++ second)

  unfoldable pub arrange : Option (Node F) → Box → ℤ → Option (Node F) × List (View × Box)
  arrange none box gap = (none, [])
  arrange (some root) box gap =
      let (root', calls) = arrange_node root box gap in (some root', calls)
