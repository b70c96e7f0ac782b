-- ===== src/Layout/Columns.antt =====
-- src/workspace/layout.c: the master-stack and accordion layouts. Views come as a list, so `count` is
-- its length; the calls of `apply` are the list of views with their boxes.
pub mod Column
pub mod Order
pub mod Master
pub mod Accordion
use leme.Base.{
  ℕ, zero, suc, ◌+◌, ◌-◌, ◌==◌, ◌&&◌, ltb, if◌then◌else◌, Bool, true, false, Option, none, some,
  List, [], ◌∷◌, ◌++◌, length, take, drop,
}
use leme.Base.Int.{ℤ, pos, pos_part, ◌+ℤ◌, ◌-ℤ◌, ◌*ℤ◌, ltb_ℤ, div_by}
use leme.Base.Floats.{Floats}
use leme.Box.{Box}
use leme.Layout.View.{View}

unfoldable pub column_height : ℕ → ℤ → ℕ → ℤ → ℤ
column_height count available index offset =
    if index + 1 == count then available -ℤ offset else div_by available count

unfoldable pub column_box : Box → ℤ → ℕ → ℤ → ℤ → Box
column_box area gap index offset height = record {
  x = area.x;
  y = area.y +ℤ offset +ℤ pos index *ℤ gap;
  width = area.width;
  height = height;
}

unfoldable pub column_from : ℕ → ℤ → Box → ℤ → ℕ → ℤ → List View → List (View × Box)
column_from count available area gap index offset [] = []
column_from count available area gap index offset (v ∷ vs) =
    let height = column_height count available index offset in
    (v, column_box area gap index offset height)
    ∷ column_from count available area gap (index + 1) (offset +ℤ height) vs

unfoldable pub column_available : ℕ → Box → ℤ → ℤ
column_available count area gap =
    let available = area.height -ℤ pos (count - 1) *ℤ gap in
    if ltb_ℤ available (pos count) then pos count else available

unfoldable pub arrange_column : List View → Box → ℤ → List (View × Box)
arrange_column [] area gap = []
arrange_column (v ∷ vs) area gap =
    let count = length (v ∷ vs) in
    column_from count (column_available count area gap) area gap 0 (pos 0) (v ∷ vs)

unfoldable pub master_count : ℕ → ℕ → ℕ
master_count nmaster count =
    let masters = if ltb nmaster 1 then 1 else nmaster in
    if ltb count masters then count else masters

unfoldable pub master_split : ℤ → ℤ → ℤ → ℤ
master_split width gap split =
    if ltb_ℤ split (pos 1)
    then pos 1
    else if ltb_ℤ (width -ℤ gap -ℤ pos 1) split
    then width -ℤ gap -ℤ pos 1
    else split

unfoldable pub master_area : Box → ℤ → Box
master_area area split = record area { width = split }

unfoldable pub stack_area : Box → ℤ → ℤ → Box
stack_area area gap split = record area {
  x = area.x +ℤ split +ℤ gap;
  width = area.width -ℤ split -ℤ gap;
}

module _ (R : Floats) where
  open R use {F, of_int, to_int, mul}

  unfoldable pub arrange_master_stack : ℕ → F → List View → Box → ℤ → List (View × Box)
  arrange_master_stack nmaster mfact views area gap =
      let count = length views in
      let masters = master_count nmaster count in
      let split = master_split area.width gap (to_int (mul (of_int (area.width -ℤ gap)) mfact)) in
      if count == 0
      then []
      else if masters == count
      then arrange_column views area gap
      else arrange_column (take masters views) (master_area area split) gap
        ++ arrange_column (drop masters views) (stack_area area gap split) gap

unfoldable pub index_of : View → ℕ → List View → ℕ
index_of focused index [] = 0
index_of focused index (v ∷ vs) = if v == focused then index else index_of focused (index + 1) vs

-- The loop that narrows the collapsed columns until the focused one has a pixel.
unfoldable pub shrink : ℕ → ℤ → ℤ → ℕ → ℕ
shrink count total_gap width zero = zero
shrink count total_gap width (suc collapse) =
    let less = shrink count total_gap width collapse in
    if ltb 1 count
      && ltb 1 (suc collapse)
      && ltb_ℤ width (pos (count - 1) *ℤ pos (suc collapse) +ℤ total_gap +ℤ pos 1)
    then less
    else suc collapse

unfoldable pub at_least_one : ℤ → ℤ
at_least_one n = if ltb_ℤ n (pos 1) then pos 1 else n

unfoldable pub accordion_box : Box → ℤ → ℕ → ℤ → ℤ → Box
accordion_box area gap index offset width = record {
  x = area.x +ℤ offset +ℤ pos index *ℤ gap;
  y = area.y;
  width = width;
  height = at_least_one area.height;
}

unfoldable pub accordion_from : ℕ → ℤ → ℤ → Box → ℤ → ℕ → ℤ → List View → List (View × Box)
accordion_from expanded expanded_width collapse area gap index offset [] = []
accordion_from expanded expanded_width collapse area gap index offset (v ∷ vs) =
    let width = if index == expanded then expanded_width else collapse in
    (v, accordion_box area gap index offset width)
    ∷ accordion_from expanded expanded_width collapse area gap (index + 1) (offset +ℤ width) vs

unfoldable pub accordion_collapse : ℕ → ℤ → ℤ → ℤ → ℕ
accordion_collapse count collapse_width total_gap width =
    shrink count total_gap width (pos_part (at_least_one collapse_width))

unfoldable pub accordion_expanded : ℕ → ℕ → ℤ → ℤ → ℤ
accordion_expanded count collapse total_gap width =
    at_least_one (width -ℤ pos (count - 1) *ℤ pos collapse -ℤ total_gap)

unfoldable pub arrange_accordion : ℤ → List View → View → Box → ℤ → List (View × Box)
arrange_accordion collapse_width views focused area gap =
    let count = length views in
    let total_gap = pos (count - 1) *ℤ gap in
    let collapse = accordion_collapse count collapse_width total_gap area.width in
    let wide = accordion_expanded count collapse total_gap area.width in
    accordion_from (index_of focused 0 views) wide (pos collapse) area gap 0 (pos 0) views
