-- ===== src/Layout/Kinds.antt =====
-- src/workspace/layout.c: `struct leme_layout` and the operations that depend on its kind. Memory for
-- the nodes is handed out by `alloc`, a list of what the calls of `calloc` return.
pub mod Rebuild
pub mod Tuned
use leme.Base.{
  ℕ, suc, ◌==◌, ◌+◌, not, if◌then◌else◌, Bool, true, false, Option, none, some, List, [], ◌∷◌, ltb,
}
use leme.Base.Int.{ℤ, pos, ◌+ℤ◌, ◌-ℤ◌, ltb_ℤ}
use leme.Base.Floats.{Floats}
use leme.Box.{Box}
use leme.Layout.View.{View, null}
use leme.Layout.Node.{Node}
use leme.Layout.Tree.{insert, remove}
use leme.Layout.Arrange.{arrange}
use leme.Layout.Resize.{Edge, edge_split, needs_first, clamp_ratio, resize_focused}
use leme.Layout.Columns.{arrange_master_stack, arrange_accordion}
use leme.Layout.Geometry.{saturate_int}

pub data Kind : Type 0 where
  dwindle master_stack accordion : Kind

unfoldable pub same_kind : Kind → Kind → Bool
same_kind dwindle dwindle = true
same_kind master_stack master_stack = true
same_kind accordion accordion = true
same_kind _ _ = false

pub record Layout (F : Type 0) : Type 0 where
  pub kind : Kind
  pub root : Option (Node F)
  pub split_ratio : F
  pub mfact : F
  pub nmaster : ℕ
  pub collapse_width : ℤ
  pub gap : ℤ
  pub has_gap : Bool

-- Memory for one insertion.
abbrev pub Alloc : Type 0
Alloc = Option ℕ × Option ℕ

unfoldable pub layout_init : {F : Type 0} → F → Kind → Layout F
layout_init half kind = record {
  kind = kind;
  root = none;
  split_ratio = half;
  mfact = half;
  nmaster = 1;
  collapse_width = pos 46;
  gap = pos 0;
  has_gap = false;
}

unfoldable pub layout_finish : {F : Type 0} → Layout F → Layout F
layout_finish layout = record layout { root = none }

unfoldable pub drag_supported : {F : Type 0} → Layout F → Bool
drag_supported layout = same_kind layout.kind dwindle

module _ {F : Type 0} (half : F) where
  unfoldable pub add_view : Layout F → View → View → Alloc → Layout F
  add_view layout focused added (a, b) =
      if same_kind layout.kind dwindle
      then record layout { root = insert half layout.root focused added a b }
      else layout

  -- The loop of `leme_layout_set_kind`: each view goes in behind the one before it.
  unfoldable pub rebuild : Option (Node F) → View → List (View × Alloc) → Option (Node F)
  rebuild root previous [] = root
  rebuild root previous ((v, (a, b)) ∷ rest) = rebuild (insert half root previous v a b) v rest

  unfoldable pub set_kind : Layout F → Kind → List (View × Alloc) → Layout F
  set_kind layout kind views =
      if same_kind layout.kind kind
      then layout
      else if not (same_kind kind dwindle)
      then record layout { root = none; kind = kind }
      else record layout { root = rebuild none null views; kind = kind }

unfoldable pub remove_view : {F : Type 0} → Layout F → View → Layout F
remove_view layout removed =
    if same_kind layout.kind dwindle
    then record layout { root = remove layout.root removed }
    else layout

unfoldable pub is_horizontal : Edge → Bool
is_horizontal Edge.left = true
is_horizontal Edge.right = true
is_horizontal Edge.up = false
is_horizontal Edge.down = false

unfoldable pub clamp_collapse : ℤ → ℤ
clamp_collapse width =
    if ltb_ℤ width (pos 10) then pos 10 else if ltb_ℤ (pos 400) width then pos 400 else width

module _ (R : Floats) where
  open R use {F, of_int, add, sub, div}

  -- The tree with its new axis lengths and the calls of `apply`.
  unfoldable pub arrange_kind :
      Kind → Layout F → List View → View → Box → ℤ → Layout F × List (View × Box)
  arrange_kind dwindle layout views focused area gap =
      let (root', calls) = arrange R layout.root area gap in (record layout { root = root' }, calls)
  arrange_kind master_stack layout views focused area gap =
      (layout, arrange_master_stack R layout.nmaster layout.mfact views area gap)
  arrange_kind accordion layout views focused area gap =
      (layout, arrange_accordion layout.collapse_width views focused area gap)

  unfoldable pub arrange_subject :
      Layout F → List View → View → Box → ℤ → Layout F × List (View × Box)
  arrange_subject layout views focused area gap =
      arrange_kind layout.kind layout views focused area
        (if layout.has_gap then layout.gap else gap)

  unfoldable pub resize_kind : Kind → Layout F → View → Edge → ℤ → Box → Layout F × Bool
  resize_kind dwindle layout focused edge delta area =
      let (root', changed) = resize_focused R layout.root focused edge delta in
      (record layout { root = root' }, changed)
  resize_kind master_stack layout focused edge delta area =
      let step = div (of_int delta) (of_int area.width) in
      if not (is_horizontal edge)
      then (layout, false)
      else if ltb_ℤ area.width (pos 1)
      then (layout, false)
      else (
        record layout {
          mfact =
              clamp_ratio R
                (if needs_first edge then add layout.mfact step else sub layout.mfact step);
        },
        true,
      )
  resize_kind accordion layout focused edge delta area =
      let width =
        saturate_int
          (layout.collapse_width +ℤ (if needs_first edge then delta else pos 0 -ℤ delta)) in
      if not (is_horizontal edge)
      then (layout, false)
      else (record layout { collapse_width = clamp_collapse width }, true)

  unfoldable pub resize : Layout F → View → Edge → ℤ → Box → Layout F × Bool
  resize layout focused edge delta area = resize_kind layout.kind layout focused edge delta area
