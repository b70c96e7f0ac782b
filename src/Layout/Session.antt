-- ===== src/Layout/Session.antt =====
-- src/workspace/layout.c and tag.c: a layout with what the user's drags keep between two calls: the drag
-- of a border and the window that was taken out of the tree. Every function of layout.c that changes a
-- layout is an event, and so is `leme_tag_apply_settings`.
pub mod Trees
pub mod Kept
use leme.Base.{ℕ, Bool, Option, none, some, List, [], ◌∷◌}
use leme.Base.Int.{ℤ, pos, ◌≤ℤ◌}
use leme.Base.Floats.{Floats, ComparesNumbers}
use leme.Layout.Direction.{Direction}
use leme.Layout.View.{View, null}
use leme.Layout.Node.{Node}
use leme.Layout.Detach.{Detach, detach_view, restore_view, insert_detached}
use leme.Layout.Swap.{swap_views}
use leme.Layout.Resize.Ratio.{InRange}
use leme.Layout.Drag.{Drag, empty_drag, drag_begin, drag_update}
use leme.Layout.Kinds.{Kind, Layout, layout_init}
use leme.Layout.Kinds.Tuned.{Operation, step}
use leme.Tags.{Tag, TagSettings, apply_settings}

pub record Session (F : Type 0) : Type 0 where
  pub layout : Layout F
  pub drag : Drag F
  pub detached : Option (Detach F)

pub data Event (F : Type 0) : Type 0 where
  operates : Operation F → Event F
  swaps : View → View → Event F
  begins_drag : View → ℕ → Event F
  drags : ℤ → ℤ → Event F
  detaches : View → Bool → Event F
  restores : Event F
  inserts : View → Direction → Option ℕ → Event F
  configures : TagSettings F → Event F

module _ {F : Type 0} where
  unfoldable pub with_tree : Session F → Option (Node F) → Session F
  with_tree s root = record s { layout = record (s.layout) { root = root } }

  unfoldable pub swap_in : View → View → Option (Node F) → Option (Node F)
  swap_in first second none = none
  swap_in first second (some root) = some (swap_views root first second).0

  -- The tree where a call succeeded; the detached window is in it then.
  unfoldable pub put_back : Session F → Option (Node F) → Session F
  put_back s none = s
  put_back s (some root) = record (with_tree s (some root)) { detached = none }

  unfoldable pub restore_in : Session F → Option (Detach F) → Session F
  restore_in s none = s
  restore_in s (some d) = put_back s (restore_view s.layout.root d)

  unfoldable pub insert_in :
      F → Session F → View → Direction → Option ℕ → Option (Detach F) → Session F
  insert_in half s target direction memory none = s
  insert_in half s target direction memory (some d) =
      put_back s (insert_detached half s.layout.root d target direction memory)

  unfoldable pub fresh : F → Kind → Session F
  fresh half kind = record { layout = layout_init half kind; drag = empty_drag; detached = none }

module _ (R : Floats) (c : ComparesNumbers R) (half_in_range : InRange R R.one_half) where
  open R use {F, one_half}

  unfoldable pub drag_in : Drag F → ℤ → ℤ → Option (Node F) → Option (Node F)
  drag_in d dx dy none = none
  drag_in d dx dy (some root) = some (drag_update R d dx dy root).0

  unfoldable pub react : Session F → Event F → Session F
  react s (operates op) = record s { layout = step R c half_in_range s.layout op }
  react s (swaps first second) = with_tree s (swap_in first second s.layout.root)
  react s (begins_drag v edges) = record s { drag = (drag_begin s.layout.root v edges).0 }
  react s (drags dx dy) = with_tree s (drag_in s.drag dx dy s.layout.root)
  react s (detaches v memory) =
      let (root', d) = detach_view s.layout.root v memory in
      record (with_tree s root') { detached = d }
  react s restores = restore_in s s.detached
  react s (inserts target direction memory) =
      insert_in one_half s target direction memory s.detached
  react s (configures settings) =
      let tag : Tag F = record { layout = s.layout; views = []; focused_view = null } in
      let set = apply_settings settings tag in record s { layout = set.layout }

  unfoldable pub run : Session F → List (Event F) → Session F
  run s [] = s
  run s (e ∷ es) = run (react s e) es

  -- What src/config/parse.c lets through as the settings of a tag.
  abbrev pub IsAllowed : Event F → Type 0
  IsAllowed (configures settings) =
      InRange R settings.mfact
      × (pos 10 ≤ℤ settings.collapse_width)
      × (settings.collapse_width ≤ℤ pos 400)
  IsAllowed e = Unit
