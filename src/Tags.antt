-- ===== src/Tags.antt =====
-- src/workspace/tag.h and tag.c: the tags of one output. `table` says which tag stands at an id, `none`
-- for NULL; ids start at 1. Calls that draw or publish (`leme_render_*`, `leme_publication_*`) have
-- no part in this state.
pub mod Focus
pub mod Limit
pub mod Ring
pub mod World
pub mod Move
pub mod Visible
pub mod Arranged
pub mod Reload
pub mod Finish
use leme.Base.{
  ℕ, zero, suc, ◌+◌, ◌≤◌, ◌<◌, ◌==◌, if◌then◌else◌, Bool, true, false, Option, none, some, List, [],
  ◌≡◌, is_some,
}
use leme.Base.Int.{ℤ}
use leme.Layout.View.{View, null}
use leme.Layout.Drop.{DropMode}
use leme.Layout.Kinds.{Kind, Layout, dwindle, layout_init}

-- enum leme_tag_change_direction
pub data Change : Type 0 where
  backward no_change forward : Change

unfoldable pub is_change : Change → Bool
is_change backward = true
is_change no_change = false
is_change forward = true

unfoldable pub reversed : Change → Change
reversed forward = backward
reversed _ = forward

-- `struct leme_tag`; its id and owner are its place in the table.
pub record Tag (F : Type 0) : Type 0 where
  pub layout : Layout F
  pub views : List View
  pub focused_view : View

pub record TagSet (F : Type 0) : Type 0 where
  pub initial_tags : ℕ
  pub max_tags : ℕ
  pub focused_id : ℕ
  pub focused_is_candidate : Bool
  pub previous_id : ℕ
  pub previous_is_candidate : Bool
  pub previous_valid : Bool
  pub position : F
  pub position_active : Bool
  pub last_change_direction : Change
  pub last_change_direction_valid : Bool
  pub table : ℕ → Option (Tag F)

-- `struct leme_tag_settings`
pub record TagSettings (F : Type 0) : Type 0 where
  pub layout : Kind
  pub drop_mode : DropMode
  pub mfact : F
  pub nmaster : ℕ
  pub split_ratio : F
  pub collapse_width : ℤ
  pub gap : ℤ
  pub has_gap : Bool

module _ {F : Type 0} where
  abbrev pub exists : TagSet F → ℕ → Bool
  exists tags id = is_some (tags.table id)

  unfoldable pub set_slot : ℕ → Option (Tag F) → TagSet F → TagSet F
  set_slot id slot tags = record tags { table = λ i. if i == id then slot else tags.table i }

  unfoldable pub apply_settings : TagSettings F → Tag F → Tag F
  apply_settings s tag = record tag {
    layout = record {
      kind = s.layout;
      root = tag.layout.root;
      split_ratio = s.split_ratio;
      mfact = s.mfact;
      nmaster = s.nmaster;
      collapse_width = s.collapse_width;
      gap = s.gap;
      has_gap = s.has_gap;
    };
  }

  unfoldable pub empty_tag : F → Tag F
  empty_tag half = record { layout = layout_init half dwindle; views = []; focused_view = null }

  -- A new tag, with the settings of the configuration if there is one.
  unfoldable pub new_tag : F → Option (ℕ → TagSettings F) → ℕ → Tag F
  new_tag half none id = empty_tag half
  new_tag half (some settings) id = apply_settings (settings id) (empty_tag half)

  -- What holds of the tags of an output between two operations.
  pub record IsSound (tags : TagSet F) : Type 0 where
    pub initial_low : 1 ≤ tags.initial_tags
    pub initial_high : tags.initial_tags ≤ tags.max_tags
    pub focused_low : 1 ≤ tags.focused_id
    pub focused_high : tags.focused_id ≤ tags.max_tags
    -- the focused tag exists, or is a candidate beyond the initial ones
    pub focused_exists : tags.focused_is_candidate ≡ false → exists tags tags.focused_id ≡ true
    pub candidate_beyond : tags.focused_is_candidate ≡ true → tags.initial_tags < tags.focused_id
    pub previous_low : tags.previous_valid ≡ true → 1 ≤ tags.previous_id
    pub previous_high : tags.previous_valid ≡ true → tags.previous_id ≤ tags.max_tags
    -- the initial tags exist, and no tag stands outside the ids
    pub initial_exist : (i : ℕ) → 1 ≤ i → i ≤ tags.initial_tags → exists tags i ≡ true
    pub slots_low : (i : ℕ) → exists tags i ≡ true → 1 ≤ i
    pub slots_high : (i : ℕ) → exists tags i ≡ true → i ≤ tags.max_tags
