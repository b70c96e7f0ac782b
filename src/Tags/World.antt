-- ===== src/Tags/World.antt =====
-- src/workspace/tag.c, src/shell/ownership.h: the tags of all outputs and the views. A set of tags has
-- an address; a tag is the address of its set with its id. `leme_view` keeps what the tags read.
pub mod Members
use leme.Base.{
  ℕ, zero, suc, ◌+◌, ◌==◌, ◌&&◌, not, if◌then◌else◌, Bool, true, false, Option, none, some, List,
  [], ◌∷◌, is_some,
}
use leme.Box.{Box}
use leme.Layout.View.{View, null}
use leme.Layout.Sequence.{erase_first}
use leme.Layout.Kinds.{Layout, Alloc, add_view, remove_view}
use leme.Tags.{Tag, TagSet}

pub data Reason : Type 0 where
  scratchpad sticky : Reason

pub data Presentation : Type 0 where
  hidden on_output : Presentation

pub record Durable : Type 0 where
  pub reason : Reason
  pub presentation : Presentation
  pub output : Option ℕ
  pub restore : Option ℕ

-- `struct leme_view_owner`
pub data Owner : Type 0 where
  no_owner : Owner
  of_tag : ℕ → ℕ → Owner
  durable : Durable → Owner

pub record ViewState : Type 0 where
  pub mapped : Bool
  pub unmanaged : Bool
  pub floating : Bool
  pub fullscreen : Bool
  pub detached : Bool
  pub box : Box
  pub owner : Owner
  pub unmanaged_output : Option ℕ

pub record World (F : Type 0) : Type 0 where
  pub sets : ℕ → TagSet F
  pub output_of : ℕ → Option ℕ
  pub views : View → ViewState

unfoldable pub map_slot : {A : Type 0} → (A → A) → Option A → Option A
map_slot f none = none
map_slot f (some a) = some (f a)

module _ {F : Type 0} where
  unfoldable pub edit_set : World F → ℕ → (TagSet F → TagSet F) → World F
  edit_set w t f = record w { sets = λ s. if s == t then f (w.sets s) else w.sets s }

  unfoldable pub edit_slot : ℕ → (Tag F → Tag F) → TagSet F → TagSet F
  edit_slot id f tags = record tags {
    table = λ i. if i == id then map_slot f (tags.table i) else tags.table i;
  }

  -- A write through a pointer to a tag.
  unfoldable pub edit_tag : World F → ℕ → ℕ → (Tag F → Tag F) → World F
  edit_tag w t id f = edit_set w t (edit_slot id f)

  unfoldable pub set_owner : World F → View → Owner → World F
  set_owner w v owner = record w {
    views = λ u. if u == v then record (w.views u) { owner = owner } else w.views u;
  }

  -- The view goes to the head of the list, and into the layout if it is tiled there.
  unfoldable pub attach : F → Alloc → Bool → View → Tag F → Tag F
  attach half alloc tiled v tag = record tag {
    views = v ∷ tag.views;
    layout = if tiled then add_view half tag.layout tag.focused_view v alloc else tag.layout;
  }

  unfoldable pub focus_view : View → Tag F → Tag F
  focus_view v tag = record tag { focused_view = v }

  unfoldable pub detach : Bool → View → Tag F → Tag F
  detach tiled v tag = record tag {
    views = erase_first v tag.views;
    layout = if tiled then remove_view tag.layout v else tag.layout;
    focused_view = if tag.focused_view == v then null else tag.focused_view;
  }

  -- `focused_is_candidate = false` if the id is the focused one.
  unfoldable pub settle : ℕ → TagSet F → TagSet F
  settle id tags = record tags {
    focused_is_candidate = if id == tags.focused_id then false else tags.focused_is_candidate;
  }

  unfoldable pub views_of : Option (Tag F) → List View
  views_of none = []
  views_of (some tag) = tag.views

  -- The views of a tag, none where there is no tag.
  unfoldable pub members : World F → ℕ → ℕ → List View
  members w t id = views_of ((w.sets t).table id)
