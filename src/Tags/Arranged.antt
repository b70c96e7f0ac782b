-- ===== src/Tags/Arranged.antt =====
-- src/workspace/tag.c: the layouts of the tags: which views are tiled, their order, the kind of a layout,
-- the neighbours of a view and the arrangement. `memory` says that `calloc` does not refuse, and
-- `allocs` is the memory of a leaf and its branch for each view.
pub mod Layouts
pub mod Search
use leme.Base.{
  ℕ, zero, suc, ◌+◌, ◌==◌, ◌&&◌, ◌||◌, not, ltb, if◌then◌else◌, Bool, true, false, Option, none,
  some, List, [], ◌∷◌, ◌++◌, is_some, map,
}
use leme.Base.Int.{ℤ, eqb_ℤ}
use leme.Base.Floats.{Floats}
use leme.Box.{Box}
use leme.Layout.Direction.{Direction}
use leme.Layout.View.{View, null}
use leme.Layout.Sequence.{insert_after, erase_first}
use leme.Layout.Kinds.{
  Kind, dwindle, master_stack, accordion, same_kind, Layout, Alloc, set_kind, arrange_subject,
}
use leme.Layout.Candidates.{Candidate, directional_candidate, nearest_candidate}
use leme.Layout.Node.{Node}
use leme.Layout.Swap.{swap_views}
use leme.Tags.{Tag, TagSet, TagSettings, apply_settings}
use leme.Tags.World.{
  Owner, no_owner, of_tag, durable, ViewState, World, edit_set, edit_tag, views_of, members,
}
use leme.Tags.Visible.{first_fullscreen, current}

-- The element in front of a view, `none` for the list's head.
unfoldable pub element_before : Option View → View → List View → Option View
element_before previous v [] = none
element_before previous v (x ∷ xs) = if x == v then previous else element_before (some x) v xs

-- `wl_list_insert` behind an element or behind the list's head.
unfoldable pub insert_behind : Option View → View → List View → List View
insert_behind none v xs = v ∷ xs
insert_behind (some u) v xs = insert_after u v xs

unfoldable pub is_view : Option View → View → Bool
is_view none v = false
is_view (some u) v = u == v

-- `leme_tags_swap_list_order` on the list of a tag.
unfoldable pub swap_order : List View → View → View → List View × Bool
swap_order views first second =
    let first_prev = element_before none first views in
    let second_prev = element_before none second views in
    let rest = erase_first second (erase_first first views) in
    if first == null || second == null || first == second
    then (views, false)
    else if is_view first_prev second
    then (insert_after first second (erase_first second views), true)
    else if is_view second_prev first
    then (insert_after second first (erase_first first views), true)
    else (insert_behind first_prev second (insert_behind second_prev first rest), true)

unfoldable pub with_memory : List View → List Alloc → List (View × Alloc)
with_memory [] allocs = []
with_memory (v ∷ vs) [] = (v, (none, none)) ∷ with_memory vs []
with_memory (v ∷ vs) (a ∷ allocs) = (v, a) ∷ with_memory vs allocs

unfoldable pub is_empty : List View → Bool
is_empty [] = true
is_empty (v ∷ vs) = false

-- The kind that comes after a kind.
unfoldable pub next_kind : Kind → Kind
next_kind dwindle = master_stack
next_kind master_stack = accordion
next_kind accordion = dwindle

unfoldable pub no_candidates : List Candidate → Bool
no_candidates [] = true
no_candidates (c ∷ cs) = false

module _ {F : Type 0} where
  unfoldable pub is_tiled : World F → View → Bool
  is_tiled w v =
      (w.views v).mapped
      && not (w.views v).unmanaged
      && not (w.views v).floating
      && not (w.views v).fullscreen

  unfoldable pub tiled_among : World F → List View → List View
  tiled_among w [] = []
  tiled_among w (v ∷ vs) = let rest = tiled_among w vs in if is_tiled w v then v ∷ rest else rest

  unfoldable pub tiled_views : World F → Tag F → List View
  tiled_views w tag = tiled_among w tag.views

  -- A layout's new kind with the tiled views; false where there is no memory for their array.
  unfoldable pub change_kind : F → Bool → List Alloc → World F → Kind → Tag F → Tag F × Bool
  change_kind half memory allocs w kind tag =
      let views = tiled_views w tag in
      if is_empty views
      then (record tag { layout = set_kind half tag.layout kind [] }, true)
      else if memory
      then (record tag { layout = set_kind half tag.layout kind (with_memory views allocs) }, true)
      else (tag, false)

  unfoldable pub set_layout_of :
      F → Bool → List Alloc → World F → ℕ → Kind → Option (Tag F) → World F × Bool
  set_layout_of half memory allocs w t kind none = (w, false)
  set_layout_of half memory allocs w t kind (some tag) =
      let (tag', done) = change_kind half memory allocs w kind tag in
      if same_kind tag.layout.kind kind
      then (w, true)
      else (edit_tag w t (w.sets t).focused_id (λ old. tag'), done)

  unfoldable pub set_layout : F → Bool → List Alloc → World F → ℕ → Kind → World F × Bool
  set_layout half memory allocs w t kind =
      set_layout_of half memory allocs w t kind (current (w.sets t))

  unfoldable pub cycle_layout_of :
      F → Bool → List Alloc → World F → ℕ → Option (Tag F) → World F × Bool
  cycle_layout_of half memory allocs w t none = (w, false)
  cycle_layout_of half memory allocs w t (some tag) =
      set_layout half memory allocs w t (next_kind tag.layout.kind)

  unfoldable pub cycle_layout : F → Bool → List Alloc → World F → ℕ → World F × Bool
  cycle_layout half memory allocs w t = cycle_layout_of half memory allocs w t (current (w.sets t))

  unfoldable pub kind_of : Option (Tag F) → Kind
  kind_of none = dwindle
  kind_of (some tag) = tag.layout.kind

  unfoldable pub layout_kind : World F → ℕ → Kind
  layout_kind w t = kind_of (current (w.sets t))

  unfoldable pub candidate : World F → View → Candidate
  candidate w v = record { view = v; box = (w.views v).box }

  unfoldable pub is_candidate : World F → View → Bool → View → Bool
  is_candidate w fullscreen tiled_only v =
      (w.views v).mapped
      && not (w.views v).unmanaged
      && not (w.views v).detached
      && (fullscreen == null || v == fullscreen)
      && not (tiled_only && ((w.views v).floating || (w.views v).fullscreen))

  unfoldable pub candidates : World F → View → Bool → List View → List Candidate
  candidates w fullscreen tiled_only [] = []
  candidates w fullscreen tiled_only (v ∷ vs) =
      let rest = candidates w fullscreen tiled_only vs in
      if is_candidate w fullscreen tiled_only v then candidate w v ∷ rest else rest

  unfoldable pub is_target : World F → View → View → Bool
  is_target w excluded v =
      not (v == excluded)
      && (w.views v).mapped
      && not (w.views v).unmanaged
      && not (w.views v).floating
      && not (w.views v).detached
      && not (w.views v).fullscreen

  unfoldable pub targets : World F → View → List View → List Candidate
  targets w excluded [] = []
  targets w excluded (v ∷ vs) =
      let rest = targets w excluded vs in
      if is_target w excluded v then candidate w v ∷ rest else rest

-- The layout of the focused tag, with the boxes that its views get, in the order of the calls.
module _ (R : Floats) where
  open R use {F}

  unfoldable pub arrange_of :
      Bool → World F → Box → ℤ → Option (Tag F) → Option (Layout F) × List (View × Box)
  arrange_of memory w area gap none = (none, [])
  arrange_of memory w area gap (some tag) =
      let views = tiled_views w tag in
      let (layout', calls) = arrange_subject R tag.layout views tag.focused_view area gap in
      if is_empty views || memory then (some layout', calls) else (some (tag.layout), [])

  unfoldable pub put_layout : World F → ℕ → Option (Layout F) → World F
  put_layout w t none = w
  put_layout w t (some layout) =
      edit_tag w t (w.sets t).focused_id (λ tag. record tag { layout = layout })

  unfoldable pub arrange_current : Bool → World F → ℕ → Box → ℤ → World F × List (View × Box)
  arrange_current memory w t area gap =
      let (layout', calls) = arrange_of memory w area gap (current (w.sets t)) in
      (put_layout w t layout', calls)
