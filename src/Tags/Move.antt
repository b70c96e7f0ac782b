-- ===== src/Tags/Move.antt =====
-- src/workspace/tag.c: views come to tags, change tags and leave. `materialize` and what it takes are in
-- Tags/Limit; `alloc` is the memory of the layout's leaf. The assertions on a view's owner are
-- hypotheses of the theorems.
pub mod Consistent
pub mod Sound
pub mod Whole
pub mod Steps
use leme.Base.{
  ℕ, zero, suc, ◌+◌, ◌==◌, ◌&&◌, ◌||◌, not, ltb, leb, if◌then◌else◌, Bool, true, false, Option,
  none, some, List, [], ◌∷◌, is_some,
}
use leme.Layout.View.{View, null}
use leme.Layout.Kinds.{Alloc}
use leme.Tags.{Tag, TagSet, TagSettings, exists, set_slot}
use leme.Tags.Limit.{materialize}
use leme.Tags.World.{
  Owner, no_owner, of_tag, durable, ViewState, World, edit_set, edit_tag, set_owner, attach,
  focus_view, detach, settle, views_of, members,
}

unfoldable pub is_nil : List ℕ → Bool
is_nil [] = true
is_nil (x ∷ xs) = false

unfoldable pub has_tag : Owner → Bool
has_tag no_owner = false
has_tag (of_tag t id) = true
has_tag (durable d) = false

module _ {F : Type 0} where
  -- The tag's slot is free again, and a focus on it is on a candidate.
  unfoldable pub clear_slot : ℕ → TagSet F → TagSet F
  clear_slot id tags = record tags {
    focused_is_candidate = tags.focused_id == id || tags.focused_is_candidate;
    previous_is_candidate =
        tags.previous_valid && tags.previous_id == id || tags.previous_is_candidate;
    table = λ i. if i == id then none else tags.table i;
  }

  -- `leme_tags_prune_empty` on the set at `t`, with the tag `id` of the set at `s`.
  unfoldable pub prune_empty : World F → ℕ → ℕ → ℕ → World F × Bool
  prune_empty w t s id =
      if leb id (w.sets t).initial_tags || not (is_nil (members w s id))
      then (w, false)
      else (edit_set w t (clear_slot id), true)

  unfoldable pub remove_empty : World F → ℕ → ℕ → World F × Bool
  remove_empty w t id =
      if id == 0
        || ltb (w.sets t).max_tags id
        || leb id (w.sets t).initial_tags
        || not (exists (w.sets t) id)
      then (w, false)
      else prune_empty w t t id

  unfoldable pub with_set : World F → ℕ → TagSet F → World F
  with_set w t tags = edit_set w t (λ old. tags)

  -- The id that a view is adopted at.
  unfoldable pub adopted_id : TagSet F → ℕ → ℕ
  adopted_id tags id =
      let chosen = if id == 0 then tags.focused_id else id in
      if ltb tags.max_tags chosen then tags.max_tags else chosen

module _ {F : Type 0} (half : F) (settings : Option (ℕ → TagSettings F)) (memory : Bool)
    (alloc : Alloc) where
  unfoldable pub assign_to : World F → ℕ → View → ℕ → World F
  assign_to w t v id =
      edit_tag (set_owner (edit_set w t (settle id)) v (of_tag t id)) t id
        (attach half alloc (not (w.views v).floating) v)

  unfoldable pub assign_made : World F → ℕ → View → ℕ → Option (TagSet F) → World F × Bool
  assign_made w t v id none = (w, false)
  assign_made w t v id (some tags) = (assign_to (with_set w t tags) t v id, true)

  unfoldable pub assign_view_to : World F → ℕ → View → ℕ → World F × Bool
  assign_view_to w t v id =
      if has_tag (w.views v).owner || id == 0 || ltb (w.sets t).max_tags id
      then (w, false)
      else assign_made w t v id (materialize half settings memory (w.sets t) id)

  unfoldable pub assign_view : World F → ℕ → View → World F
  assign_view w t v = (assign_view_to w t v (w.sets t).focused_id).0

  -- From the tag `i` of the set `s` to the tag `id` of the set `t`, which is then focused there.
  unfoldable pub transfer : World F → ℕ → ℕ → ℕ → ℕ → Bool → View → World F
  transfer w s i t id tiled v =
      let taken = edit_tag w s i (detach tiled v) in
      let given = edit_tag (set_owner taken v (of_tag t id)) t id (attach half alloc tiled v) in
      edit_tag given t id (focus_view v)

  unfoldable pub move_made : World F → ℕ → ℕ → ℕ → ℕ → View → Option (TagSet F) → World F × Bool
  move_made w s i t id v none = (w, false)
  move_made w s i t id v (some tags) =
      let w' = with_set w t tags in
      let moved = transfer w' s i t id (not (w.views v).floating) v in
      if s == t && i == id then (w', true) else ((prune_empty moved t s i).0, true)

  unfoldable pub move_owned : World F → ℕ → View → ℕ → Owner → World F × Bool
  move_owned w t v id no_owner = (w, false)
  move_owned w t v id (durable d) = (w, false)
  move_owned w t v id (of_tag s i) =
      if id == 0 || ltb (w.sets t).max_tags id
      then (w, false)
      else move_made w s i t id v (materialize half settings memory (w.sets t) id)

  unfoldable pub move_view : World F → ℕ → View → ℕ → World F × Bool
  move_view w t v id = move_owned w t v id (w.views v).owner

  unfoldable pub adopt_made : World F → ℕ → ℕ → ℕ → ℕ → View → Option (TagSet F) → World F × Bool
  adopt_made w s i t id v none = (w, false)
  adopt_made w s i t id v (some tags) =
      let w' = with_set w t tags in
      let tiled = not (w.views v).floating && not (w.views v).detached in
      let moved = edit_set (transfer w' s i t id tiled v) t (settle id) in
      if s == t && i == id
      then (w', true)
      else (if s == t then moved else (prune_empty moved s s i).0, true)

  unfoldable pub adopt_owned : World F → ℕ → View → ℕ → Owner → World F × Bool
  adopt_owned w t v id no_owner = (w, false)
  adopt_owned w t v id (durable d) = (w, false)
  adopt_owned w t v id (of_tag s i) =
      let target = adopted_id (w.sets t) id in
      adopt_made w s i t target v (materialize half settings memory (w.sets t) target)

  unfoldable pub adopt_view : World F → ℕ → View → ℕ → World F × Bool
  adopt_view w t v id = adopt_owned w t v id (w.views v).owner

  unfoldable pub floating_made : World F → ℕ → Option (TagSet F) → World F × Bool
  floating_made w t none = (w, false)
  floating_made w t (some tags) = (with_set w t tags, true)

  unfoldable pub prepare_floating_attach : World F → ℕ → ℕ → World F × Bool
  prepare_floating_attach w t id =
      if id == 0 || ltb (w.sets t).max_tags id
      then (w, false)
      else floating_made w t (materialize half settings memory (w.sets t) id)

  -- The tag is there, and the view floats and has no owner.
  unfoldable pub attach_floating_prepared : World F → ℕ → ℕ → View → Bool → World F
  attach_floating_prepared w t id v focused =
      let given = edit_tag (set_owner w v (of_tag t id)) t id (attach half alloc false v) in
      edit_set (if focused then edit_tag given t id (focus_view v) else given) t (settle id)

  unfoldable pub attach_floating : World F → ℕ → View → ℕ → World F
  attach_floating w t v id = attach_floating_prepared w t id v true

module _ {F : Type 0} where
  unfoldable pub release : World F → View → ℕ → ℕ → World F
  release w v t id = set_owner (edit_tag w t id (detach (not (w.views v).floating) v)) v no_owner

  unfoldable pub remove_owned : World F → View → Owner → World F
  remove_owned w v no_owner = w
  remove_owned w v (durable d) = w
  remove_owned w v (of_tag t id) = (prune_empty (release w v t id) t t id).0

  unfoldable pub remove_view : World F → View → World F
  remove_view w v = remove_owned w v (w.views v).owner
