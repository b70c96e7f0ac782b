-- ===== src/Examples/Moves.antt =====
-- Tags and owners after a few operations.
use leme.Base.{
  ℕ, if◌then◌else◌, true, false, none, some, [], ◌∷◌, ◌≡◌, ◌⊎◌, refl, arith, All, get_elem?,
}
use leme.Layout.Sequence.{contains}
use leme.Layout.View.{View}
use leme.Layout.Kinds.{Kind, Alloc}
use leme.Tags.{
  Change, backward, forward, is_change, Tag, TagSet, exists, empty_tag, new_tag, IsSound,
}
use leme.Tags.Focus.{focus_id, step, focus_last}
use leme.Tags.Focus.Kept.{focus_id-IsSound, focus_last-focus_last}
use leme.Tags.Focus.Steps.{step_reaches_tag}
use leme.Tags.Limit.{materialize, init, set_max}
use leme.Tags.Limit.Kept.{set_max-IsSound}
use leme.Tags.Limit.Begin.{Starts, init-Starts}
use leme.Tags.Ring.{ring_max, is_member, ring_candidate, ring, ring_index}
use leme.Tags.Ring.Members.{Grows, ring-HasPlace}
use leme.Tags.World.{
  edit_tag, edit_set, edit_slot, members, views_of, map_slot, attach, settle, scratchpad, hidden,
  Owner, of_tag, durable, World, set_owner,
}
use leme.Tags.Move
use leme.Tags.Move.Whole.{IsWhole}
use leme.Tags.Move.Steps.{assign_view_to-IsWhole}
use leme.Tags.Visible.{visibility}
use leme.Tags.Visible.Owned.{calls, of_set, IsRight, visibility-AllRight}
use leme.Tags.Arranged.{cycle_layout, layout_kind}
use leme.Tags.Arranged.Layouts.{Follows, HasKind, cycle_layout-HasKind}
use leme.Ownership.{
  prepare_detach, detach_owned, staying, stays, valid_durable, Detach, Materialize,
}
use leme.Ownership.Durables.{
  detached_to_durable, Transition, tag_to_durable, durable_to_tag, prepare_tag_to_durable,
  prepare_durable_group_to_tag, commit,
}
use leme.Ownership.Views.{set_owner-IsWhole}
use leme.Ownership.Outcome.{commit-prepare_tag_to_durable, commit-prepare_durable_group_to_tag}
use leme.Ownership.Run.{Step, Run, Run-IsWhole}
use leme.Examples.TagSets.{some_tags, some_tags-IsSound, empty_world, empty_world-IsWhole}

abbrev leaf_memory : Alloc
leaf_memory = (some 1, some 2)

focus_last-focus_last_example :
    ((focus_last (focus_last some_tags).0).1 ≡ true)
    × ((focus_last (focus_last some_tags).0).0.focused_id ≡ some_tags.focused_id)
    × ((focus_last (focus_last some_tags).0).0.focused_is_candidate
        ≡ some_tags.focused_is_candidate)
    × ((focus_last (focus_last some_tags).0).0.previous_id ≡ some_tags.previous_id)
unfolding focus_last
focus_last-focus_last_example = focus_last-focus_last some_tags some_tags-IsSound refl refl

-- The focus on the id 3, which has no tag.
abbrev candidate_tags : TagSet ℕ
candidate_tags = (focus_id some_tags 3).0

step_reaches_tag_example :
    (tag : Tag ℕ) × ((step candidate_tags forward).1 ≡ some tag)
    × ((step candidate_tags forward).0.table (step candidate_tags forward).0.focused_id ≡ some tag)
    × ((step candidate_tags forward).0.focused_is_candidate ≡ false)
unfolding focus_id is_change leme.Tags.Focus.focus_id_direction leme.Tags.Focus.set_focus_state
step_reaches_tag_example =
    step_reaches_tag candidate_tags forward (focus_id-IsSound some_tags 3 some_tags-IsSound) refl
      refl

set_max-IsSound_example :
    IsSound (set_max true some_tags 9).0
    × ((((set_max true some_tags 9).1 ≡ false) × ((set_max true some_tags 9).0 ≡ some_tags))
        ⊎ (((set_max true some_tags 9).1 ≡ true) × ((set_max true some_tags 9).0.max_tags ≡ 9)))
set_max-IsSound_example = set_max-IsSound true some_tags 9 some_tags-IsSound

init-Starts_example : Starts {F = ℕ} 5 0 none 2 4 (init 5 0 none true (λ i. true) 2 4)
init-Starts_example = init-Starts 5 0 none 2 4 true (λ i. true)

ring-HasPlace_example :
    Grows 1 (ring some_tags forward ring_max).0
    × All
        (λ i. is_member some_tags (ring_candidate some_tags forward) i ≡ true)
        (ring some_tags forward ring_max).0
    × (index : ℕ) × (ring_index some_tags some_tags.focused_id ≡ some index)
    × (get_elem? (ring some_tags Change.forward ring_max).0 index ≡ some some_tags.focused_id)
ring-HasPlace_example = ring-HasPlace some_tags some_tags-IsSound forward (omega arith)

-- The view 7 on the tag 2.
abbrev one_view : World ℕ
one_view = (Move.assign_view_to 5 none true leaf_memory empty_world 0 7 2).0

one_view-IsWhole : IsWhole one_view
one_view-IsWhole =
    assign_view_to-IsWhole 5 none true leaf_memory empty_world 0 7 2 empty_world-IsWhole

visibility-AllRight_example :
    ((v : View) → calls v (visibility one_view 0) ≡ of_set (one_view.views v).owner 0)
    × All (IsRight one_view 0) (visibility one_view 0)
visibility-AllRight_example =
    visibility-AllRight one_view 0 (one_view-IsWhole.0 0) one_view-IsWhole.1

cycle_layout-HasKind_example :
    (kind : Kind) × Follows (layout_kind one_view 0) kind
    × HasKind 5 one_view 0 kind (cycle_layout 5 true [] one_view 0)
cycle_layout-HasKind_example = cycle_layout-HasKind 5 true [] one_view 0

Run-IsWhole_example :
    IsWhole (Move.remove_view (Move.assign_view_to 5 none true leaf_memory empty_world 0 7 2).0 7)
Run-IsWhole_example =
    Run-IsWhole {half = 5} {settings = none}
      (Run.next (Run.next Run.done (Step.assigned true leaf_memory 0 7 2)) (Step.removed 7))
      empty_world-IsWhole

abbrev to_scratchpad : Transition ℕ
to_scratchpad = tag_to_durable 7 (record { set = 0; id = 2; remaining = [] }) scratchpad hidden none

to_scratchpad_prepared :
    prepare_tag_to_durable true one_view 7 scratchpad hidden none ≡ some to_scratchpad
unfolding prepare_tag_to_durable valid_durable detached_to_durable prepare_detach detach_owned
    Move.assign_view_to Move.has_tag Move.assign_made materialize Move.assign_to edit_tag edit_set
    set_owner staying members views_of edit_slot map_slot stays Move.with_set attach settle
    empty_tag
to_scratchpad_prepared = refl

commit-prepare_tag_to_durable_example :
    IsWhole (commit 5 none leaf_memory one_view to_scratchpad)
    × (((commit 5 none leaf_memory one_view to_scratchpad).views 7).owner
        ≡ durable
            (record { reason = scratchpad; presentation = hidden; output = none; restore = none }))
    × (valid_durable scratchpad hidden none ≡ true)
commit-prepare_tag_to_durable_example =
    commit-prepare_tag_to_durable 5 none leaf_memory true one_view 7 scratchpad hidden none
      to_scratchpad one_view-IsWhole to_scratchpad_prepared

-- The views 7 and 8 in the scratchpad.
abbrev in_scratchpad : Owner
in_scratchpad =
    durable (record { reason = scratchpad; presentation = hidden; output = none; restore = none })

abbrev two_hidden : World ℕ
two_hidden = set_owner (set_owner empty_world 7 in_scratchpad) 8 in_scratchpad

two_hidden-IsWhole : IsWhole two_hidden
unfolding Move.has_tag set_owner
two_hidden-IsWhole =
    set_owner-IsWhole (set_owner empty_world 7 in_scratchpad) 8 in_scratchpad
      (set_owner-IsWhole empty_world 7 in_scratchpad empty_world-IsWhole refl refl) refl refl

abbrev back_to_tag : Transition ℕ
back_to_tag =
    durable_to_tag (7 ∷ 8 ∷ []) 8 (record { set = 1; id = 3; tag = new_tag 5 none 3; owned = true })

back_to_tag_prepared :
    prepare_durable_group_to_tag 5 none true two_hidden (7 ∷ 8 ∷ []) 8 1 3 ≡ some back_to_tag
unfolding prepare_durable_group_to_tag set_owner leme.Ownership.Durables.all_durable
    leme.Ownership.owner_durable leme.Ownership.Durables.planned_to_tag
    leme.Ownership.prepare_materialize leme.Ownership.plan_for
back_to_tag_prepared = refl

commit-prepare_durable_group_to_tag_example :
    IsWhole (commit 5 none leaf_memory two_hidden back_to_tag)
    × (((commit 5 none leaf_memory two_hidden back_to_tag).views 8).owner
        ≡ (if contains 8 (7 ∷ 8 ∷ []) then of_tag 1 3 else (two_hidden.views 8).owner))
unfolding contains
commit-prepare_durable_group_to_tag_example =
    commit-prepare_durable_group_to_tag 5 none leaf_memory true two_hidden (7 ∷ 8 ∷ []) 8 1 3
      back_to_tag 8 two_hidden-IsWhole (refl, (refl, tt)) back_to_tag_prepared
