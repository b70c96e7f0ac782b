-- ===== src/Ownership.antt =====
-- src/shell/ownership.c and .h: what a view belongs to, and how it passes between tags and durable
-- owners. A transition is prepared, which can fail and changes nothing, and then committed or discarded.
-- `memory` says that neither a gate nor `calloc` refuses.
pub mod Durables
pub mod Views
pub mod Kept
pub mod Prepared
pub mod Outcome
pub mod Parts
pub mod Run
use leme.Base.{
  ℕ, zero, suc, ◌==◌, ◌&&◌, ◌||◌, not, ltb, if◌then◌else◌, Bool, true, false, Option, none, some,
  List, [], ◌∷◌, is_some,
}
use leme.Layout.View.{View, null}
use leme.Layout.Kinds.{Alloc}
use leme.Tags.{Tag, TagSet, TagSettings, exists, new_tag, set_slot}
use leme.Tags.World.{
  Reason, scratchpad, sticky, Presentation, hidden, on_output, Durable, Owner, no_owner, of_tag,
  durable, ViewState, World, edit_set, set_owner, members,
}
use leme.Tags.Move.{is_nil, release, prune_empty, attach_floating_prepared, with_set}

unfoldable pub same_reason : Reason → Reason → Bool
same_reason scratchpad scratchpad = true
same_reason scratchpad sticky = false
same_reason sticky scratchpad = false
same_reason sticky sticky = true

unfoldable pub valid_durable : Reason → Presentation → Option ℕ → Bool
valid_durable reason hidden output = not (is_some output)
valid_durable reason on_output output = is_some output

unfoldable pub on_some_output : Presentation → Option ℕ → Option ℕ
on_some_output hidden output = none
on_some_output on_output output = output

unfoldable pub eligible_owner : Owner → Bool
eligible_owner no_owner = false
eligible_owner (of_tag t id) = true
eligible_owner (durable d) = is_some (on_some_output d.presentation d.output)

-- The six questions of the header on a mapped view are this one.
unfoldable pub base_eligible : ViewState → Bool
base_eligible view = if not view.mapped || view.unmanaged then false else eligible_owner view.owner

unfoldable pub owner_is_none : Owner → Bool
owner_is_none no_owner = true
owner_is_none (of_tag t id) = false
owner_is_none (durable d) = false

unfoldable pub owner_durable : Owner → Option Durable
owner_durable no_owner = none
owner_durable (of_tag t id) = none
owner_durable (durable d) = some d

unfoldable pub has_reason : Reason → Option Durable → Bool
has_reason reason none = false
has_reason reason (some d) = same_reason d.reason reason

unfoldable pub is_durable : Owner → Reason → Bool
is_durable owner reason = has_reason reason (owner_durable owner)

unfoldable pub restore_of : Option Durable → Option ℕ
restore_of none = none
restore_of (some d) = d.restore

unfoldable pub restore : Owner → Option ℕ
restore owner = restore_of (owner_durable owner)

-- `struct leme_tag_detach`, its tag by its place; the area and the gap are the caller's.
pub record Detach : Type 0 where
  pub set : ℕ
  pub id : ℕ
  pub remaining : List View

-- `struct leme_tag_materialize`
pub record Materialize (F : Type 0) : Type 0 where
  pub set : ℕ
  pub id : ℕ
  pub tag : Tag F
  pub owned : Bool

module _ {F : Type 0} where
  unfoldable pub output_for : World F → ViewState → Owner → Option ℕ
  output_for w view no_owner = if view.unmanaged then view.unmanaged_output else none
  output_for w view (of_tag t id) = w.output_of t
  output_for w view (durable d) = on_some_output d.presentation d.output

  unfoldable pub effective_output : World F → View → Option ℕ
  effective_output w v = output_for w (w.views v) (w.views v).owner

  unfoldable pub edit_view : World F → View → (ViewState → ViewState) → World F
  edit_view w v f = record w { views = λ u. if u == v then f (w.views u) else w.views u }

  unfoldable pub init : World F → View → World F
  init w v = edit_view w v (λ view. record view { owner = no_owner; unmanaged_output = none })

module _ {F : Type 0} where
  unfoldable pub stays : World F → View → View → Bool
  stays w v u =
      not (u == v)
      && (w.views u).mapped
      && not (w.views u).unmanaged
      && not (w.views u).floating
      && not (w.views u).fullscreen

  unfoldable pub staying : World F → View → List View → List View
  staying w v [] = []
  staying w v (u ∷ us) = let rest = staying w v us in if stays w v u then u ∷ rest else rest

  unfoldable pub detach_owned : Bool → World F → View → Owner → Option (Detach)
  detach_owned memory w v no_owner = none
  detach_owned memory w v (durable d) = none
  detach_owned memory w v (of_tag t id) =
      if memory
      then some (record { set = t; id = id; remaining = staying w v (members w t id) })
      else none

  unfoldable pub prepare_detach : Bool → World F → View → Option (Detach)
  prepare_detach memory w v = if v == null then none else detach_owned memory w v (w.views v).owner

  -- The second component is the list of views that are arranged anew, if the tag is shown.
  unfoldable pub commit_detach : World F → View → Detach → World F × Option (List View)
  commit_detach w v plan =
      let tags = w.sets plan.set in
      let shown =
        is_some (w.output_of plan.set)
        && not tags.focused_is_candidate
        && tags.focused_id == plan.id in
      (
        (prune_empty (release w v plan.set plan.id) plan.set plan.set plan.id).0,
        if shown then some plan.remaining else none,
      )

  unfoldable pub plan_for :
      F → Option (ℕ → TagSettings F) → Bool → ℕ → ℕ → Option (Tag F) → Option (Materialize F)
  plan_for half settings memory t id (some tag) =
      if memory then some (record { set = t; id = id; tag = tag; owned = false }) else none
  plan_for half settings memory t id none =
      if memory
      then some (record { set = t; id = id; tag = new_tag half settings id; owned = true })
      else none

  unfoldable pub prepare_materialize :
      F → Option (ℕ → TagSettings F) → Bool → World F → ℕ → ℕ → Option (Materialize F)
  prepare_materialize half settings memory w t id =
      if id == 0 || ltb (w.sets t).max_tags id
      then none
      else plan_for half settings memory t id ((w.sets t).table id)

  unfoldable pub commit_materialize : World F → Materialize F → World F
  commit_materialize w plan =
      if plan.owned then edit_set w plan.set (set_slot plan.id (some plan.tag)) else w
