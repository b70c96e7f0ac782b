-- ===== src/Ownership/Durables.antt =====
-- src/shell/ownership.c: the transitions, prepared and committed.
use leme.Base.{
  ℕ, ◌==◌, ◌&&◌, ◌||◌, not, ltb, if◌then◌else◌, Bool, true, false, Option, none, some, List, [],
  ◌∷◌, is_some,
}
use leme.Layout.View.{View, null}
use leme.Layout.Kinds.{Alloc}
use leme.Tags.{TagSettings}
use leme.Tags.World.{
  Reason, Presentation, Durable, Owner, no_owner, of_tag, durable, World, set_owner,
}
use leme.Tags.Move.{attach_floating_prepared}
use leme.Ownership.{
  valid_durable, owner_is_none, owner_durable, is_durable, edit_view, Detach, Materialize,
  prepare_detach, commit_detach, prepare_materialize, commit_materialize,
}

-- `struct leme_ownership_transition`, by its kind.
pub data Transition (F : Type 0) : Type 0 where
  none_to_durable : View → Reason → Presentation → Option ℕ → Transition F
  tag_to_durable : View → Detach → Reason → Presentation → Option ℕ → Transition F
  durable_to_tag : List View → View → Materialize F → Transition F
  durable_to_durable : List View → Presentation → Option ℕ → Transition F

unfoldable pub presented : Presentation → Option ℕ → Owner → Owner
presented presentation output no_owner = no_owner
presented presentation output (of_tag t id) = of_tag t id
presented presentation output (durable d) =
    durable (record d { presentation = presentation; output = output })

module _ {F : Type 0} where
  unfoldable pub prepare_none_to_durable :
      Bool → World F → View → Reason → Presentation → Option ℕ → Option (Transition F)
  prepare_none_to_durable memory w v reason presentation output =
      if v == null
        || not (owner_is_none (w.views v).owner)
        || not (valid_durable reason presentation output)
        || not memory
      then none
      else some (none_to_durable v reason presentation output)

  unfoldable pub detached_to_durable :
      View → Reason → Presentation → Option ℕ → Option (Detach) → Option (Transition F)
  detached_to_durable v reason presentation output none = none
  detached_to_durable v reason presentation output (some detach) =
      some (tag_to_durable v detach reason presentation output)

  unfoldable pub prepare_tag_to_durable :
      Bool → World F → View → Reason → Presentation → Option ℕ → Option (Transition F)
  prepare_tag_to_durable memory w v reason presentation output =
      if v == null || not (valid_durable reason presentation output) || not memory
      then none
      else detached_to_durable v reason presentation output (prepare_detach memory w v)

  unfoldable pub all_durable : World F → List View → Bool
  all_durable w [] = true
  all_durable w (v ∷ vs) =
      not (v == null) && is_some (owner_durable (w.views v).owner) && all_durable w vs

  unfoldable pub all_of_reason : World F → Reason → List View → Bool
  all_of_reason w reason [] = true
  all_of_reason w reason (v ∷ vs) =
      not (v == null) && is_durable (w.views v).owner reason && all_of_reason w reason vs

  unfoldable pub planned_to_tag : List View → View → Option (Materialize F) → Option (Transition F)
  planned_to_tag vs focused none = none
  planned_to_tag vs focused (some plan) = some (durable_to_tag vs focused plan)

  unfoldable pub prepare_durable_group_to_tag :
      F
      → Option (ℕ → TagSettings F)
      → Bool
      → World F
      → List View
      → View
      → ℕ
      → ℕ
      → Option (Transition F)
  prepare_durable_group_to_tag half settings memory w [] focused t id = none
  prepare_durable_group_to_tag half settings memory w (v ∷ vs) focused t id =
      if id == 0 || ltb (w.sets t).max_tags id || not (all_durable w (v ∷ vs)) || not memory
      then none
      else planned_to_tag (v ∷ vs) focused (prepare_materialize half settings memory w t id)

  unfoldable pub group_of :
      Bool → World F → List View → Presentation → Option ℕ → Option Durable → Option (Transition F)
  group_of memory w vs presentation output none = none
  group_of memory w vs presentation output (some d) =
      if not (valid_durable d.reason presentation output)
        || not (all_of_reason w d.reason vs)
        || not memory
      then none
      else some (durable_to_durable vs presentation output)

  unfoldable pub prepare_durable_group_to_durable :
      Bool → World F → List View → Presentation → Option ℕ → Option (Transition F)
  prepare_durable_group_to_durable memory w [] presentation output = none
  prepare_durable_group_to_durable memory w (v ∷ vs) presentation output =
      if v == null
      then none
      else group_of memory w (v ∷ vs) presentation output (owner_durable (w.views v).owner)

  unfoldable pub install_durable : World F → View → Reason → Presentation → Option ℕ → World F
  install_durable w v reason presentation output = set_owner w v (
      durable
        (record { reason = reason; presentation = presentation; output = output; restore = none }))

  unfoldable pub present_all : World F → List View → Presentation → Option ℕ → World F
  present_all w [] presentation output = w
  present_all w (v ∷ vs) presentation output =
      present_all (set_owner w v (presented presentation output (w.views v).owner)) vs presentation
        output

  unfoldable pub attach_one :
      F → Option (ℕ → TagSettings F) → Alloc → World F → ℕ → ℕ → View → View → World F
  attach_one half settings alloc w t id focused v =
      attach_floating_prepared half settings true alloc
        (edit_view w v (λ view. record view { owner = no_owner; floating = true })) t id v
        (v == focused)

  unfoldable pub attach_all :
      F → Option (ℕ → TagSettings F) → Alloc → World F → ℕ → ℕ → View → List View → World F
  attach_all half settings alloc w t id focused [] = w
  attach_all half settings alloc w t id focused (v ∷ vs) =
      attach_all half settings alloc (attach_one half settings alloc w t id focused v) t id focused
        vs

  unfoldable pub commit : F → Option (ℕ → TagSettings F) → Alloc → World F → Transition F → World F
  commit half settings alloc w (none_to_durable v reason presentation output) =
      install_durable w v reason presentation output
  commit half settings alloc w (tag_to_durable v detach reason presentation output) =
      install_durable (commit_detach w v detach).0 v reason presentation output
  commit half settings alloc w (durable_to_tag vs focused plan) =
      attach_all half settings alloc (commit_materialize w plan) plan.set plan.id focused vs
  commit half settings alloc w (durable_to_durable vs presentation output) =
      present_all w vs presentation output

  unfoldable pub present_owner :
      Presentation → Option ℕ → World F → View → Option Durable → World F × Bool
  present_owner presentation output w v none = (w, false)
  present_owner presentation output w v (some d) =
      if valid_durable d.reason presentation output
      then (
        set_owner w v (durable (record d { presentation = presentation; output = output })),
        true,
      )
      else (w, false)

  unfoldable pub present_durable : World F → View → Presentation → Option ℕ → World F × Bool
  present_durable w v presentation output =
      if v == null
      then (w, false)
      else present_owner presentation output w v (owner_durable (w.views v).owner)

  unfoldable pub clear : World F → View → World F
  clear w v =
      if v == null
      then w
      else edit_view w v (λ view. record view { owner = no_owner; unmanaged_output = none })

  unfoldable pub set_unmanaged_output : World F → View → Option ℕ → World F
  set_unmanaged_output w v output =
      if v == null || not (w.views v).unmanaged || not (owner_is_none (w.views v).owner)
      then w
      else edit_view w v (λ view. record view { unmanaged_output = output })
