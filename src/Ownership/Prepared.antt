-- ===== src/Ownership/Prepared.antt =====
-- src/shell/ownership.c: a transition that was prepared is ready to be committed, and what it leaves.
use leme.Base.{
  ℕ, ◌≤◌, ◌==◌, ◌||◌, not, ltb, Bool, true, Option, none, some, List, [], ◌∷◌, ◌≡◌, refl, arith, ap,
  is_some, if_cases,
}
use leme.Layout.View.{View, null}
use leme.Layout.Sequence.{Unrepeated}
use leme.Tags.{Tag, TagSettings, exists, set_slot, new_tag}
use leme.Tags.Limit.Kept.{set_slot-IsSound}
use leme.Tags.World.{
  Reason, Presentation, Durable, Owner, no_owner, of_tag, durable, World, edit_set, members,
  views_of,
}
use leme.Tags.Move.Sound.{edit_set-AllSound}
use leme.Tags.Move.Consistent.{same-IsConsistent, new_tag-views}
use leme.Tags.Move.Whole.{IsWhole}
use leme.Ownership.{
  valid_durable, owner_is_none, owner_durable, has_reason, is_durable, Detach, Materialize,
  detach_owned, prepare_detach, plan_for, prepare_materialize, commit_materialize,
}
use leme.Ownership.Durables.{
  Transition, prepare_none_to_durable, detached_to_durable, prepare_tag_to_durable, all_durable,
  all_of_reason, planned_to_tag, prepare_durable_group_to_tag, group_of,
  prepare_durable_group_to_durable,
}
use leme.Ownership.Kept.{IsReady}

-- A plan to detach is for the view's own tag.
abbrev pub Detaches : Owner → Option Detach → Type 0
Detaches owner none = Unit {0}
Detaches owner (some d) = owner ≡ of_tag d.set d.id

has_reason_some :
    (reason : Reason) (o : Option Durable) → has_reason reason o ≡ true → is_some o ≡ true
unfolding has_reason
has_reason_some reason none h = absurd (ground (arith, h))
has_reason_some reason (some d) h = refl

module _ {F : Type 0} where
  -- A prepared transition is ready, and none is a refusal.
  abbrev pub AllReady : World F → Option (Transition F) → Type 0
  AllReady w none = Unit {0}
  AllReady w (some tr) = IsReady w tr

  pub prepare_none_to_durable-AllReady :
      (memory : Bool) (w : World F) (v : View) (reason : Reason) (presentation : Presentation)
      (output : Option ℕ)
      → AllReady w (prepare_none_to_durable memory w v reason presentation output)
  unfolding prepare_none_to_durable
  prepare_none_to_durable-AllReady memory w v reason presentation output =
      if_cases (AllReady w)
        (v == null
          || not (owner_is_none (w.views v).owner)
          || not (valid_durable reason presentation output)
          || not memory)
        _ _ (λ e. tt) (λ e. ground (arith, e))

  detach_owned-Detaches :
      (memory : Bool) (w : World F) (v : View) (owner : Owner)
      → Detaches owner (detach_owned memory w v owner)
  unfolding detach_owned
  detach_owned-Detaches memory w v no_owner = tt
  detach_owned-Detaches memory w v (durable d) = tt
  detach_owned-Detaches memory w v (of_tag t id) =
      if_cases (Detaches (of_tag t id)) memory _ _ (λ e. refl) (λ e. tt)

  pub prepare_detach-Detaches :
      (memory : Bool) (w : World F) (v : View)
      → Detaches (w.views v).owner (prepare_detach memory w v)
  unfolding prepare_detach
  prepare_detach-Detaches memory w v =
      if_cases (Detaches (w.views v).owner) (v == null) _ _ (λ e. tt)
        (λ e. detach_owned-Detaches memory w v _)

  detached_to_durable-AllReady :
      (w : World F) (v : View) (reason : Reason) (presentation : Presentation) (output : Option ℕ)
      (o : Option Detach)
      → Detaches (w.views v).owner o
      → AllReady w (detached_to_durable v reason presentation output o)
  unfolding detached_to_durable
  detached_to_durable-AllReady w v reason presentation output none d = tt
  detached_to_durable-AllReady w v reason presentation output (some x) d = d

  pub prepare_tag_to_durable-AllReady :
      (memory : Bool) (w : World F) (v : View) (reason : Reason) (presentation : Presentation)
      (output : Option ℕ)
      → AllReady w (prepare_tag_to_durable memory w v reason presentation output)
  unfolding prepare_tag_to_durable
  prepare_tag_to_durable-AllReady memory w v reason presentation output =
      if_cases (AllReady w)
        (v == null || not (valid_durable reason presentation output) || not memory) _ _ (λ e. tt)
        (λ e.
          detached_to_durable-AllReady w v reason presentation output _
            (prepare_detach-Detaches memory w v))

  all_of_reason-all_durable :
      (w : World F) (reason : Reason) (vs : List View)
      → all_of_reason w reason vs ≡ true
      → all_durable w vs ≡ true
  unfolding all_of_reason all_durable is_durable
  all_of_reason-all_durable w reason [] h = refl
  all_of_reason-all_durable w reason (v ∷ vs) h = ground (
    arith,
    h,
    all_of_reason-all_durable w reason vs,
    has_reason_some reason (owner_durable (w.views v).owner),
  )

  group_of-AllReady :
      (memory : Bool) (w : World F) (vs : List View) (presentation : Presentation)
      (output : Option ℕ) (o : Option Durable)
      → AllReady w (group_of memory w vs presentation output o)
  unfolding group_of
  group_of-AllReady memory w vs presentation output none = tt
  group_of-AllReady memory w vs presentation output (some d) =
      if_cases (AllReady w)
        (not (valid_durable d.reason presentation output)
          || not (all_of_reason w d.reason vs)
          || not memory)
        _ _ (λ e. tt) (λ e. all_of_reason-all_durable w d.reason vs (ground (arith, e)))

  pub prepare_durable_group_to_durable-AllReady :
      (memory : Bool) (w : World F) (vs : List View) (presentation : Presentation)
      (output : Option ℕ)
      → AllReady w (prepare_durable_group_to_durable memory w vs presentation output)
  unfolding prepare_durable_group_to_durable
  prepare_durable_group_to_durable-AllReady memory w [] presentation output = tt
  prepare_durable_group_to_durable-AllReady memory w (v ∷ vs) presentation output =
      if_cases (AllReady w) (v == null) _ _ (λ e. tt)
        (λ e. group_of-AllReady memory w (v ∷ vs) presentation output _)

  -- A plan for a tag, made in a whole world, leaves it whole, with the tag there.
  abbrev pub Planned : World F → Option (Materialize F) → Type 0
  Planned w none = Unit {0}
  Planned w (some plan) =
      IsWhole (commit_materialize w plan)
      × (exists ((commit_materialize w plan).sets plan.set) plan.id ≡ true)

  slot-views :
      (half : F) (settings : Option (ℕ → TagSettings F)) (w : World F) (t id i : ℕ)
      → (w.sets t).table id ≡ none
      → views_of ((set_slot id (some (new_tag half settings id)) (w.sets t)).table i)
        ≡ members w t i
  unfolding set_slot views_of members
  slot-views half settings w t id i e = ground (arith, e, new_tag-views half settings id)

  slot-exists :
      (w : World F) (t id : ℕ) (tag : Tag F)
      → exists ((edit_set w t (set_slot id (some tag))).sets t) id ≡ true
  unfolding edit_set set_slot
  slot-exists w t id tag = ground arith

  plan_for-Planned :
      (half : F) (settings : Option (ℕ → TagSettings F)) (memory : Bool) (w : World F) (t id : ℕ)
      → IsWhole w
      → 1 ≤ id
      → id ≤ (w.sets t).max_tags
      → (o : Option (Tag F)) → (w.sets t).table id ≡ o
      → Planned w (plan_for half settings memory t id o)
  unfolding plan_for commit_materialize
  plan_for-Planned half settings memory w t id h l r (some tag) e =
      if_cases (Planned w) memory _ _ (λ f. (h, ap is_some e)) (λ f. tt)
  plan_for-Planned half settings memory w t id (a, c) l r none e =
      if_cases (Planned w) memory _ _
        (λ f. (
          (
            edit_set-AllSound w t _ a (set_slot-IsSound (w.sets t) id _ (a t) l r),
            same-IsConsistent w t _ c (λ i. slot-views half settings w t id i e),
          ),
          slot-exists w t id _,
        ))
        (λ f. tt)

  pub prepare_materialize-Planned :
      (half : F) (settings : Option (ℕ → TagSettings F)) (memory : Bool) (w : World F) (t id : ℕ)
      → IsWhole w
      → Planned w (prepare_materialize half settings memory w t id)
  unfolding prepare_materialize
  prepare_materialize-Planned half settings memory w t id h =
      if_cases (Planned w) (id == 0 || ltb (w.sets t).max_tags id) _ _ (λ e. tt)
        (λ e.
          plan_for-Planned half settings memory w t id h (ground (arith, e)) (ground (arith, e)) _
            refl)

  planned_to_tag-AllReady :
      (w : World F) (vs : List View) (focused : View) (o : Option (Materialize F))
      → all_durable w vs ≡ true
      → Unrepeated vs
      → Planned w o
      → AllReady w (planned_to_tag vs focused o)
  unfolding planned_to_tag
  planned_to_tag-AllReady w vs focused none d u p = tt
  planned_to_tag-AllReady w vs focused (some plan) d u (i, e) = (d, u, i, e)

  pub prepare_durable_group_to_tag-AllReady :
      (half : F) (settings : Option (ℕ → TagSettings F)) (memory : Bool) (w : World F)
      (vs : List View) (focused : View) (t id : ℕ)
      → IsWhole w
      → Unrepeated vs
      → AllReady w (prepare_durable_group_to_tag half settings memory w vs focused t id)
  unfolding prepare_durable_group_to_tag
  prepare_durable_group_to_tag-AllReady half settings memory w [] focused t id h u = tt
  prepare_durable_group_to_tag-AllReady half settings memory w (v ∷ vs) focused t id h u =
      if_cases (AllReady w)
        (id == 0 || ltb (w.sets t).max_tags id || not (all_durable w (v ∷ vs)) || not memory) _ _
        (λ e. tt)
        (λ e.
          planned_to_tag-AllReady w (v ∷ vs) focused _ (ground (arith, e)) u
            (prepare_materialize-Planned half settings memory w t id h))
