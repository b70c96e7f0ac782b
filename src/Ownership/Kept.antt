-- ===== src/Ownership/Kept.antt =====
-- src/shell/ownership.c: what the transitions leave true of the tags and the owners.
use leme.Base.{
  ℕ, ◌==◌, ==-refl, true, false, Option, List, [], ◌∷◌, ◌≡◌, refl, arith, ap, ◌∙◌, if_cases,
}
use leme.Layout.View.{View}
use leme.Layout.Sequence.{contains, Unrepeated}
use leme.Layout.Kinds.{Alloc}
use leme.Tags.{TagSettings, exists}
use leme.Tags.World.{no_owner, of_tag, World, edit_set, edit_tag, set_owner, settle}
use leme.Tags.Move
use leme.Tags.Move.Whole.{IsWhole, prune-IsWhole}
use leme.Tags.Move.Steps.{
  attach_floating_prepared-IsWhole, exists-attach_floating_prepared, release-IsWhole,
}
use leme.Ownership.{owner_is_none, edit_view, Detach, commit_detach, commit_materialize}
use leme.Ownership.Durables.{
  Transition, none_to_durable, tag_to_durable, durable_to_tag, durable_to_durable, all_durable,
  install_durable, attach_one, attach_all, commit,
}
use leme.Ownership.Views.{
  durable_off, none_off, edit_view-IsWhole, set_owner-IsWhole, present_all-IsWhole, off-edit_view,
  all_durable-views, views-commit_materialize, views-prune_empty,
}

module _ {F : Type 0} where
  -- What the assertions of a commit ask for.
  abbrev pub IsReady : World F → Transition F → Type 0
  IsReady w (none_to_durable v reason presentation output) = owner_is_none (w.views v).owner ≡ true
  IsReady w (tag_to_durable v detach reason presentation output) =
      (w.views v).owner ≡ of_tag detach.set detach.id
  IsReady w (durable_to_tag vs focused plan) =
      (all_durable w vs ≡ true)
      × Unrepeated vs
      × IsWhole (commit_materialize w plan)
      × (exists ((commit_materialize w plan).sets plan.set) plan.id ≡ true)
  IsReady w (durable_to_durable vs presentation output) = all_durable w vs ≡ true

module _ {F : Type 0} (half : F) (settings : Option (ℕ → TagSettings F)) (alloc : Alloc) where
  attach_one-IsWhole :
      (w : World F) (t id : ℕ) (focused v : View)
      → IsWhole w
      → Move.has_tag (w.views v).owner ≡ false
      → exists (w.sets t) id ≡ true
      → IsWhole (attach_one half settings alloc w t id focused v)
  unfolding attach_one edit_view Move.has_tag
  attach_one-IsWhole w t id focused v h n e =
      attach_floating_prepared-IsWhole half settings true alloc _ t id v (v == focused)
        (edit_view-IsWhole w v (λ view. record view { owner = no_owner; floating = true }) h n refl)
        (off-edit_view w v (λ view. record view { owner = no_owner; floating = true }) refl) e

  pub exists-attach_one :
      (w : World F) (t id : ℕ) (focused v : View)
      → exists (w.sets t) id ≡ true
      → exists ((attach_one half settings alloc w t id focused v).sets t) id ≡ true
  unfolding attach_one edit_view
  exists-attach_one w t id focused v e =
      exists-attach_floating_prepared half settings true alloc
        (edit_view w v (λ view. record view { owner = no_owner; floating = true })) t id v
        (v == focused) e

  pub owner-attach_one :
      (w : World F) (t id : ℕ) (focused v u : View)
      → u == v ≡ false
      → ((attach_one half settings alloc w t id focused v).views u).owner ≡ (w.views u).owner
  unfolding attach_one Move.attach_floating_prepared set_owner edit_tag edit_set edit_view
  owner-attach_one w t id focused v u e =
      if_cases {A = World F} (λ x. ((edit_set x t (settle id)).views u).owner ≡ (w.views u).owner)
        (v == focused) _ _ (λ f. rw e refl) (λ f. rw e refl)

  pub owner-attached :
      (w : World F) (t id : ℕ) (focused v : View)
      → ((attach_one half settings alloc w t id focused v).views v).owner ≡ of_tag t id
  unfolding attach_one Move.attach_floating_prepared set_owner edit_tag edit_set edit_view
  owner-attached w t id focused v =
      if_cases {A = World F} (λ x. ((edit_set x t (settle id)).views v).owner ≡ of_tag t id)
        (v == focused) _ _ (λ f. rw (==-refl v) refl) (λ f. rw (==-refl v) refl)

  durable-attach_one :
      (w : World F) (t id : ℕ) (focused v : View) (vs : List View)
      → contains v vs ≡ false
      → all_durable w vs ≡ true
      → all_durable (attach_one half settings alloc w t id focused v) vs ≡ true
  unfolding all_durable contains
  durable-attach_one w t id focused v [] a d = refl
  durable-attach_one w t id focused v (u ∷ us) a d =
      ground
        (arith, owner-attach_one w t id focused v u, durable-attach_one w t id focused v us, a, d)

  attach_all-IsWhole :
      (w : World F) (t id : ℕ) (focused : View) (vs : List View)
      → IsWhole w
      → all_durable w vs ≡ true
      → Unrepeated vs
      → exists (w.sets t) id ≡ true
      → IsWhole (attach_all half settings alloc w t id focused vs)
  unfolding attach_all all_durable
  attach_all-IsWhole w t id focused [] h d u e = h
  attach_all-IsWhole w t id focused (v ∷ vs) h d (u, us) e =
      attach_all-IsWhole (attach_one half settings alloc w t id focused v) t id focused vs
        (attach_one-IsWhole w t id focused v h (durable_off (w.views v).owner (ground (arith, d)))
          e)
        (durable-attach_one w t id focused v vs u (ground (arith, d))) us
        (exists-attach_one w t id focused v e)

  pub commit_detach-IsWhole :
      (w : World F) (v : View) (plan : Detach)
      → IsWhole w
      → (w.views v).owner ≡ of_tag plan.set plan.id
      → IsWhole (commit_detach w v plan).0
  unfolding commit_detach
  commit_detach-IsWhole w v plan h o =
      prune-IsWhole (Move.release w v plan.set plan.id) plan.set plan.id
        (release-IsWhole w v plan.set plan.id h o)

  pub off-commit_detach :
      (w : World F) (v : View) (plan : Detach)
      → Move.has_tag ((commit_detach w v plan).0.views v).owner ≡ false
  unfolding commit_detach Move.release Move.prune_empty set_owner edit_tag edit_set Move.has_tag
  off-commit_detach w v plan =
      let taken = Move.release w v plan.set plan.id in
      ap (λ views. Move.has_tag (views v).owner) (views-prune_empty taken plan.set plan.id)
      ∙ ground arith

  -- A transition that is ready keeps the tags sound, and the lists of the tags with the owners.
  pub commit-IsWhole :
      (w : World F) (tr : Transition F)
      → IsWhole w
      → IsReady w tr
      → IsWhole (commit half settings alloc w tr)
  unfolding commit install_durable Move.has_tag
  commit-IsWhole w (none_to_durable v reason presentation output) h r =
      set_owner-IsWhole w v _ h (none_off (w.views v).owner r) refl
  commit-IsWhole w (tag_to_durable v detach reason presentation output) h r =
      set_owner-IsWhole (commit_detach w v detach).0 v _ (commit_detach-IsWhole w v detach h r)
        (off-commit_detach w v detach) refl
  commit-IsWhole w (durable_to_tag vs focused plan) h (d, u, i, e) =
      attach_all-IsWhole (commit_materialize w plan) plan.set plan.id focused vs i
        (all_durable-views w (commit_materialize w plan) vs (views-commit_materialize w plan) ∙ d) u
        e
  commit-IsWhole w (durable_to_durable vs presentation output) h r =
      present_all-IsWhole w vs presentation output h r
