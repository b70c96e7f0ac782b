-- ===== src/Ownership/Outcome.antt =====
-- src/shell/ownership.c: what belongs to what after a transition was prepared and committed.
use leme.Base.{
  ℕ, ◌==◌, ==→eq, ==-refl, ◌||◌, not, ltb, if◌then◌else◌, Bool, true, false, Option, none, some,
  List, [], ◌∷◌, ◌≡◌, refl, arith, ap, ap₂, ◌∙◌, sym, subst, Bool-cases, inl, inr, if_cases,
}
use leme.Layout.View.{View, null}
use leme.Layout.Sequence.{contains, Unrepeated}
use leme.Layout.Kinds.{Alloc}
use leme.Tags.{Tag, TagSettings}
use leme.Tags.World.{Reason, Presentation, of_tag, durable, World, set_owner}
use leme.Tags.Move.Whole.{IsWhole}
use leme.Ownership.{
  valid_durable, Detach, Materialize, commit_detach, plan_for, prepare_materialize,
  commit_materialize,
}
use leme.Ownership.Durables.{
  Transition, tag_to_durable, durable_to_tag, detached_to_durable, prepare_tag_to_durable,
  all_durable, planned_to_tag, prepare_durable_group_to_tag, install_durable, attach_one,
  attach_all, commit,
}
use leme.Ownership.Views.{views-commit_materialize}
use leme.Ownership.Kept.{commit-IsWhole, owner-attach_one, owner-attached}
use leme.Ownership.Prepared.{
  Detaches, prepare_detach-Detaches, Planned, prepare_materialize-Planned,
}

module _ {F : Type 0} where
  owner-installed :
      (w : World F) (v : View) (reason : Reason) (presentation : Presentation) (output : Option ℕ)
      → ((install_durable w v reason presentation output).views v).owner
        ≡ durable (record {
          reason = reason;
          presentation = presentation;
          output = output;
          restore = none;
        })
  unfolding install_durable set_owner
  owner-installed w v reason presentation output = rw (==-refl v) refl

module _ {F : Type 0} (half : F) (settings : Option (ℕ → TagSettings F)) (alloc : Alloc)
    (memory : Bool) (w : World F) where
  -- A view leaves its tag for a durable owner. The world stays whole, no tag has the view, and its
  -- owner is the new one, whose output is there just when it is presented on one.
  abbrev BecomesDurable : View → Reason → Presentation → Option ℕ → Option (Transition F) → Type 0
  BecomesDurable v reason presentation output none = Unit {0}
  BecomesDurable v reason presentation output (some tr) =
      IsWhole (commit half settings alloc w tr)
      × (((commit half settings alloc w tr).views v).owner
          ≡ durable (record {
            reason = reason;
            presentation = presentation;
            output = output;
            restore = none;
          }))
      × (valid_durable reason presentation output ≡ true)

  detached_to_durable-Becomes :
      (v : View) (reason : Reason) (presentation : Presentation) (output : Option ℕ)
      (o : Option Detach)
      → IsWhole w
      → Detaches (w.views v).owner o
      → valid_durable reason presentation output ≡ true
      → BecomesDurable v reason presentation output
          (detached_to_durable v reason presentation output o)
  unfolding detached_to_durable commit
  detached_to_durable-Becomes v reason presentation output none h d e = tt
  detached_to_durable-Becomes v reason presentation output (some x) h d e = (
    commit-IsWhole half settings alloc w (tag_to_durable v x reason presentation output) h d,
    owner-installed (commit_detach w v x).0 v reason presentation output,
    e,
  )

  prepare_tag_to_durable-Becomes :
      (v : View) (reason : Reason) (presentation : Presentation) (output : Option ℕ)
      → IsWhole w
      → BecomesDurable v reason presentation output
          (prepare_tag_to_durable memory w v reason presentation output)
  unfolding prepare_tag_to_durable
  prepare_tag_to_durable-Becomes v reason presentation output h =
      if_cases (BecomesDurable v reason presentation output)
        (v == null || not (valid_durable reason presentation output) || not memory) _ _ (λ e. tt)
        (λ e.
          detached_to_durable-Becomes v reason presentation output _ h
            (prepare_detach-Detaches memory w v) (ground (arith, e)))

  -- Where the owners of a list of views are after they came to a tag.
  owner-attach_all_apart :
      (u : View) (t id : ℕ) (focused : View) (vs : List View) (x : World F)
      → contains u vs ≡ false
      → ((attach_all half settings alloc x t id focused vs).views u).owner ≡ (x.views u).owner
  unfolding attach_all contains
  owner-attach_all_apart u t id focused [] x a = refl
  owner-attach_all_apart u t id focused (v ∷ vs) x a =
      owner-attach_all_apart u t id focused vs (attach_one half settings alloc x t id focused v)
        (ground (arith, a))
      ∙ owner-attach_one half settings alloc x t id focused v u (ground (arith, a))

  owner-attach_all :
      (u : View) (t id : ℕ) (focused : View) (vs : List View) (x : World F)
      → contains u vs ≡ true
      → Unrepeated vs
      → ((attach_all half settings alloc x t id focused vs).views u).owner ≡ of_tag t id
  unfolding attach_all contains
  owner-attach_all u t id focused [] x m r = absurd (ground (arith, m))
  owner-attach_all u t id focused (v ∷ vs) x m (r, rs) = elim (Bool-cases (v == u)) [
    | inl e ↦ rw (sym (==→eq v u e)) (
        owner-attach_all_apart v t id focused vs (attach_one half settings alloc x t id focused v) r
        ∙ owner-attached half settings alloc x t id focused v)
    | inr e ↦
        owner-attach_all u t id focused vs (attach_one half settings alloc x t id focused v)
          (ground (arith, m, e)) rs
  ]

  abbrev BelongTo : List View → ℕ → ℕ → Option (Transition F) → Type 0
  BelongTo vs t id none = Unit {0}
  BelongTo vs t id (some tr) =
      IsWhole (commit half settings alloc w tr)
      × ((u : View)
          → contains u vs ≡ true
          → ((commit half settings alloc w tr).views u).owner ≡ of_tag t id)
      × ((u : View)
          → contains u vs ≡ false
          → ((commit half settings alloc w tr).views u).owner ≡ (w.views u).owner)

  abbrev PlacedAt : ℕ → ℕ → Option (Materialize F) → Type 0
  PlacedAt t id none = Unit {0}
  PlacedAt t id (some plan) = (plan.set ≡ t) × (plan.id ≡ id)

  plan_for-PlacedAt :
      (t id : ℕ) (o : Option (Tag F)) → PlacedAt t id (plan_for half settings memory t id o)
  unfolding plan_for
  plan_for-PlacedAt t id none = if_cases (PlacedAt t id) memory _ _ (λ e. (refl, refl)) (λ e. tt)
  plan_for-PlacedAt t id (some tag) =
      if_cases (PlacedAt t id) memory _ _ (λ e. (refl, refl)) (λ e. tt)

  prepare_materialize-PlacedAt :
      (t id : ℕ) → PlacedAt t id (prepare_materialize half settings memory w t id)
  unfolding prepare_materialize
  prepare_materialize-PlacedAt t id =
      if_cases (PlacedAt t id) (id == 0 || ltb (w.sets t).max_tags id) _ _ (λ e. tt)
        (λ e. plan_for-PlacedAt t id _)

  planned_to_tag-BelongTo :
      (vs : List View) (focused : View) (t id : ℕ) (o : Option (Materialize F))
      → IsWhole w
      → all_durable w vs ≡ true
      → Unrepeated vs
      → Planned w o
      → PlacedAt t id o
      → BelongTo vs t id (planned_to_tag vs focused o)
  unfolding planned_to_tag commit
  planned_to_tag-BelongTo vs focused t id none h d r p q = tt
  planned_to_tag-BelongTo vs focused t id (some plan) h d r (i, e) (s, k) =
      let made = commit_materialize w plan in
      (
        commit-IsWhole half settings alloc w (durable_to_tag vs focused plan) h (d, r, i, e),
        λ u m. owner-attach_all u plan.set plan.id focused vs made m r ∙ ap₂ of_tag s k,
        λ u a.
            owner-attach_all_apart u plan.set plan.id focused vs made a
            ∙ ap (λ views. (views u).owner) (views-commit_materialize w plan),
      )

  prepare_durable_group_to_tag-BelongTo :
      (vs : List View) (focused : View) (t id : ℕ)
      → IsWhole w
      → Unrepeated vs
      → BelongTo vs t id (prepare_durable_group_to_tag half settings memory w vs focused t id)
  unfolding prepare_durable_group_to_tag
  prepare_durable_group_to_tag-BelongTo [] focused t id h r = tt
  prepare_durable_group_to_tag-BelongTo (v ∷ vs) focused t id h r =
      if_cases (BelongTo (v ∷ vs) t id)
        (id == 0 || ltb (w.sets t).max_tags id || not (all_durable w (v ∷ vs)) || not memory) _ _
        (λ e. tt)
        (λ e.
          planned_to_tag-BelongTo (v ∷ vs) focused t id _ h (ground (arith, e)) r
            (prepare_materialize-Planned half settings memory w t id h)
            (prepare_materialize-PlacedAt t id))

  -- A transition of a view from its tag to a durable owner that was prepared in a world with sound tags,
  -- whose lists agree with the owners, leaves such a world when it is committed. The view's owner is then
  -- the new one with nothing to restore, and it has an output just when it is presented on one.
  pub commit-prepare_tag_to_durable :
      (v : View) (reason : Reason) (presentation : Presentation) (output : Option ℕ)
      (tr : Transition F)
      → IsWhole w
      → prepare_tag_to_durable memory w v reason presentation output ≡ some tr
      → IsWhole (commit half settings alloc w tr)
        × (((commit half settings alloc w tr).views v).owner
            ≡ durable (record {
              reason = reason;
              presentation = presentation;
              output = output;
              restore = none;
            }))
        × (valid_durable reason presentation output ≡ true)
  commit-prepare_tag_to_durable v reason presentation output tr h e =
      subst (BecomesDurable v reason presentation output) e
        (prepare_tag_to_durable-Becomes v reason presentation output h)

  -- A transition of a group of durable views to a tag that was prepared in a world with sound tags,
  -- whose lists agree with the owners, leaves such a world when it is committed, where no view is twice in
  -- the group. The tag is then the owner of each view of the group, and every other view keeps its owner.
  pub commit-prepare_durable_group_to_tag :
      (vs : List View) (focused : View) (t id : ℕ) (tr : Transition F) (u : View)
      → IsWhole w
      → Unrepeated vs
      → prepare_durable_group_to_tag half settings memory w vs focused t id ≡ some tr
      → IsWhole (commit half settings alloc w tr)
        × (((commit half settings alloc w tr).views u).owner
            ≡ (if contains u vs then of_tag t id else (w.views u).owner))
  commit-prepare_durable_group_to_tag vs focused t id tr u h r e =
      let b : BelongTo vs t id (some tr) =
        subst (BelongTo vs t id) e (prepare_durable_group_to_tag-BelongTo vs focused t id h r) in
      (b.0, elim (Bool-cases (contains u vs)) [ inl c ↦ rw c (b.1 u c) | inr c ↦ rw c (b.2 u c) ])
