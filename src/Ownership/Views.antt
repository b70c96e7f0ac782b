-- ===== src/Ownership/Views.antt =====
-- src/shell/ownership.c: a view that is on no tag gets another owner.
use leme.Base.{
  ℕ, ==→eq, ==-refl, ◌||◌, not, leb, Bool, true, false, Option, List, [], ◌∷◌, ◌≡◌, refl, arith, ap,
  ◌∙◌, is_some, if_cases,
}
use leme.Layout.View.{View}
use leme.Tags.World.{
  Presentation, Owner, no_owner, of_tag, durable, ViewState, World, edit_set, set_owner, members,
}
use leme.Tags.World.Members.{owned}
use leme.Tags.Move
use leme.Tags.Move.Whole.{IsWhole}
use leme.Ownership.{owner_is_none, owner_durable, edit_view, Materialize, commit_materialize}
use leme.Ownership.Durables.{all_durable, presented, present_all}

owned_none : (owner : Owner) (t id : ℕ) → Move.has_tag owner ≡ false → owned owner t id ≡ 0
unfolding Move.has_tag
owned_none no_owner t id h = refl
owned_none (of_tag s i) t id h = absurd (ground (arith, h))
owned_none (durable d) t id h = refl

pub durable_off :
    (owner : Owner) → is_some (owner_durable owner) ≡ true → Move.has_tag owner ≡ false
unfolding owner_durable Move.has_tag
durable_off no_owner h = refl
durable_off (of_tag t id) h = absurd (ground (arith, h))
durable_off (durable d) h = refl

pub none_off : (owner : Owner) → owner_is_none owner ≡ true → Move.has_tag owner ≡ false
unfolding owner_is_none Move.has_tag
none_off no_owner h = refl
none_off (of_tag t id) h = absurd (ground (arith, h))
none_off (durable d) h = refl

presented_off :
    (presentation : Presentation) (output : Option ℕ) (owner : Owner)
    → Move.has_tag (presented presentation output owner) ≡ Move.has_tag owner
unfolding presented Move.has_tag
presented_off presentation output no_owner = refl
presented_off presentation output (of_tag t id) = refl
presented_off presentation output (durable d) = refl

presented_durable :
    (presentation : Presentation) (output : Option ℕ) (owner : Owner)
    → is_some (owner_durable (presented presentation output owner)) ≡ is_some (owner_durable owner)
unfolding presented owner_durable
presented_durable presentation output no_owner = refl
presented_durable presentation output (of_tag t id) = refl
presented_durable presentation output (durable d) = refl

module _ {F : Type 0} where
  -- A view that is edited and is on no tag before and after.
  pub edit_view-IsWhole :
      (w : World F) (v : View) (f : ViewState → ViewState)
      → IsWhole w
      → Move.has_tag (w.views v).owner ≡ false
      → Move.has_tag (f (w.views v)).owner ≡ false
      → IsWhole (edit_view w v f)
  unfolding edit_view members
  edit_view-IsWhole w v f (a, c) n m = (
    a,
    λ u t id. ground (
      arith,
      c u t id,
      owned_none (w.views u).owner t id,
      owned_none (f (w.views u)).owner t id,
      ap (λ x. (w.views x).owner),
      n,
      m,
      ==→eq u v,
    ),
  )

  pub set_owner-IsWhole :
      (w : World F) (v : View) (owner : Owner)
      → IsWhole w
      → Move.has_tag (w.views v).owner ≡ false
      → Move.has_tag owner ≡ false
      → IsWhole (set_owner w v owner)
  unfolding set_owner edit_view
  set_owner-IsWhole w v owner h n m =
      edit_view-IsWhole w v (λ view. record view { owner = owner }) h n m

  all_durable-present :
      (w : World F) (v : View) (presentation : Presentation) (output : Option ℕ) (vs : List View)
      → all_durable w vs ≡ true
      → all_durable (set_owner w v (presented presentation output (w.views v).owner)) vs ≡ true
  unfolding all_durable set_owner
  all_durable-present w v presentation output [] h = refl
  all_durable-present w v presentation output (u ∷ us) h = ground (
    arith,
    h,
    all_durable-present w v presentation output us,
    presented_durable presentation output (w.views v).owner,
    ==→eq u v,
    ap (λ x. w.views x),
  )

  pub present_all-IsWhole :
      (w : World F) (vs : List View) (presentation : Presentation) (output : Option ℕ)
      → IsWhole w
      → all_durable w vs ≡ true
      → IsWhole (present_all w vs presentation output)
  unfolding present_all all_durable
  present_all-IsWhole w [] presentation output h d = h
  present_all-IsWhole w (v ∷ vs) presentation output h d =
      let off = durable_off (w.views v).owner (ground (arith, d)) in
      present_all-IsWhole (set_owner w v (presented presentation output (w.views v).owner)) vs
        presentation output
        (set_owner-IsWhole w v _ h off (presented_off presentation output (w.views v).owner ∙ off))
        (all_durable-present w v presentation output vs (ground (arith, d)))

module _ {F : Type 0} where
  pub off-edit_view :
      (w : World F) (v : View) (f : ViewState → ViewState)
      → Move.has_tag (f (w.views v)).owner ≡ false
      → Move.has_tag ((edit_view w v f).views v).owner ≡ false
  unfolding edit_view
  off-edit_view w v f n = rw (==-refl v) n

  pub all_durable-views :
      (w w' : World F) (vs : List View) → w'.views ≡ w.views → all_durable w' vs ≡ all_durable w vs
  unfolding all_durable
  all_durable-views w w' [] e = refl
  all_durable-views w w' (v ∷ vs) e = rw (e, all_durable-views w w' vs e) refl

  pub views-commit_materialize :
      (w : World F) (plan : Materialize F) → (commit_materialize w plan).views ≡ w.views
  unfolding commit_materialize edit_set
  views-commit_materialize w plan =
      if_cases {A = World F} (λ x. x.views ≡ w.views) plan.owned _ _ (λ e. refl) (λ e. refl)

  pub views-prune_empty : (w : World F) (t i : ℕ) → (Move.prune_empty w t t i).0.views ≡ w.views
  unfolding Move.prune_empty edit_set
  views-prune_empty w t i =
      if_cases {A = World F × Bool} (λ r. r.0.views ≡ w.views)
        (leb i (w.sets t).initial_tags || not (Move.is_nil (members w t i))) _ _ (λ e. refl)
        (λ e. refl)
