-- ===== src/Tags/Move/Steps.antt =====
-- src/workspace/tag.c: what every move of a view leaves true of the tags of all outputs.
use leme.Base.{
  ℕ, ◌==◌, ◌&&◌, ◌||◌, not, ltb, Bool, true, false, Option, none, some, ◌≡◌, refl, arith, ◌∙◌,
  if_cases,
}
use leme.Layout.View.{View}
use leme.Layout.Kinds.{Alloc}
use leme.Tags.{TagSet, TagSettings, exists, IsSound}
use leme.Tags.World.{
  Owner, no_owner, of_tag, durable, World, map_slot, edit_set, edit_slot, edit_tag, set_owner,
  attach, focus_view, settle, views_of, members,
}
use leme.Tags.Move
use leme.Tags.Move.Consistent.{detach-IsConsistent, same-IsConsistent}
use leme.Tags.Move.Sound.{edit_set-AllSound, edit_tag-AllSound, exists-edit_tag}
use leme.Tags.Move.Whole.{
  IsWhole, prune-IsWhole, exists-settle, settle-IsWhole, MadeIn, materialize-MadeIn, attach-IsWhole,
  transfer-IsWhole, exists-transfer,
}

module _ {F : Type 0} (half : F) (settings : Option (ℕ → TagSettings F)) (memory : Bool)
    (alloc : Alloc) where
  assign_to-IsWhole :
      (w : World F) (t : ℕ) (v : View) (id : ℕ)
      → IsWhole w
      → Move.has_tag (w.views v).owner ≡ false
      → exists (w.sets t) id ≡ true
      → IsWhole (Move.assign_to half settings memory alloc w t v id)
  unfolding Move.assign_to edit_set
  assign_to-IsWhole w t v id i n e =
      attach-IsWhole half settings memory alloc (not (w.views v).floating)
        (edit_set w t (settle id)) v t id (settle-IsWhole w t id i e) n (exists-settle w t id e)

  assign_made-IsWhole :
      (w : World F) (t : ℕ) (v : View) (id : ℕ) (o : Option (TagSet F))
      → IsWhole w
      → Move.has_tag (w.views v).owner ≡ false
      → MadeIn w t id o
      → IsWhole (Move.assign_made half settings memory alloc w t v id o).0
  unfolding Move.assign_made Move.with_set edit_set
  assign_made-IsWhole w t v id none i n m = i
  assign_made-IsWhole w t v id (some tags) i n (m, e) =
      assign_to-IsWhole (Move.with_set w t tags) t v id m n e

  -- A view without a tag comes to a tag, or the operation fails.
  pub assign_view_to-IsWhole :
      (w : World F) (t : ℕ) (v : View) (id : ℕ)
      → IsWhole w
      → IsWhole (Move.assign_view_to half settings memory alloc w t v id).0
  unfolding Move.assign_view_to
  assign_view_to-IsWhole w t v id i =
      if_cases {A = World F × Bool} (λ r. IsWhole r.0)
        (Move.has_tag (w.views v).owner || id == 0 || ltb (w.sets t).max_tags id) _ _ (λ e. i)
        (λ e.
          assign_made-IsWhole w t v id _ i (ground arith)
            (materialize-MadeIn half settings memory alloc w t id i))

  move_made-IsWhole :
      (w : World F) (i t id : ℕ) (v : View) (o : Option (TagSet F))
      → IsWhole w
      → (w.views v).owner ≡ of_tag t i
      → MadeIn w t id o
      → IsWhole (Move.move_made half settings memory alloc w t i t id v o).0
  unfolding Move.move_made Move.with_set edit_set
  move_made-IsWhole w i t id v none h o m = h
  move_made-IsWhole w i t id v (some tags) h o (m, e) =
      if_cases {A = World F × Bool} (λ r. IsWhole r.0) (t == t && i == id) _ _ (λ e. m)
        (λ f.
          prune-IsWhole _ t i (
            transfer-IsWhole half settings memory alloc (Move.with_set w t tags) t i t id _ v m o
              e))

  -- A view whose tag is in the set changes its tag there.
  pub move_view-IsWhole :
      (w : World F) (t i : ℕ) (v : View) (id : ℕ)
      → IsWhole w
      → (w.views v).owner ≡ of_tag t i
      → IsWhole (Move.move_view half settings memory alloc w t v id).0
  unfolding Move.move_view Move.move_owned
  move_view-IsWhole w t i v id h o = rw o (
      if_cases {A = World F × Bool} (λ r. IsWhole r.0) (id == 0 || ltb (w.sets t).max_tags id) _ _
        (λ e. h)
        (λ e.
          move_made-IsWhole w i t id v _ h o
            (materialize-MadeIn half settings memory alloc w t id h)))

  adopt_made-IsWhole :
      (w : World F) (s i t id : ℕ) (v : View) (o : Option (TagSet F))
      → IsWhole w
      → (w.views v).owner ≡ of_tag s i
      → MadeIn w t id o
      → IsWhole (Move.adopt_made half settings memory alloc w s i t id v o).0
  unfolding Move.adopt_made Move.with_set edit_set
  adopt_made-IsWhole w s i t id v none h o m = h
  adopt_made-IsWhole w s i t id v (some tags) h o (m, e) =
      let tiled = not (w.views v).floating && not (w.views v).detached in
      let moved =
        settle-IsWhole _ t id
          (transfer-IsWhole half settings memory alloc (Move.with_set w t tags) s i t id tiled v m o
            e)
          (exists-transfer half settings memory alloc (Move.with_set w t tags) s i t id tiled v
            e) in
      if_cases {A = World F × Bool} (λ r. IsWhole r.0) (s == t && i == id) _ _ (λ e. m)
        (λ f.
          if_cases {A = World F} IsWhole (s == t) _ _ (λ g. moved) (λ g. prune-IsWhole _ s i moved))

  adopt_owned-IsWhole :
      (w : World F) (t : ℕ) (v : View) (id : ℕ) (owner : Owner)
      → IsWhole w
      → (w.views v).owner ≡ owner
      → IsWhole (Move.adopt_owned half settings memory alloc w t v id owner).0
  unfolding Move.adopt_owned
  adopt_owned-IsWhole w t v id no_owner h o = h
  adopt_owned-IsWhole w t v id (durable d) h o = h
  adopt_owned-IsWhole w t v id (of_tag s i) h o =
      adopt_made-IsWhole w s i t (Move.adopted_id (w.sets t) id) v _ h o
        (materialize-MadeIn half settings memory alloc w t (Move.adopted_id (w.sets t) id) h)

  -- A view comes to a tag of this or of another output.
  pub adopt_view-IsWhole :
      (w : World F) (t : ℕ) (v : View) (id : ℕ)
      → IsWhole w
      → IsWhole (Move.adopt_view half settings memory alloc w t v id).0
  unfolding Move.adopt_view
  adopt_view-IsWhole w t v id h = adopt_owned-IsWhole w t v id _ h refl

  floating_made-IsWhole :
      (w : World F) (t id : ℕ) (o : Option (TagSet F))
      → IsWhole w
      → MadeIn w t id o
      → IsWhole (Move.floating_made half settings memory alloc w t o).0
  unfolding Move.floating_made
  floating_made-IsWhole w t id none h m = h
  floating_made-IsWhole w t id (some tags) h (m, e) = m

  pub prepare_floating_attach-IsWhole :
      (w : World F) (t id : ℕ)
      → IsWhole w
      → IsWhole (Move.prepare_floating_attach half settings memory alloc w t id).0
  unfolding Move.prepare_floating_attach
  prepare_floating_attach-IsWhole w t id h =
      if_cases {A = World F × Bool} (λ r. IsWhole r.0) (id == 0 || ltb (w.sets t).max_tags id) _ _
        (λ e. h)
        (λ e.
          floating_made-IsWhole w t id _ h (materialize-MadeIn half settings memory alloc w t id h))

module _ {F : Type 0} where
  same-views :
      (w : World F) (t id : ℕ) (v : View) (i : ℕ)
      → views_of ((edit_slot id (focus_view v) (w.sets t)).table i) ≡ members w t i
  unfolding edit_slot members views_of map_slot focus_view
  same-views w t id v i = ground arith

  focus-IsWhole :
      (w : World F) (t id : ℕ) (v : View) → IsWhole w → IsWhole (edit_tag w t id (focus_view v))
  unfolding edit_tag
  focus-IsWhole w t id v (a, c) = (
    edit_tag-AllSound w t id (focus_view v) a,
    same-IsConsistent w t (edit_slot id (focus_view v)) c (same-views w t id v),
  )

  pub attach_floating_prepared-IsWhole :
      (half : F) (settings : Option (ℕ → TagSettings F)) (memory : Bool) (alloc : Alloc)
      (w : World F) (t id : ℕ) (v : View) (focused : Bool)
      → IsWhole w
      → Move.has_tag (w.views v).owner ≡ false
      → exists (w.sets t) id ≡ true
      → IsWhole (Move.attach_floating_prepared half settings memory alloc w t id v focused)
  unfolding Move.attach_floating_prepared set_owner
  attach_floating_prepared-IsWhole half settings memory alloc w t id v focused h n e =
      let given = edit_tag (set_owner w v (of_tag t id)) t id (attach half alloc false v) in
      let g : IsWhole given = attach-IsWhole half settings memory alloc false w v t id h n e in
      let there : exists (given.sets t) id ≡ true =
        exists-edit_tag (set_owner w v (of_tag t id)) t id (attach half alloc false v) t id ∙ e in
      if_cases {A = World F} (λ x. IsWhole (edit_set x t (settle id))) focused _ _
        (λ f.
          settle-IsWhole (edit_tag given t id (focus_view v)) t id (focus-IsWhole given t id v g)
            (exists-edit_tag given t id (focus_view v) t id ∙ there))
        (λ f. settle-IsWhole given t id g there)

  pub exists-attach_floating_prepared :
      (half : F) (settings : Option (ℕ → TagSettings F)) (memory : Bool) (alloc : Alloc)
      (w : World F) (t id : ℕ) (v : View) (focused : Bool)
      → exists (w.sets t) id ≡ true
      → exists
          ((Move.attach_floating_prepared half settings memory alloc w t id v focused).sets t)
          id
        ≡ true
  unfolding Move.attach_floating_prepared set_owner
  exists-attach_floating_prepared half settings memory alloc w t id v focused e =
      let given = edit_tag (set_owner w v (of_tag t id)) t id (attach half alloc false v) in
      let there : exists (given.sets t) id ≡ true =
        exists-edit_tag (set_owner w v (of_tag t id)) t id (attach half alloc false v) t id ∙ e in
      if_cases {A = World F} (λ x. exists ((edit_set x t (settle id)).sets t) id ≡ true) focused _ _
        (λ f.
          exists-settle (edit_tag given t id (focus_view v)) t id
            (exists-edit_tag given t id (focus_view v) t id ∙ there))
        (λ f. exists-settle given t id there)

  pub release-IsWhole :
      (w : World F) (v : View) (t id : ℕ)
      → IsWhole w
      → (w.views v).owner ≡ of_tag t id
      → IsWhole (Move.release w v t id)
  unfolding Move.release edit_tag set_owner
  release-IsWhole w v t id (a, c) o =
      (edit_tag-AllSound w t id _ a, detach-IsConsistent _ w v t id c o)

  remove_owned-IsWhole :
      (w : World F) (v : View) (owner : Owner)
      → IsWhole w
      → (w.views v).owner ≡ owner
      → IsWhole (Move.remove_owned w v owner)
  unfolding Move.remove_owned
  remove_owned-IsWhole w v no_owner h o = h
  remove_owned-IsWhole w v (durable d) h o = h
  remove_owned-IsWhole w v (of_tag t id) h o = prune-IsWhole _ t id (release-IsWhole w v t id h o)

  -- A view leaves its tag.
  pub remove_view-IsWhole : (w : World F) (v : View) → IsWhole w → IsWhole (Move.remove_view w v)
  unfolding Move.remove_view
  remove_view-IsWhole w v h = remove_owned-IsWhole w v _ h refl

  -- A set whose tags have the views that they had takes the place of a set.
  pub replace-IsWhole :
      (w : World F) (t : ℕ) (tags : TagSet F)
      → IsWhole w
      → IsSound tags
      → ((i : ℕ) → views_of (tags.table i) ≡ members w t i)
      → IsWhole (Move.with_set w t tags)
  unfolding Move.with_set
  replace-IsWhole w t tags (a, c) s u =
      (edit_set-AllSound w t (λ old. tags) a s, same-IsConsistent w t (λ old. tags) c u)
