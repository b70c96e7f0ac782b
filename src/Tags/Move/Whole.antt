-- ===== src/Tags/Move/Whole.antt =====
-- src/workspace/tag.c: a world whose sets are sound and whose lists and owners agree, and the parts of the
-- moves that keep it so.
use leme.Base.{ℕ, ==-refl, Bool, true, false, Option, none, some, ◌≡◌, arith, ◌∙◌}
use leme.Layout.View.{View}
use leme.Layout.Kinds.{Alloc}
use leme.Tags.{TagSet, TagSettings, exists}
use leme.Tags.Limit.{materialize}
use leme.Tags.Limit.Kept.{Made, materialize-Made}
use leme.Tags.World.{
  of_tag, World, edit_set, edit_tag, set_owner, attach, focus_view, detach, settle, views_of,
  members,
}
use leme.Tags.World.Members.{IsConsistent}
use leme.Tags.Move
use leme.Tags.Move.Consistent.{
  attach-IsConsistent, same-IsConsistent, transfer-IsConsistent, Unchanged, materialize-views,
  prune_empty-IsConsistent, settle-IsConsistent,
}
use leme.Tags.Move.Sound.{
  AllSound, edit_set-AllSound, edit_tag-AllSound, exists-edit_tag, prune_empty-AllSound,
  settle-IsSound,
}

module _ {F : Type 0} where
  abbrev pub IsWhole : World F → Type 0
  IsWhole w = AllSound w × IsConsistent w

  pub exists-settle :
      (w : World F) (t id : ℕ)
      → exists (w.sets t) id ≡ true
      → exists ((edit_set w t (settle id)).sets t) id ≡ true
  unfolding edit_set settle
  exists-settle w t id e = ground (arith, e)

  pub prune-IsWhole : (w : World F) (t i : ℕ) → IsWhole w → IsWhole (Move.prune_empty w t t i).0
  prune-IsWhole w t i (a, c) = (prune_empty-AllSound w t t i a, prune_empty-IsConsistent w t i c)

  pub settle-IsWhole :
      (w : World F) (t id : ℕ)
      → IsWhole w
      → exists (w.sets t) id ≡ true
      → IsWhole (edit_set w t (settle id))
  settle-IsWhole w t id (a, c) e = (
    edit_set-AllSound w t (settle id) a (settle-IsSound id (w.sets t) (a t) e),
    settle-IsConsistent w t id c,
  )

  -- What the world is with the set that a made tag gives.
  abbrev pub MadeIn : World F → ℕ → ℕ → Option (TagSet F) → Type 0
  MadeIn w t id none = Unit {0}
  MadeIn w t id (some tags) =
      IsWhole (Move.with_set w t tags) × (exists ((Move.with_set w t tags).sets t) id ≡ true)

  pub exists-with_set :
      (w : World F) (t : ℕ) (tags : TagSet F) (id : ℕ)
      → exists tags id ≡ true
      → exists ((Move.with_set w t tags).sets t) id ≡ true
  unfolding Move.with_set edit_set
  exists-with_set w t tags id e = rw (==-refl t) e

  made_lem :
      (w : World F) (t id : ℕ) (o : Option (TagSet F))
      → IsWhole w
      → Made id o
      → Unchanged (w.sets t) o
      → MadeIn w t id o
  unfolding Move.with_set members views_of
  made_lem w t id none i m u = tt
  made_lem w t id (some tags) (a, c) (s, e) u = (
    (edit_set-AllSound w t (λ old. tags) a s, same-IsConsistent w t (λ old. tags) c u),
    exists-with_set w t tags id e,
  )

module _ {F : Type 0} (half : F) (settings : Option (ℕ → TagSettings F)) (memory : Bool)
    (alloc : Alloc) where
  pub materialize-MadeIn :
      (w : World F) (t id : ℕ)
      → IsWhole w
      → MadeIn w t id (materialize half settings memory (w.sets t) id)
  materialize-MadeIn w t id (a, c) =
      made_lem w t id _ (a, c) (materialize-Made half settings memory (w.sets t) id (a t))
        (materialize-views half settings memory (w.sets t) id)

  pub attach-IsWhole :
      (tiled : Bool) (w : World F) (v : View) (t id : ℕ)
      → IsWhole w
      → Move.has_tag (w.views v).owner ≡ false
      → exists (w.sets t) id ≡ true
      → IsWhole (edit_tag (set_owner w v (of_tag t id)) t id (attach half alloc tiled v))
  unfolding set_owner
  attach-IsWhole tiled w v t id (a, c) n e = (
    edit_tag-AllSound (set_owner w v (of_tag t id)) t id (attach half alloc tiled v) a,
    attach-IsConsistent half alloc tiled w v t id c n e,
  )

  pub transfer-IsWhole :
      (w : World F) (s i t id : ℕ) (tiled : Bool) (v : View)
      → IsWhole w
      → (w.views v).owner ≡ of_tag s i
      → exists (w.sets t) id ≡ true
      → IsWhole (Move.transfer half settings memory alloc w s i t id tiled v)
  unfolding Move.transfer set_owner
  transfer-IsWhole w s i t id tiled v (a, c) o e =
      let taken = edit_tag w s i (detach tiled v) in
      let given = edit_tag (set_owner taken v (of_tag t id)) t id (attach half alloc tiled v) in
      (
        edit_tag-AllSound given t id (focus_view v) (
            edit_tag-AllSound (set_owner taken v (of_tag t id)) t id (attach half alloc tiled v)
              (edit_tag-AllSound w s i (detach tiled v) a)),
        transfer-IsConsistent settings memory half alloc w s i t id tiled v c o e,
      )

  pub exists-transfer :
      (w : World F) (s i t id : ℕ) (tiled : Bool) (v : View)
      → exists (w.sets t) id ≡ true
      → exists ((Move.transfer half settings memory alloc w s i t id tiled v).sets t) id ≡ true
  unfolding Move.transfer set_owner
  exists-transfer w s i t id tiled v e =
      let taken = edit_tag w s i (detach tiled v) in
      let given = edit_tag (set_owner taken v (of_tag t id)) t id (attach half alloc tiled v) in
      exists-edit_tag given t id (focus_view v) t id
      ∙ exists-edit_tag (set_owner taken v (of_tag t id)) t id (attach half alloc tiled v) t id
      ∙ exists-edit_tag w s i (detach tiled v) t id
      ∙ e
