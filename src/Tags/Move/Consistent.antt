-- ===== src/Tags/Move/Consistent.antt =====
-- src/workspace/tag.c: the lists of the tags and the owners of the views, after a view came, changed its
-- tag or left.
use leme.Base.{
  ℕ, ◌==◌, ◌||◌, not, ltb, leb, Bool, true, false, Option, none, some, [], ◌≡◌, refl, arith,
  if_cases,
}
use leme.Layout.View.{View}
use leme.Layout.Kinds.{Alloc}
use leme.Tags.{TagSet, TagSettings, exists, set_slot, new_tag, empty_tag, apply_settings}
use leme.Tags.Limit.{materialize}
use leme.Tags.World.{
  no_owner, of_tag, World, map_slot, edit_set, edit_slot, edit_tag, set_owner, attach, focus_view,
  detach, settle, views_of, members,
}
use leme.Tags.World.Members.{count-erase_first, IsConsistent, members-attach, members-detach}
use leme.Tags.Move

module _ {F : Type 0} where
  -- A view without a tag comes to a tag that exists.
  pub attach-IsConsistent :
      (half : F) (alloc : Alloc) (tiled : Bool) (w : World F) (v : View) (t id : ℕ)
      → IsConsistent w
      → Move.has_tag (w.views v).owner ≡ false
      → exists (w.sets t) id ≡ true
      → IsConsistent (edit_tag (set_owner w v (of_tag t id)) t id (attach half alloc tiled v))
  unfolding set_owner edit_tag edit_set members Move.has_tag
  attach-IsConsistent half alloc tiled w v t id c n e u s i = ground (
    arith,
    c u s i,
    c v s i,
    members-attach half alloc tiled v (set_owner w v (of_tag t id)) t id s i,
    e,
  )

  pub detach-IsConsistent :
      (tiled : Bool) (w : World F) (v : View) (t id : ℕ)
      → IsConsistent w
      → (w.views v).owner ≡ of_tag t id
      → IsConsistent (set_owner (edit_tag w t id (detach tiled v)) v no_owner)
  unfolding set_owner edit_tag edit_set members
  detach-IsConsistent tiled w v t id c o u s i = ground (
    arith,
    c u s i,
    c v s i,
    members-detach tiled v w t id s i,
    count-erase_first u v (members w s i),
    o,
  )

  -- Edits of the sets that keep every tag's list keep the world consistent.
  pub same-IsConsistent :
      (w : World F) (t : ℕ) (f : TagSet F → TagSet F)
      → IsConsistent w
      → ((i : ℕ) → views_of ((f (w.sets t)).table i) ≡ members w t i)
      → IsConsistent (edit_set w t f)
  unfolding edit_set members
  same-IsConsistent w t f c h u s i = ground (arith, c u s i, h i)

  -- From one tag to another: the source's tag loses the view, and the target's, which exists, gets it.
  pub transfer-IsConsistent :
      (settings : Option (ℕ → TagSettings F)) (memory : Bool) (half : F) (alloc : Alloc)
      (w : World F) (s i t id : ℕ) (tiled : Bool) (v : View)
      → IsConsistent w
      → (w.views v).owner ≡ of_tag s i
      → exists (w.sets t) id ≡ true
      → IsConsistent (Move.transfer half settings memory alloc w s i t id tiled v)
  unfolding Move.transfer set_owner edit_tag edit_set edit_slot members Move.has_tag focus_view
      detach attach views_of map_slot
  transfer-IsConsistent settings memory half alloc w s i t id tiled v c o e u s' i' =
      let out = detach-IsConsistent tiled w v s i c o in
      ground (
        arith,
        attach-IsConsistent half alloc tiled
            (set_owner (edit_tag w s i (detach tiled v)) v no_owner) v t id out (ground arith)
            (ground (arith, e)) u s' i',
        e,
      )

  pub new_tag-views :
      (half : F) (settings : Option (ℕ → TagSettings F)) (id : ℕ)
      → (new_tag half settings id).views ≡ []
  unfolding new_tag empty_tag apply_settings
  new_tag-views half none id = refl
  new_tag-views half (some settings) id = refl

  abbrev pub Unchanged : TagSet F → Option (TagSet F) → Type 0
  Unchanged tags none = Unit {0}
  Unchanged tags (some tags') = (i : ℕ) → views_of (tags'.table i) ≡ views_of (tags.table i)

  pub materialize-views :
      (half : F) (settings : Option (ℕ → TagSettings F)) (memory : Bool) (tags : TagSet F) (id : ℕ)
      → Unchanged tags (materialize half settings memory tags id)
  unfolding materialize set_slot views_of
  materialize-views half settings memory tags id =
      if_cases (Unchanged tags) (id == 0 || ltb tags.max_tags id) _ _ (λ e. tt)
        (λ r.
          if_cases (Unchanged tags) (exists tags id) _ _ (λ e i. refl)
            (λ e.
              if_cases (Unchanged tags) memory _ _
                (λ f i. ground (arith, e, new_tag-views half settings id)) (λ f. tt)))

  pub prune_empty-IsConsistent :
      (w : World F) (t i : ℕ) → IsConsistent w → IsConsistent (Move.prune_empty w t t i).0
  unfolding Move.prune_empty Move.clear_slot Move.is_nil members views_of
  prune_empty-IsConsistent w t i c =
      if_cases {A = World F × Bool} (λ r. IsConsistent r.0)
        (leb i (w.sets t).initial_tags || not (Move.is_nil (members w t i))) _ _ (λ e. c)
        (λ e. same-IsConsistent w t (Move.clear_slot i) c (λ j. ground (arith, e)))

  pub settle-IsConsistent :
      (w : World F) (t id : ℕ) → IsConsistent w → IsConsistent (edit_set w t (settle id))
  unfolding settle members
  settle-IsConsistent w t id c = same-IsConsistent w t (settle id) c (λ i. refl)
