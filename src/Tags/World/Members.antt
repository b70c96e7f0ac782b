-- ===== src/Tags/World/Members.antt =====
-- src/workspace/tag.c: the views in the lists of the tags and the owners that the views name.
use leme.Base.{ℕ, suc, ◌-◌, ◌==◌, ◌&&◌, if◌then◌else◌, Bool, true, List, [], ◌∷◌, ◌≡◌, arith, ap}
use leme.Layout.View.{View}
use leme.Layout.Sequence.{erase_first}
use leme.Layout.Kinds.{Alloc}
use leme.Tags.{Tag, exists}
use leme.Tags.World.{
  Owner, no_owner, of_tag, durable, World, map_slot, edit_set, edit_slot, edit_tag, attach, detach,
  views_of, members,
}

abbrev pub count : ℕ → List ℕ → ℕ
count v [] = 0
count v (x ∷ xs) = if x == v then suc (count v xs) else count v xs

pub count-erase_first :
    (a v : ℕ) (xs : List ℕ)
    → count a (erase_first v xs) ≡ (if a == v then count a xs - 1 else count a xs)
unfolding erase_first
count-erase_first a v [] = ground arith
count-erase_first a v (x ∷ xs) = ground (arith, count-erase_first a v xs)

-- How often a tag's list has a view with this owner.
abbrev pub owned : Owner → ℕ → ℕ → ℕ
owned no_owner t id = 0
owned (of_tag s i) t id = if s == t && i == id then 1 else 0
owned (durable d) t id = 0

module _ {F : Type 0} where
  -- The list of every tag holds the views that name the tag as their owner, each once, and no others.
  abbrev pub IsConsistent : World F → Type 0
  IsConsistent w = (v : View) (t id : ℕ) → count v (members w t id) ≡ owned (w.views v).owner t id

  pub members-edit_tag :
      (w : World F) (t id : ℕ) (f : Tag F → Tag F) (s i : ℕ)
      → members (edit_tag w t id f) s i
        ≡ (if s == t && i == id then views_of (map_slot f ((w.sets s).table i)) else members w s i)
  unfolding members edit_tag edit_set edit_slot
  members-edit_tag w t id f s i = ground arith

  pub members-attach :
      (half : F) (alloc : Alloc) (tiled : Bool) (v : View) (w : World F) (t id s i : ℕ)
      → exists (w.sets t) id ≡ true
      → members (edit_tag w t id (attach half alloc tiled v)) s i
        ≡ (if s == t && i == id then v ∷ members w s i else members w s i)
  unfolding members edit_tag edit_set edit_slot attach views_of map_slot
  members-attach half alloc tiled v w t id s i e = ground (
    arith,
    members-edit_tag w t id (attach half alloc tiled v) s i,
    e,
    ap (λ k. exists (w.sets k) id),
  )

  pub members-detach :
      (tiled : Bool) (v : View) (w : World F) (t id s i : ℕ)
      → members (edit_tag w t id (detach tiled v)) s i
        ≡ (if s == t && i == id then erase_first v (members w s i) else members w s i)
  unfolding members edit_tag edit_set edit_slot detach views_of map_slot erase_first
  members-detach tiled v w t id s i = ground arith
