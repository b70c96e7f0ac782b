-- ===== src/Tags/Visible/Owned.antt =====
-- src/workspace/tag.c: which views are shown, by their owners.
use leme.Base.{
  ℕ, zero, suc, ◌+◌, ◌≤◌, ◌==◌, ◌&&◌, ◌||◌, not, ltb, leb, if◌then◌else◌, Bool, true, false, List,
  [], ◌∷◌, ◌++◌, All, All-append, ◌≡◌, refl, ◌∙◌, inl, inr, Option-cases, arith,
}
use leme.Layout.View.{View, null}
use leme.Tags.{TagSet, IsSound, exists}
use leme.Tags.World.{Owner, no_owner, of_tag, durable, World, views_of, members}
use leme.Tags.World.Members.{count, owned, IsConsistent}
use leme.Tags.Visible.{current, fullscreen_view, is_visible, show_views, show_from, visibility}

unfoldable pub owner_is : Owner → ℕ → ℕ → Bool
owner_is no_owner t id = false
owner_is (of_tag s i) t id = s == t && i == id
owner_is (durable d) t id = false

owner_is_owned : (owner : Owner) (t id : ℕ) → 1 ≤ owned owner t id → owner_is owner t id ≡ true
unfolding owner_is
owner_is_owned no_owner t id h = absurd (omega arith)
owner_is_owned (of_tag s i) t id h = ground (arith, h)
owner_is_owned (durable d) t id h = absurd (omega arith)

-- Of two tags' ids, one is the owner's.
owner_id :
    (owner : Owner) (t id i : ℕ) → owner_is owner t id ≡ true → owner_is owner t i ≡ (i == id)
unfolding owner_is
owner_id no_owner t id i h = absurd (ground (arith, h))
owner_id (of_tag s j) t id i h = ground (arith, h)
owner_id (durable d) t id i h = absurd (ground (arith, h))

-- How many of the calls are for a view.
abbrev pub calls : View → List (View × Bool) → ℕ
calls v [] = 0
calls v ((u, visible) ∷ rest) = if u == v then suc (calls v rest) else calls v rest

calls_append :
    (v : View) (xs ys : List (View × Bool)) → calls v (xs ++ ys) ≡ calls v xs + calls v ys
calls_append v [] ys = omega arith
calls_append v ((u, b) ∷ xs) ys = ground (arith, calls_append v xs ys)

-- 1 if the owner is a tag of the set, else 0.
abbrev pub of_set : Owner → ℕ → ℕ
of_set no_owner t = 0
of_set (of_tag s i) t = if s == t then 1 else 0
of_set (durable d) t = 0

-- 1 if the owner is one of the `n` tags of the set from an id, else 0.
unfoldable within : Owner → ℕ → ℕ → ℕ → ℕ
within no_owner t id n = 0
within (of_tag s i) t id n = if s == t && (leb id i && ltb i (id + n)) then 1 else 0
within (durable d) t id n = 0

within_none : (owner : Owner) (t id : ℕ) → 0 ≡ within owner t id 0
unfolding within
within_none no_owner t id = refl
within_none (of_tag s i) t id = ground arith
within_none (durable d) t id = refl

within_suc :
    (owner : Owner) (t id n : ℕ)
    → within owner t id (suc n) ≡ owned owner t id + within owner t (id + 1) n
unfolding within
within_suc no_owner t id n = omega arith
within_suc (of_tag s i) t id n = ground arith
within_suc (durable d) t id n = omega arith

within_all :
    (owner : Owner) (t m : ℕ)
    → ((id : ℕ) → 1 ≤ owned owner t id → (1 ≤ id) × (id ≤ m))
    → within owner t 1 m ≡ of_set owner t
unfolding within
within_all no_owner t m h = refl
within_all (of_tag s i) t m h = ground (arith, h i)
within_all (durable d) t m h = refl

module _ {F : Type 0} where
  member_exists :
      (w : World F) (t id : ℕ) (v : View)
      → 1 ≤ count v (members w t id)
      → exists (w.sets t) id ≡ true
  unfolding members views_of
  member_exists w t id v h = elim (Option-cases ((w.sets t).table id)) [
    | inl e ↦ absurd (ground (arith, h, e))
    | inr (tag, e) ↦ rw e
  ]

  -- Shown by its owner: on the focused tag, and the fullscreen view if there is one.
  abbrev pub shown : World F → ℕ → View → Bool
  shown w t v =
      not (w.sets t).focused_is_candidate
      && owner_is (w.views v).owner t (w.sets t).focused_id
      && (fullscreen_view w t == null || fullscreen_view w t == v)

  abbrev pub IsRight : World F → ℕ → View × Bool → Type 0
  IsRight w t (v, visible) = visible ≡ shown w t v

  abbrev AllOwned : World F → ℕ → ℕ → List View → Type 0
  AllOwned w t id vs = (v : View) → 1 ≤ count v vs → owner_is (w.views v).owner t id ≡ true

  show_views-AllRight :
      (w : World F) (t id : ℕ) (vs : List View)
      → IsSound (w.sets t)
      → AllOwned w t id vs
      → All (IsRight w t) (show_views (w.sets t) (fullscreen_view w t) id vs)
  unfolding show_views is_visible current
  show_views-AllRight w t id [] s o = tt
  show_views-AllRight w t id (v ∷ vs) s o = (
    ground (arith, s.focused_exists, owner_id (w.views v).owner t id (w.sets t).focused_id, o v),
    show_views-AllRight w t id vs s (λ u h. o u (ground (arith, h))),
  )

  show_from-AllRight :
      (w : World F) (t n id : ℕ)
      → IsSound (w.sets t)
      → IsConsistent w
      → All (IsRight w t) (show_from w t (fullscreen_view w t) n id)
  unfolding show_from
  show_from-AllRight w t zero id s c = tt
  show_from-AllRight w t (suc n) id s c =
      All-append (IsRight w t) _ _
        (show_views-AllRight w t id (members w t id) s
          (λ v h. owner_is_owned (w.views v).owner t id (omega (arith, c v t id))))
        (show_from-AllRight w t n (id + 1) s c)

  calls-show_views :
      (tags : TagSet F) (fullscreen : View) (id : ℕ) (v : View) (vs : List View)
      → calls v (show_views tags fullscreen id vs) ≡ count v vs
  unfolding show_views
  calls-show_views tags fullscreen id v [] = refl
  calls-show_views tags fullscreen id v (u ∷ vs) =
      ground (arith, calls-show_views tags fullscreen id v vs)

  -- Over a range of ids a view is shown or hidden once if its owner is a tag in the range.
  calls-show_from :
      (w : World F) (t n id : ℕ) (fullscreen v : View)
      → IsConsistent w
      → calls v (show_from w t fullscreen n id) ≡ within (w.views v).owner t id n
  unfolding show_from within
  calls-show_from w t zero id fullscreen v c = within_none (w.views v).owner t id
  calls-show_from w t (suc n) id fullscreen v c =
      calls_append v (show_views (w.sets t) fullscreen id (members w t id))
        (show_from w t fullscreen n (id + 1))
      ∙ omega (
        arith,
        calls-show_views (w.sets t) fullscreen id v (members w t id),
        c v t id,
        calls-show_from w t n (id + 1) fullscreen v c,
        within_suc (w.views v).owner t id n,
      )

  -- A view that a tag of the set owns has an owner with an id of the set.
  owner_in_range :
      (w : World F) (t : ℕ) (v : View)
      → IsSound (w.sets t)
      → IsConsistent w
      → within (w.views v).owner t 1 (w.sets t).max_tags ≡ of_set (w.views v).owner t
  owner_in_range w t v s c = within_all (w.views v).owner t (w.sets t).max_tags λ id h. (
    s.slots_low id (member_exists w t id v (omega (arith, c v t id))),
    s.slots_high id (member_exists w t id v (omega (arith, c v t id))),
  )

  -- Where the tags are sound and the lists of all tags agree with the owners of the views, there is
  -- exactly one call for each view whose owner is a tag of the set and none for any other view, and
  -- each call shows its view just when the view's owner is the focused tag, that tag is no candidate,
  -- and the view is the tag's fullscreen view if there is one.
  pub visibility-AllRight :
      (w : World F) (t : ℕ)
      → IsSound (w.sets t)
      → IsConsistent w
      → ((v : View) → calls v (visibility w t) ≡ of_set (w.views v).owner t)
        × All (IsRight w t) (visibility w t)
  unfolding visibility
  visibility-AllRight w t s c = (
    λ v.
        calls-show_from w t (w.sets t).max_tags 1 (fullscreen_view w t) v c
        ∙ owner_in_range w t v s c,
    show_from-AllRight w t (w.sets t).max_tags 1 s c,
  )
