-- ===== src/Tags/Reload/Kept.antt =====
-- src/workspace/tag.c: new settings leave the views of the tags alone.
use leme.Base.{ℕ, zero, suc, ◌+◌, ◌==◌, Bool, Option, none, some, List, ◌≡◌, refl, if_cases}
use leme.Base.Floats.{Floats}
use leme.Layout.Kinds.{same_kind, Alloc, Kind}
use leme.Tags.{Tag, TagSettings, apply_settings}
use leme.Tags.World.{World, map_slot, edit_slot, edit_tag, views_of, members}
use leme.Tags.Move.Sound.{edit_tag-AllSound}
use leme.Tags.Move.Consistent.{same-IsConsistent}
use leme.Tags.Move.Whole.{IsWhole}
use leme.Tags.Arranged.{is_empty, tiled_views, change_kind}
use leme.Tags.Reload.{is_same, reload_tag, reload_from, reload}

module _ {F : Type 0} where
  slot-views :
      (f : Tag F → Tag F) (h : (tag : Tag F) → (f tag).views ≡ tag.views) (o : Option (Tag F))
      → views_of (map_slot f o) ≡ views_of o
  unfolding map_slot views_of
  slot-views f h none = refl
  slot-views f h (some tag) = h tag

  edit_slot-views :
      (w : World F) (t id : ℕ) (f : Tag F → Tag F) (i : ℕ)
      → ((tag : Tag F) → (f tag).views ≡ tag.views)
      → views_of ((edit_slot id f (w.sets t)).table i) ≡ members w t i
  unfolding edit_slot members
  edit_slot-views w t id f i h =
      if_cases {A = Option (Tag F)} (λ o. views_of o ≡ views_of ((w.sets t).table i)) (i == id) _ _
        (λ e. slot-views f h ((w.sets t).table i)) (λ e. refl)

  -- An edit of a tag that keeps its views.
  edit_tag-IsWhole :
      (w : World F) (t id : ℕ) (f : Tag F → Tag F)
      → IsWhole w
      → ((tag : Tag F) → (f tag).views ≡ tag.views)
      → IsWhole (edit_tag w t id f)
  unfolding edit_tag
  edit_tag-IsWhole w t id f (a, c) h = (
    edit_tag-AllSound w t id f a,
    same-IsConsistent w t (edit_slot id f) c (λ i. edit_slot-views w t id f i h),
  )

  views-change_kind :
      (half : F) (memory : Bool) (allocs : List Alloc) (w : World F) (kind : Kind) (tag : Tag F)
      → (change_kind half memory allocs w kind tag).0.views ≡ tag.views
  unfolding change_kind
  views-change_kind half memory allocs w kind tag =
      if_cases {A = Tag F × Bool} (λ r. r.0.views ≡ tag.views) (is_empty (tiled_views w tag)) _ _
        (λ e. refl)
        (λ e.
          if_cases {A = Tag F × Bool} (λ r. r.0.views ≡ tag.views) memory _ _ (λ f. refl)
            (λ f. refl))

module _ (R : Floats) where
  open R use {F, one_half}

  views-reload_tag :
      (memory : Bool) (allocs : List Alloc) (w : World F) (previous : Option (ℕ → TagSettings F))
      (next : ℕ → TagSettings F) (id : ℕ) (tag : Tag F)
      → (reload_tag R memory allocs w previous next id tag).views ≡ tag.views
  unfolding reload_tag apply_settings
  views-reload_tag memory allocs w previous next id tag =
      if_cases {A = Tag F} (λ x. x.views ≡ tag.views) (is_same R previous (next id) id) _ _
        (λ e. refl)
        (λ e.
          if_cases {A = Tag F} (λ x. x.views ≡ tag.views)
            (same_kind tag.layout.kind (next id).layout) _ _ (λ f. refl)
            (λ f. views-change_kind one_half memory allocs w (next id).layout tag))

  reload_from-IsWhole :
      (memory : ℕ → Bool) (allocs : ℕ → List Alloc) (previous : Option (ℕ → TagSettings F))
      (next : ℕ → TagSettings F) (t n id : ℕ) (w : World F)
      → IsWhole w
      → IsWhole (reload_from R memory allocs previous next t n id w)
  unfolding reload_from
  reload_from-IsWhole memory allocs previous next t zero id w h = h
  reload_from-IsWhole memory allocs previous next t (suc n) id w h =
      reload_from-IsWhole memory allocs previous next t n (id + 1)
        (edit_tag w t id (reload_tag R (memory id) (allocs id) w previous next id))
        (edit_tag-IsWhole w t id _ h (views-reload_tag (memory id) (allocs id) w previous next id))

  reload-IsWhole :
      (memory : ℕ → Bool) (allocs : ℕ → List Alloc) (previous : Option (ℕ → TagSettings F))
      (next : ℕ → TagSettings F) (t : ℕ) (w : World F)
      → IsWhole w
      → IsWhole (reload R memory allocs previous next t w)
  unfolding reload
  reload-IsWhole memory allocs previous next t w h =
      reload_from-IsWhole memory allocs previous next t (w.sets t).max_tags 1 w h
