-- ===== src/Tags/Arranged/Layouts.antt =====
-- src/workspace/tag.c: the kind of the focused tag's layout after it was set, and after a turn of all kinds.
use leme.Base.{
  ℕ, not, Bool, true, false, Option, none, some, List, [], ◌≡◌, ◌⊎◌, inl, inr, refl, arith, ap, ◌∙◌,
  sym, subst, if_cases,
}
use leme.Layout.View.{View}
use leme.Layout.Kinds.{Kind, dwindle, master_stack, accordion, same_kind, Layout, Alloc, set_kind}
use leme.Tags.{Tag}
use leme.Tags.World.{World, map_slot, edit_set, edit_slot, edit_tag}
use leme.Tags.Visible.{current}
use leme.Tags.Arranged.{
  is_empty, with_memory, next_kind, tiled_views, change_kind, set_layout_of, set_layout,
  cycle_layout_of, cycle_layout, kind_of, layout_kind,
}

same_kind-eq : (a b : Kind) → same_kind a b ≡ true → a ≡ b
unfolding same_kind
same_kind-eq dwindle dwindle h = refl
same_kind-eq master_stack master_stack h = refl
same_kind-eq accordion accordion h = refl
same_kind-eq dwindle master_stack h = absurd (ground (arith, h))
same_kind-eq dwindle accordion h = absurd (ground (arith, h))
same_kind-eq master_stack dwindle h = absurd (ground (arith, h))
same_kind-eq master_stack accordion h = absurd (ground (arith, h))
same_kind-eq accordion dwindle h = absurd (ground (arith, h))
same_kind-eq accordion master_stack h = absurd (ground (arith, h))

-- The order in which the layouts take turns.
pub data Follows : Kind → Kind → Type 0 where
  to_master_stack : Follows dwindle master_stack
  to_accordion : Follows master_stack accordion
  to_dwindle : Follows accordion dwindle

module _ {F : Type 0} (half : F) where
  kind-set_kind :
      (layout : Layout F) (kind : Kind) (views : List (View × Alloc))
      → (set_kind half layout kind views).kind ≡ kind
  unfolding set_kind
  kind-set_kind layout kind views =
      if_cases {A = Layout F} (λ l. l.kind ≡ kind) (same_kind layout.kind kind) _ _
        (same_kind-eq layout.kind kind)
        (λ e.
          if_cases {A = Layout F} (λ l. l.kind ≡ kind) (not (same_kind kind dwindle)) _ _
            (λ f. refl) (λ f. refl))

  abbrev Turned : Tag F → Kind → Tag F × Bool → Type 0
  Turned tag kind r = ((r.1 ≡ true) × (r.0.layout.kind ≡ kind)) ⊎ ((r.1 ≡ false) × (r.0 ≡ tag))

  change_kind-Turned :
      (memory : Bool) (allocs : List Alloc) (w : World F) (kind : Kind) (tag : Tag F)
      → Turned tag kind (change_kind half memory allocs w kind tag)
  unfolding change_kind
  change_kind-Turned memory allocs w kind tag =
      if_cases (Turned tag kind) (is_empty (tiled_views w tag)) _ _
        (λ e. inl (refl, kind-set_kind tag.layout kind []))
        (λ e.
          if_cases (Turned tag kind) memory _ _
            (λ f.
              inl (refl, kind-set_kind tag.layout kind (with_memory (tiled_views w tag) allocs)))
            (λ f. inr (refl, refl)))

  kind-edit_tag :
      (w : World F) (t : ℕ) (old tag : Tag F)
      → current (w.sets t) ≡ some old
      → layout_kind (edit_tag w t (w.sets t).focused_id (λ x. tag)) t ≡ tag.layout.kind
  unfolding layout_kind kind_of current edit_tag edit_set edit_slot map_slot
  kind-edit_tag w t old tag e = ground (arith, e)

  same_layout :
      (w : World F) (t : ℕ) (tag : Tag F)
      → current (w.sets t) ≡ some tag
      → layout_kind w t ≡ tag.layout.kind
  unfolding layout_kind kind_of
  same_layout w t tag e = ap kind_of e

  -- `done` says that the layout has the kind; else it has the kind that it had.
  abbrev pub HasKind : World F → ℕ → Kind → World F × Bool → Type 0
  HasKind w t kind r =
      ((r.1 ≡ true) × (layout_kind r.0 t ≡ kind))
      ⊎ ((r.1 ≡ false) × (layout_kind r.0 t ≡ layout_kind w t))

  set_layout_of-HasKind :
      (memory : Bool) (allocs : List Alloc) (w : World F) (t : ℕ) (kind : Kind) (o : Option (Tag F))
      → current (w.sets t) ≡ o
      → HasKind w t kind (set_layout_of half memory allocs w t kind o)
  unfolding set_layout_of
  set_layout_of-HasKind memory allocs w t kind none e = inr (refl, refl)
  set_layout_of-HasKind memory allocs w t kind (some tag) e =
      if_cases (HasKind w t kind) (same_kind tag.layout.kind kind) _ _
        (λ f. inl (refl, same_layout w t tag e ∙ same_kind-eq tag.layout.kind kind f))
        (λ f. elim (change_kind-Turned memory allocs w kind tag) [
          | inl p ↦ inl (p.0, kind-edit_tag w t tag _ e ∙ p.1)
          | inr p ↦ inr (
            p.0,
            kind-edit_tag w t tag _ e ∙ ap (λ x. x.layout.kind) p.1 ∙ sym (same_layout w t tag e),
          )
        ])

  pub set_layout-HasKind :
      (memory : Bool) (allocs : List Alloc) (w : World F) (t : ℕ) (kind : Kind)
      → HasKind w t kind (set_layout half memory allocs w t kind)
  unfolding set_layout
  set_layout-HasKind memory allocs w t kind = set_layout_of-HasKind memory allocs w t kind _ refl

  cycle_layout_of-HasKind :
      (memory : Bool) (allocs : List Alloc) (w : World F) (t : ℕ) (o : Option (Tag F))
      → current (w.sets t) ≡ o
      → HasKind w t (next_kind (layout_kind w t)) (cycle_layout_of half memory allocs w t o)
  unfolding cycle_layout_of
  cycle_layout_of-HasKind memory allocs w t none e = inr (refl, refl)
  cycle_layout_of-HasKind memory allocs w t (some tag) e =
      subst
        (λ k.
          HasKind w t (next_kind k) (set_layout half memory allocs w t (next_kind tag.layout.kind)))
        (sym (same_layout w t tag e))
        (set_layout-HasKind memory allocs w t (next_kind tag.layout.kind))

  next_kind-Follows : (kind : Kind) → Follows kind (next_kind kind)
  unfolding next_kind
  next_kind-Follows dwindle = Follows.to_master_stack
  next_kind-Follows master_stack = Follows.to_accordion
  next_kind-Follows accordion = Follows.to_dwindle

  -- A turn to the next layout either succeeds, and the focused tag has the kind that follows its kind
  -- in the order dwindle, master stack, accordion, dwindle, or it fails and the kind is as before.
  pub cycle_layout-HasKind :
      (memory : Bool) (allocs : List Alloc) (w : World F) (t : ℕ)
      → (kind : Kind) × Follows (layout_kind w t) kind
        × HasKind w t kind (cycle_layout half memory allocs w t)
  unfolding cycle_layout
  cycle_layout-HasKind memory allocs w t = (
    next_kind (layout_kind w t),
    next_kind-Follows (layout_kind w t),
    cycle_layout_of-HasKind memory allocs w t _ refl,
  )
