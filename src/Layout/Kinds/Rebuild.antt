-- ===== src/Layout/Kinds/Rebuild.antt =====
-- src/workspace/layout.c: `leme_layout_set_kind`, seen from the order of the windows.
use mathlib.Core.List.{append_assoc}
use leme.Base.{
  ℕ, if◌then◌else◌, true, false, Option, none, some, List, [], ◌∷◌, ◌++◌, map, ◌≡◌, refl, sym, ◌∙◌,
  ◌⊎◌, inl, inr, arith, Bool-cases, ==-refl,
}
use leme.Layout.View.{View, null}
use leme.Layout.Sequence.{
  contains, insert_second, insert_beside, insert_beside_split, Unrepeated, Unrepeated-apart,
}
use leme.Layout.Node.{Node, order}
use leme.Layout.Tree.{insert}
use leme.Layout.Tree.Order.{insert-order}
use leme.Layout.Kinds.{Kind, dwindle, same_kind, Layout, Alloc, rebuild, set_kind}

abbrev pub view_of : View × Alloc → View
view_of e = e.0

-- Every call of `calloc` succeeds.
abbrev pub Allocated : List (View × Alloc) → Type 0
Allocated [] = Unit
Allocated ((v, (a, b)) ∷ rest) =
    ((x : ℕ) × (a ≡ some x)) × ((x : ℕ) × (b ≡ some x)) × Allocated rest

fresh :
    (pre : List View) (p : View) (rest : List View)
    → Unrepeated (pre ++ (p ∷ rest))
    → contains p pre ≡ false
unfolding contains
fresh pre p rest u = Unrepeated-apart p pre (p ∷ rest) u (ground (arith, ==-refl p))

module _ {F : Type 0} (half : F) where
  rebuild-order :
      (root : Option (Node F)) (pre : List View) (previous : View) (rest : List (View × Alloc))
      → order root ≡ pre ++ (previous ∷ [])
      → Unrepeated (pre ++ (previous ∷ map view_of rest))
      → Allocated rest
      → order (rebuild half root previous rest) ≡ pre ++ (previous ∷ map view_of rest)
  unfolding rebuild
  rebuild-order root pre previous [] e u a = e
  rebuild-order root pre previous ((v, (a, b)) ∷ rest) e u ((x, p), (y, q), ok) =
      rw (p, q)
        (rebuild-order (insert half root previous v (some x) (some y)) (pre ++ (previous ∷ [])) v
            rest
            (insert-order half root previous v x y
              ∙ rw e (
                  insert_beside_split previous v pre []
                    (fresh pre previous (map view_of ((v, (a, b)) ∷ rest)) u))
              ∙ sym (append_assoc pre (previous ∷ []) (v ∷ [])))
            (rw (append_assoc pre (previous ∷ []) (v ∷ map view_of rest)) u) ok
          ∙ append_assoc pre (previous ∷ []) (v ∷ map view_of rest))

  rebuild_first :
      (views : List (View × Alloc))
      → Unrepeated (map view_of views)
      → Allocated views
      → order (rebuild half none null views) ≡ map view_of views
  unfolding rebuild
  rebuild_first [] u ok = unfold order in refl
  rebuild_first ((v, (a, b)) ∷ rest) u ((x, p), (y, q), ok) =
      rw (p, q)
        (rebuild-order (insert half none null v (some x) (some y)) [] v rest
          (insert-order half none null v x y
            ∙ unfold order insert_beside contains insert_second in refl)
          u ok)

  -- Changing to the dwindle layout gives a tree with the windows in the order of the list, if no
  -- window is in it twice and there is memory. Another new kind has no tree, and the same kind
  -- changes nothing.
  pub set_kind-order :
      (layout : Layout F) (kind : Kind) (views : List (View × Alloc))
      → Unrepeated (map view_of views)
      → Allocated views
      → ((same_kind layout.kind kind ≡ true) × (set_kind half layout kind views ≡ layout))
        ⊎ ((set_kind half layout kind views).kind ≡ kind)
          × (order (set_kind half layout kind views).root
              ≡ (if same_kind kind dwindle then map view_of views else []))
  unfolding set_kind order
  set_kind-order layout kind views u ok = elim (Bool-cases (same_kind layout.kind kind)) [
    | inl e ↦ inl (e, rw e)
    | inr e ↦ elim (Bool-cases (same_kind kind dwindle)) [
      | inl d ↦ rw (e, d) (inr (refl, rebuild_first views u ok))
      | inr d ↦ rw (e, d) (inr (refl, refl))
    ]
  ]
