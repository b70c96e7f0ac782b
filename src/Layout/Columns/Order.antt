-- ===== src/Layout/Columns/Order.antt =====
-- src/workspace/layout.c: the windows that the column layouts place.
use leme.Base.{
  ℕ, zero, suc, ◌+◌, ◌==◌, true, List, [], ◌∷◌, ◌++◌, map, ◌≡◌, refl, sym, ap, ap₂, ◌∙◌, arith,
  length, take, drop, Bool-cases, inl, inr,
}
use mathlib.Core.List.{map-append}
use leme.Base.Int.{ℤ, pos}
use leme.Base.Floats.{Floats}
use leme.Box.{Box}
use leme.Layout.View.{View}
use leme.Layout.Arrange.Boxes.{view_of}
use leme.Layout.Columns.{
  column_from, arrange_column, master_count, arrange_master_stack, accordion_from,
  arrange_accordion,
}

column_from-views :
    (count : ℕ) (available : ℤ) (area : Box) (gap : ℤ) (index : ℕ) (offset : ℤ) (vs : List View)
    → map view_of (column_from count available area gap index offset vs) ≡ vs
unfolding column_from
column_from-views count available area gap index offset [] = refl
column_from-views count available area gap index offset (v ∷ vs) =
    ap (◌∷◌ v) (column_from-views count available area gap (index + 1) _ vs)

arrange_column-views :
    (vs : List View) (area : Box) (gap : ℤ) → map view_of (arrange_column vs area gap) ≡ vs
unfolding arrange_column
arrange_column-views [] area gap = refl
arrange_column-views (v ∷ vs) area gap = column_from-views _ _ area gap 0 (pos 0) (v ∷ vs)

accordion_from-views :
    (expanded : ℕ) (wide collapse : ℤ) (area : Box) (gap : ℤ) (index : ℕ) (offset : ℤ)
    (vs : List View)
    → map view_of (accordion_from expanded wide collapse area gap index offset vs) ≡ vs
unfolding accordion_from
accordion_from-views expanded wide collapse area gap index offset [] = refl
accordion_from-views expanded wide collapse area gap index offset (v ∷ vs) =
    ap (◌∷◌ v) (accordion_from-views expanded wide collapse area gap (index + 1) _ vs)

take-drop : (n : ℕ) (vs : List View) → take n vs ++ drop n vs ≡ vs
take-drop zero vs = refl
take-drop (suc n) [] = refl
take-drop (suc n) (v ∷ vs) = ap (◌∷◌ v) (take-drop n vs)

length-zero : (vs : List View) → length vs == 0 ≡ true → vs ≡ []
length-zero [] e = refl
length-zero (v ∷ vs) e = absurd (ground arith)

-- The master-stack layout places each window once, in order, whatever the settings.
pub arrange_master_stack-views :
    (R : Floats) (nmaster : ℕ) (mfact : R.F) (vs : List View) (area : Box) (gap : ℤ)
    → map view_of (arrange_master_stack R nmaster mfact vs area gap) ≡ vs
unfolding arrange_master_stack
arrange_master_stack-views R nmaster mfact vs area gap = elim (Bool-cases (length vs == 0)) [
  | inl none_left ↦ rw none_left ((sym (length-zero vs none_left)))
  | inr more ↦ rw more (elim (Bool-cases (master_count nmaster (length vs) == length vs)) [
    | inl all ↦ rw all (arrange_column-views vs area gap)
    | inr some_stack ↦ rw some_stack (
        map-append _ _ _
        ∙ ap₂ ◌++◌ (arrange_column-views (take (master_count nmaster (length vs)) vs) _ gap)
            (arrange_column-views (drop (master_count nmaster (length vs)) vs) _ gap)
        ∙ take-drop (master_count nmaster (length vs)) vs)
  ])
]

-- The accordion places each window once, in order, whatever the settings and the focus.
pub arrange_accordion-views :
    (collapse_width : ℤ) (vs : List View) (focused : View) (area : Box) (gap : ℤ)
    → map view_of (arrange_accordion collapse_width vs focused area gap) ≡ vs
unfolding arrange_accordion
arrange_accordion-views collapse_width vs focused area gap =
    accordion_from-views _ _ _ area gap 0 (pos 0) vs
