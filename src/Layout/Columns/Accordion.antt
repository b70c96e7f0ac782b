-- ===== src/Layout/Columns/Accordion.antt =====
-- src/workspace/layout.c: the widths of the accordion.
use native.Mathlib.Numerals.{add-one}
use leme.Base.{
  ℕ, zero, suc, ◌+◌, ◌-◌, ◌*◌, ◌≤◌, ◌<◌, ◌==◌, if◌then◌else◌, true, false, List, [], ◌∷◌, map, ◌≡◌,
  refl, sym, ap, ◌∙◌, arith, length, Bool-cases, inl, inr, ==→eq, ◌⊎◌, subst,
}
use leme.Base.Int.{
  ℤ, pos, ◌+ℤ◌, ◌-ℤ◌, ◌*ℤ◌, ◌≤ℤ◌, eq_of_parts, int_laws, mul_suc, mul_zero, ltb_ℤ, ltb_ℤ→lt,
  ltb_ℤ→le, le→ltb_ℤ, pos_part, neg_part, of_nonneg, *ℤ_parts,
}
use leme.Box.{Box}
use leme.Layout.View.{View}
use leme.Layout.Columns.{
  index_of, shrink, at_least_one, accordion_box, accordion_from, accordion_collapse,
  accordion_expanded, arrange_accordion,
}
use leme.Layout.Columns.Column.{Chained, last, more, across_axis}

-- Room for one pixel of the focused window beside the collapsed ones.
abbrev pub LeavesRoom : ℕ → ℤ → ℤ → ℕ → Type 0
LeavesRoom count total_gap width collapse =
    pos (count - 1) *ℤ pos collapse +ℤ total_gap +ℤ pos 1 ≤ℤ width

-- The greatest width up to `limit` that leaves room, or one pixel where none does.
pub record IsGreatest (count : ℕ) (total_gap width : ℤ) (limit m : ℕ) : Type 0 where
  pub positive : 1 ≤ m
  pub within : m ≤ limit
  pub room : (m ≡ 1) ⊎ LeavesRoom count total_gap width m
  pub none_wider :
      (wider : ℕ) → m < wider → wider ≤ limit → ¬ (LeavesRoom count total_gap width wider)

module _ (count : ℕ) (total_gap width : ℤ) (many : 1 < count) where
  shrink_stop :
      (c : ℕ)
      → ltb_ℤ width (pos (count - 1) *ℤ pos (suc (suc c)) +ℤ total_gap +ℤ pos 1) ≡ false
      → shrink count total_gap width (suc (suc c)) ≡ suc (suc c)
  unfolding shrink
  shrink_stop c e = ground arith

  shrink_on :
      (c : ℕ)
      → ltb_ℤ width (pos (count - 1) *ℤ pos (suc (suc c)) +ℤ total_gap +ℤ pos 1) ≡ true
      → shrink count total_gap width (suc (suc c)) ≡ shrink count total_gap width (suc c)
  unfolding shrink
  shrink_on c e = ground arith

  shrink_one : shrink count total_gap width 1 ≡ 1
  unfolding shrink
  shrink_one = ground arith

  -- With several windows the narrowing stops at the greatest width, up to the one it starts from,
  -- that leaves the focused window a pixel, and at one pixel where no width does.
  pub shrink-IsGreatest :
      (collapse : ℕ)
      → 1 ≤ collapse
      → IsGreatest count total_gap width collapse (shrink count total_gap width collapse)
  shrink-IsGreatest zero one = absurd (omega arith)
  shrink-IsGreatest (suc zero) one = rw shrink_one (record {
    positive = omega arith;
    within = omega arith;
    room = inl refl;
    none_wider = λ w p q. absurd (omega arith);
  })
  shrink-IsGreatest (suc (suc c)) one =
      let need = pos (count - 1) *ℤ pos (suc (suc c)) +ℤ total_gap +ℤ pos 1 in
      elim (Bool-cases (ltb_ℤ width need)) [
        | inl wide ↦
            let ih = shrink-IsGreatest (suc c) (omega arith) in
            let tight = ltb_ℤ→lt width need wide in
            rw (shrink_on c wide) (record {
              positive = ih.positive;
              within = omega (arith, ih.within);
              room = ih.room;
              none_wider = λ w p q. elim (Bool-cases (w == suc (suc c))) [
                | inl e ↦ rw (==→eq w _ e) (λ r. absurd (omega arith))
                | inr e ↦ ih.none_wider w p (ground arith)
              ];
            })
        | inr fits ↦ rw (shrink_stop c fits) (record {
          positive = omega arith;
          within = omega arith;
          room = inr (ltb_ℤ→le width need fits);
          none_wider = λ w p q. absurd (omega arith);
        })
      ]

index_of_bound :
    (focused : View) (index : ℕ) (v : View) (vs : List View)
    → index_of focused index (v ∷ vs) < index + length (v ∷ vs)
unfolding index_of
index_of_bound focused index v [] = ground arith
index_of_bound focused index v (w ∷ vs) = ground (arith, index_of_bound focused (index + 1) w vs)

module _ (count expanded collapse wide : ℕ) (area : Box) (gap : ℤ) (one : 1 ≤ collapse)
    (wide_one : 1 ≤ wide) (inside : expanded < count) where
  width_at : ℕ → ℕ
  width_at index = if index == expanded then wide else collapse

  before_at : ℕ → ℕ
  before_at zero = 0
  before_at (suc i) = before_at i + width_at i

  before_closed :
      (i : ℕ)
      → (i ≤ expanded → before_at i ≡ i * collapse)
        × (expanded < i → before_at i + collapse ≡ i * collapse + wide)
  unfolding before_at width_at
  before_closed zero = (λ h. omega arith, λ h. absurd (omega arith))
  before_closed (suc i) =
      let (low, high) = before_closed i in
      (
        λ h. ground (arith, low (omega arith)),
        λ h. elim (Bool-cases (i == expanded)) [
          | inl here ↦ ground (arith, low (ground arith), here)
          | inr there ↦ ground (arith, high (ground arith), there)
        ],
      )

  before_next : (i : ℕ) → before_at i + width_at i ≡ before_at (i + 1)
  unfolding before_at
  before_next i = rw add-one refl

  before_end : before_at count ≡ (count - 1) * collapse + wide
  before_end =
      let total = (before_closed count).1 inside in
      let split : count * collapse ≡ (count - 1) * collapse + collapse =
        subst (λ (t : ℕ). t * collapse ≡ (count - 1) * collapse + collapse) {x = count - 1 + 1}
          (omega arith) (omega arith) in
      omega arith

  abbrev edge_at : ℕ → ℤ
  edge_at index = area.x +ℤ pos (before_at index) +ℤ pos index *ℤ gap

  width_pos : (i : ℕ) → 1 ≤ width_at i
  unfolding width_at
  width_pos i = ground arith

  width_int : (i : ℕ) → (if i == expanded then pos wide else pos collapse) ≡ pos (width_at i)
  unfolding width_at
  width_int i = ground arith

  next_edge : (i : ℕ) → edge_at i +ℤ pos (width_at i) +ℤ gap ≡ edge_at (i + 1)
  next_edge i = rw (mul_suc i gap) (let n = before_next i in eq_of_parts _ _ (omega int_laws))

  accordion_from-Chained :
      (index : ℕ) (o start : ℤ) (v : View) (vs : List View)
      → index + length (v ∷ vs) ≡ count
      → o ≡ pos (before_at index)
      → start ≡ edge_at index
      → Chained gap
          (area.x +ℤ pos ((count - 1) * collapse + wide) +ℤ pos (count - 1) *ℤ gap)
          start
          (map across_axis
            (accordion_from expanded (pos wide) (pos collapse) area gap index o (v ∷ vs)))
  unfolding accordion_from accordion_box
  accordion_from-Chained index o start v [] e p q =
      let final : count - 1 ≡ index = omega arith in
      let whole : before_at index + width_at index ≡ (count - 1) * collapse + wide =
        before_next index ∙ ap before_at e ∙ before_end in
      let room = width_pos index in
      rw (p, q, width_int index, ← whole, final)
        (last refl (omega arith) (eq_of_parts _ _ (omega int_laws)))
  accordion_from-Chained index o start v (w ∷ vs) e p q =
      let room = width_pos index in
      let next = before_next index in
      more (rw p (sym q)) (rw (width_int index) (omega arith)) (
        accordion_from-Chained (index + 1) _ _ w vs (omega arith)
          (rw (width_int index, p) (eq_of_parts _ _ (omega int_laws)))
          (rw (width_int index, p) (next_edge index)))

shrink_alone : (total_gap width : ℤ) (collapse : ℕ) → shrink 1 total_gap width collapse ≡ collapse
unfolding shrink
shrink_alone total_gap width zero = refl
shrink_alone total_gap width (suc c) = refl

-- Where one pixel each leaves room, so does the width that the narrowing ends with.
shrink_room :
    (count : ℕ) (total_gap width : ℤ) (collapse : ℕ)
    → 1 ≤ count
    → 1 ≤ collapse
    → LeavesRoom count total_gap width 1
    → (1 ≤ shrink count total_gap width collapse)
      × LeavesRoom count total_gap width (shrink count total_gap width collapse)
shrink_room zero total_gap width collapse some one room = absurd (omega arith)
shrink_room (suc zero) total_gap width collapse some one room =
    rw (shrink_alone total_gap width collapse)
      (one, rw (mul_zero (pos collapse), ← mul_zero (pos 1)) room)
shrink_room (suc (suc k)) total_gap width collapse some one room =
    let g = shrink-IsGreatest (suc (suc k)) total_gap width (omega arith) collapse one in
    (g.positive, elim g.room [ inl e ↦ rw e room | inr r ↦ r ])

at_least_one_pos : (a : ℤ) → 1 ≤ pos_part (at_least_one a)
unfolding at_least_one
at_least_one_pos a = elim (Bool-cases (ltb_ℤ a (pos 1))) [
  | inl e ↦ rw e (omega arith)
  | inr e ↦ let h = ltb_ℤ→le a (pos 1) e in rw e (omega arith)
]

at_least_one_wide : (a : ℤ) → pos 1 ≤ℤ a → at_least_one a ≡ pos (pos_part a)
unfolding at_least_one
at_least_one_wide a h = rw (le→ltb_ℤ a (pos 1) h) (of_nonneg a (omega arith))

accordion_filled :
    (count m expanded : ℕ) (v : View) (vs : List View) (area : Box) (gap : ℤ)
    → 1 ≤ m
    → LeavesRoom count (pos (count - 1) *ℤ gap) area.width m
    → expanded < count
    → length (v ∷ vs) ≡ count
    → Chained gap (area.x +ℤ area.width) area.x (
        map across_axis (
          accordion_from expanded
            (accordion_expanded count m (pos (count - 1) *ℤ gap) area.width)
            (pos m)
            area
            gap
            0
            (pos 0)
            (v ∷ vs)))
unfolding accordion_expanded before_at
accordion_filled count m expanded v vs area gap positive room inside e =
    let tg = pos (count - 1) *ℤ gap in
    let rest = area.width -ℤ pos (count - 1) *ℤ pos m -ℤ tg in
    let one : pos 1 ≤ℤ rest = omega int_laws in
    let whole : rest ≡ pos (pos_part rest) = of_nonneg rest (omega arith) in
    let stop : area.x +ℤ pos ((count - 1) * m + pos_part rest) +ℤ tg ≡ area.x +ℤ area.width =
      eq_of_parts _ _ (
        omega
          (int_laws, ap pos_part whole, ap neg_part whole, *ℤ_parts (pos (count - 1)) (pos m))) in
    rw (at_least_one_wide rest one, ← stop)
      (accordion_from-Chained count expanded m (pos_part rest) area gap positive
        (omega (arith, ap pos_part whole, ap neg_part whole)) inside 0 (pos 0) area.x v vs
        (omega arith) refl (rw (mul_zero gap) (eq_of_parts _ _ (omega int_laws))))

-- With a pixel for each window and the gaps the accordion fills the width: from left to right
-- every window has a pixel, stands at the gap's distance from the one before it, and the last ends
-- where the area ends.
pub arrange_accordion-Chained :
    (collapse_width : ℤ) (v : View) (vs : List View) (focused : View) (area : Box) (gap : ℤ)
    → LeavesRoom (length (v ∷ vs)) (pos (length (v ∷ vs) - 1) *ℤ gap) area.width 1
    → Chained gap
        (area.x +ℤ area.width)
        area.x
        (map across_axis (arrange_accordion collapse_width (v ∷ vs) focused area gap))
unfolding arrange_accordion accordion_collapse
arrange_accordion-Chained collapse_width v vs focused area gap room =
    let count = length (v ∷ vs) in
    let asked = pos_part (at_least_one collapse_width) in
    let (positive, left) =
      shrink_room count (pos (count - 1) *ℤ gap) area.width asked (omega arith)
        (at_least_one_pos collapse_width) room in
    accordion_filled count _ (index_of focused 0 (v ∷ vs)) v vs area gap positive left
      (omega (arith, index_of_bound focused 0 v vs)) refl
