-- ===== src/Layout/Arrange/Fits.antt =====
-- src/workspace/layout.c: one split of `leme_layout_arrange_node`.
use leme.Base.{◌≡◌, ◌⊎◌, inl, inr, Bool-cases, arith, refl, ◌∙◌}
use leme.Base.Int.{
  ℤ, pos, ◌+ℤ◌, ◌-ℤ◌, ◌≤ℤ◌, ltb_ℤ, +ℤ_parts, -ℤ_parts, ltb_ℤ→le, eq_of_parts, int_laws,
}
use leme.Base.Floats.{Floats}
use leme.Box.{Box, HasArea, Within, Apart}
use leme.Layout.Node.{Split, horizontal, vertical, Branch}
use leme.Layout.Arrange.{Cut, split_gap, clamp_first, cut_at, extent_of, first_box, second_box, cut}

pub record CutFits (extent : ℤ) (c : Cut) : Type 0 where
  pub first_positive : pos 1 ≤ℤ c.first_size
  pub second_positive : pos 1 ≤ℤ c.second_size
  pub offset_nonneg : pos 0 ≤ℤ c.second_offset
  pub first_fits : c.first_size ≤ℤ extent
  pub second_fits : c.second_offset +ℤ c.second_size ≤ℤ extent

split_gap_bounds :
    (e g : ℤ) → pos 0 ≤ℤ g → (pos 0 ≤ℤ split_gap e g) × (pos 2 ≤ℤ e → split_gap e g +ℤ pos 2 ≤ℤ e)
unfolding split_gap ltb_ℤ
split_gap_bounds e g h = (
  ground (arith, -ℤ_parts e (pos 2)),
  λ k. ground (arith, -ℤ_parts e (pos 2), +ℤ_parts g (pos 2), +ℤ_parts (pos 0) (pos 2)),
)

split_gap_small : (e g : ℤ) → pos 0 ≤ℤ g → e ≤ℤ pos 1 → split_gap e g ≡ pos 0
unfolding split_gap ltb_ℤ
split_gap_small e g h k = ground (arith, -ℤ_parts e (pos 2))

module _ (e a g s : ℤ) (one : pos 1 ≤ℤ a) (gap : pos 0 ≤ℤ g) (room : (g ≡ pos 0) ⊎ (pos 2 ≤ℤ a))
    (sum : a +ℤ g ≤ℤ e) where
  cut_at-CutFits : CutFits e (cut_at a g s)
  unfolding cut_at clamp_first ltb_ℤ
  cut_at-CutFits = record {
    first_positive = grind (arith, +ℤ_parts, -ℤ_parts);
    second_positive = grind (arith, +ℤ_parts, -ℤ_parts);
    offset_nonneg = grind (arith, +ℤ_parts, -ℤ_parts);
    first_fits = grind (arith, +ℤ_parts, -ℤ_parts);
    second_fits = grind (arith, +ℤ_parts, -ℤ_parts);
  }

  -- With two pixels the parts share nothing, and with the gap they make up the whole.
  cut_at_exact :
      pos 2 ≤ℤ a
      → (cut_at a g s).first_size +ℤ g ≡ (cut_at a g s).second_offset
        × (cut_at a g s).second_offset +ℤ (cut_at a g s).second_size ≡ a +ℤ g
  unfolding cut_at clamp_first ltb_ℤ
  cut_at_exact h =
      (grind (arith, +ℤ_parts, -ℤ_parts), grind (arith, +ℤ_parts, -ℤ_parts, eq_of_parts))

split_gap_facts :
    (e g : ℤ)
    → pos 1 ≤ℤ e
    → pos 0 ≤ℤ g
    → (pos 0 ≤ℤ split_gap e g)
      × (pos 1 ≤ℤ e -ℤ split_gap e g)
      × ((split_gap e g ≡ pos 0) ⊎ (pos 2 ≤ℤ e -ℤ split_gap e g))
      × (pos 2 ≤ℤ e → pos 2 ≤ℤ e -ℤ split_gap e g)
unfolding split_gap
split_gap_facts e g h k = elim (Bool-cases (ltb_ℤ (e -ℤ pos 2) g)) [
  | inl p ↦ rw p (omega int_laws, omega int_laws, inl refl, λ m. omega int_laws)
  | inr p ↦
      let q = ltb_ℤ→le _ _ p in rw p (k, omega int_laws, inr (omega int_laws), λ m. omega int_laws)
]

sum_back : (e g : ℤ) → e -ℤ g +ℤ g ≡ e
sum_back e g = omega int_laws

module _ (R : Floats) (b : Branch R.F) (box : Box) (gap : ℤ) (gap_nonneg : pos 0 ≤ℤ gap) where
  abbrev extent : ℤ
  extent = extent_of b.split box

  pub cut-CutFits :
      pos 1 ≤ℤ extent_of b.split box → CutFits (extent_of b.split box) (cut R b box gap)
  unfolding cut
  cut-CutFits h =
      let (g, a, r, _) = split_gap_facts (extent_of b.split box) gap h gap_nonneg in
      cut_at-CutFits (extent_of b.split box) _ _ _ a g r (omega int_laws)

  -- With two pixels along the split and no negative gap, the first child, the gap that is allowed
  -- and the second child make up the box.
  pub cut_exact :
      pos 2 ≤ℤ extent_of b.split box
      → ((cut R b box gap).first_size +ℤ split_gap (extent_of b.split box) gap
          ≡ (cut R b box gap).second_offset)
        × ((cut R b box gap).second_offset +ℤ (cut R b box gap).second_size ≡ extent_of b.split box)
  unfolding cut
  cut_exact h =
      let (g, a, r, m) = split_gap_facts (extent_of b.split box) gap (omega arith) gap_nonneg in
      let (p, q) =
        cut_at_exact (extent_of b.split box)
          (extent_of b.split box -ℤ split_gap (extent_of b.split box) gap) _ _ a g r
          (omega int_laws) (m h) in
      (p, q ∙ sum_back (extent_of b.split box) (split_gap (extent_of b.split box) gap))

module _ (box : Box) (c : Cut) where
  pub first-Within :
      (s : Split)
      → HasArea box
      → CutFits (extent_of s box) c
      → HasArea (first_box s c box) × Within (first_box s c box) box
  unfolding extent_of first_box
  first-Within horizontal h f = (omega int_laws, omega int_laws)
  first-Within vertical h f = (omega int_laws, omega int_laws)

  pub second-Within :
      (s : Split)
      → HasArea box
      → CutFits (extent_of s box) c
      → HasArea (second_box s c box) × Within (second_box s c box) box
  unfolding extent_of second_box
  second-Within horizontal h f = (omega int_laws, omega int_laws)
  second-Within vertical h f = (omega int_laws, omega int_laws)

  pub parts-Apart :
      (s : Split) → c.first_size ≤ℤ c.second_offset → Apart (first_box s c box) (second_box s c box)
  unfolding first_box second_box
  parts-Apart horizontal h = inl (omega int_laws)
  parts-Apart vertical h = inr (inr (inl (omega int_laws)))
