-- ===== src/Layout/Columns/Master.antt =====
-- src/workspace/layout.c: the two columns of the master-stack layout.
use leme.Base.{◌≡◌, inl, inr, Bool-cases}
use leme.Base.Int.{ℤ, pos, ◌+ℤ◌, ◌-ℤ◌, ◌≤ℤ◌, ltb_ℤ, ltb_ℤ→le, int_laws, eq_of_parts}
use leme.Box.{Box, HasArea, Within}
use leme.Layout.Columns.{master_split, master_area, stack_area}

-- Whatever the ratio asks for, both columns have a pixel, lie in the area and apart from one
-- another, and with the gap make up its width.
pub record SharesArea (area : Box) (gap : ℤ) (master stack : Box) : Type 0 where
  pub master_has_area : HasArea master
  pub stack_has_area : HasArea stack
  pub master_within : Within master area
  pub stack_within : Within stack area
  pub gap_between : master.x +ℤ master.width +ℤ gap ≡ stack.x
  pub full_width : stack.x +ℤ stack.width ≡ area.x +ℤ area.width

master_split_bounds :
    (w g s : ℤ)
    → g +ℤ pos 2 ≤ℤ w
    → (pos 1 ≤ℤ master_split w g s) × (master_split w g s +ℤ g +ℤ pos 1 ≤ℤ w)
unfolding master_split
master_split_bounds w g s h = elim (Bool-cases (ltb_ℤ s (pos 1))) [
  | inl low ↦ rw low (omega int_laws, omega int_laws)
  | inr p ↦ rw p (elim (Bool-cases (ltb_ℤ (w -ℤ g -ℤ pos 1) s)) [
    | inl high ↦ rw high (omega int_laws, omega int_laws)
    | inr q ↦
        let a = ltb_ℤ→le _ _ p in let b = ltb_ℤ→le _ _ q in rw q (omega int_laws, omega int_laws)
  ])
]

-- With two pixels beside the gap the master and the stack column share the area, whatever share
-- the ratio asks for.
pub master_stack-SharesArea :
    (area : Box) (gap split : ℤ)
    → HasArea area
    → pos 0 ≤ℤ gap
    → gap +ℤ pos 2 ≤ℤ area.width
    → SharesArea area gap
        (master_area area (master_split area.width gap split))
        (stack_area area gap (master_split area.width gap split))
unfolding master_area stack_area
master_stack-SharesArea area gap split h g w =
    let (low, high) = master_split_bounds area.width gap split w in
    record {
      master_has_area = omega int_laws;
      stack_has_area = omega int_laws;
      master_within = omega int_laws;
      stack_within = omega int_laws;
      gap_between = eq_of_parts _ _ (omega int_laws);
      full_width = eq_of_parts _ _ (omega int_laws);
    }
