-- ===== src/Examples/Numbers.antt =====
-- Numbers with two decimals in the place of `double`.
use leme.Base.{◌≡◌, refl, true, false, arith}
use leme.Base.Int.{
  ℤ, pos, pos_part, ◌+ℤ◌, ◌-ℤ◌, ◌*ℤ◌, div_by, ltb_ℤ, eqb_ℤ, ltb_ℤ→lt, ltb_ℤ→le, lt→ltb_ℤ, le→ltb_ℤ,
  +ℤ_parts,
}
use leme.Base.Floats.{Floats, ComparesNumbers, IsOrdered}

abbrev pub hundredths : Floats
hundredths = record {
  F = ℤ;
  of_int = λ n. n *ℤ pos 100;
  to_int = λ f. div_by f 100;
  add = λ a b. a +ℤ b;
  sub = λ a b. a -ℤ b;
  mul = λ a b. div_by (a *ℤ b) 100;
  div = λ a b. div_by (a *ℤ pos 100) (pos_part b);
  lt = λ a b. ltb_ℤ a b;
  le = λ a b. ltb_ℤ a (b +ℤ pos 1);
  eq = λ a b. eqb_ℤ a b;
  tenth = pos 10;
  one_half = pos 50;
  nine_tenths = pos 90;
  largest = pos 1000000000000;
}

irreflexive : (a : ℤ) → ltb_ℤ a a ≡ false
irreflexive a = le→ltb_ℤ a a (omega arith)

number : (a : ℤ) → ltb_ℤ a (a +ℤ pos 1) ≡ true
number a = lt→ltb_ℤ a _ (omega (arith, +ℤ_parts a (pos 1)))

total : (a b : ℤ) → ltb_ℤ a b ≡ false → ltb_ℤ b (a +ℤ pos 1) ≡ true
total a b h = lt→ltb_ℤ b _ (omega (arith, +ℤ_parts a (pos 1), ltb_ℤ→le a b h))

pub hundredths-ComparesNumbers : ComparesNumbers hundredths
unfolding ltb_ℤ ◌+ℤ◌
hundredths-ComparesNumbers = record {
  tenth_number = refl;
  nine_tenths_number = refl;
  tenth_le_nine_tenths = refl;
  number_of_le = λ a b h. number b;
  total = λ a b p q h. total a b h;
  add_quotient =
      λ r n d p q. number (r +ℤ div_by (n *ℤ pos 100 *ℤ pos 100) (pos_part (d *ℤ pos 100)));
  sub_quotient =
      λ r n d p q. number (r -ℤ div_by (n *ℤ pos 100 *ℤ pos 100) (pos_part (d *ℤ pos 100)));
}

pub hundredths-IsOrdered : IsOrdered hundredths
hundredths-IsOrdered = record {
  irreflexive = irreflexive;
  transitive = λ a b c p q. lt→ltb_ℤ a c (omega (arith, ltb_ℤ→lt a b p, ltb_ℤ→lt b c q));
}
