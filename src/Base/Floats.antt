-- ===== src/Base/Floats.antt =====
-- The C `double`: a type with the operations that the sources use, which the model takes as a
-- parameter.
use leme.Base.Int.{ℤ, pos, ◌<ℤ◌}
use mathlib.Core.Bool.{Bool, true, false}
use mathlib.Core.Path.{◌≡◌}

pub record Floats : Type 1 where
  pub F : Type 0
  -- `(double)n`
  pub of_int : ℤ → F
  -- `(int)f`, towards zero
  pub to_int : F → ℤ
  pub add : F → F → F
  pub sub : F → F → F
  pub mul : F → F → F
  pub div : F → F → F
  pub lt : F → F → Bool
  pub le : F → F → Bool
  pub eq : F → F → Bool
  -- 0.1, 0.5 and 0.9
  pub tenth : F
  pub one_half : F
  pub nine_tenths : F
  -- the largest finite value
  pub largest : F

-- Not a NaN.
abbrev pub IsNumber : (R : Floats) → R.F → Type 0
IsNumber R a = R.le a a ≡ true

-- IEEE 754: comparisons with a NaN are false, those of two numbers are total, and an `int` over a
-- positive one is finite, so that adding it to a number or subtracting it gives a number.
pub record ComparesNumbers (R : Floats) : Type 0 where
  pub tenth_number : IsNumber R R.tenth
  pub nine_tenths_number : IsNumber R R.nine_tenths
  pub tenth_le_nine_tenths : R.le R.tenth R.nine_tenths ≡ true
  pub number_of_le : (a b : R.F) → R.le a b ≡ true → IsNumber R b
  pub total : (a b : R.F) → IsNumber R a → IsNumber R b → R.lt a b ≡ false → R.le b a ≡ true
  pub add_quotient :
      (r : R.F) (n d : ℤ)
      → IsNumber R r
      → pos 0 <ℤ d
      → IsNumber R (R.add r (R.div (R.of_int n) (R.of_int d)))
  pub sub_quotient :
      (r : R.F) (n d : ℤ)
      → IsNumber R r
      → pos 0 <ℤ d
      → IsNumber R (R.sub r (R.div (R.of_int n) (R.of_int d)))

-- `<` is a strict order, NaN included.
pub record IsOrdered (R : Floats) : Type 0 where
  pub irreflexive : (a : R.F) → R.lt a a ≡ false
  pub transitive : (a b c : R.F) → R.lt a b ≡ true → R.lt b c ≡ true → R.lt a c ≡ true
