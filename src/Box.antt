-- ===== src/Box.antt =====
-- src/core/leme.h: the rectangle that every component passes around.
use leme.Base.{◌⊎◌, arith}
use leme.Base.Int.{ℤ, pos, ◌+ℤ◌, ◌≤ℤ◌, IsInt, int_laws}

pub record Box : Type 0 where
  pub x : ℤ
  pub y : ℤ
  pub width : ℤ
  pub height : ℤ

-- The members fit a C `int`.
pub record IsIntBox (b : Box) : Type 0 where
  pub x_fits : IsInt b.x
  pub y_fits : IsInt b.y
  pub width_fits : IsInt b.width
  pub height_fits : IsInt b.height

-- At least one pixel each way.
pub record HasArea (b : Box) : Type 0 where
  pub wide : pos 1 ≤ℤ b.width
  pub high : pos 1 ≤ℤ b.height

-- `inner` lies within `outer`.
pub record Within (inner outer : Box) : Type 0 where
  pub left : outer.x ≤ℤ inner.x
  pub top : outer.y ≤ℤ inner.y
  pub right : inner.x +ℤ inner.width ≤ℤ outer.x +ℤ outer.width
  pub bottom : inner.y +ℤ inner.height ≤ℤ outer.y +ℤ outer.height

-- No pixel is in both.
abbrev pub Apart : Box → Box → Type 0
Apart a b =
    (a.x +ℤ a.width ≤ℤ b.x)
    ⊎ (b.x +ℤ b.width ≤ℤ a.x)
    ⊎ (a.y +ℤ a.height ≤ℤ b.y)
    ⊎ (b.y +ℤ b.height ≤ℤ a.y)

pub Within-refl : (a : Box) → Within a a
Within-refl a = omega arith

pub Within-trans : {a b c : Box} → Within a b → Within b c → Within a c
Within-trans p q = omega arith

pub Apart-Within : {a b c d : Box} → Within a b → Within c d → Apart b d → Apart a c
Apart-Within p q h = omega int_laws
