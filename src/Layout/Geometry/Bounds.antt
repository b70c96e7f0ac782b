-- ===== src/Layout/Geometry/Bounds.antt =====
-- src/workspace/layout.c: the range of a floating window's box after a move or a resize.
use leme.Base.{ℕ, Bool, true, false, ◌≡◌, refl, inl, inr, arith, Bool-cases}
use leme.Base.Int.{
  ℤ, pos, ◌+ℤ◌, ◌-ℤ◌, ◌≤ℤ◌, ltb_ℤ, ltb_ℤ→le, int_max, IsInt, int_laws, eq_of_parts, +ℤ_parts,
  -ℤ_parts,
}
use leme.Box.{Box}
use leme.Layout.Direction.{Direction}
use leme.Layout.Drag.{edges_valid, has_top, has_bottom, has_left, has_right}
use leme.Layout.Geometry.{
  saturate_origin, saturate_dimension, saturate_box, move_by, move_box, resize_axis, resize_box,
}

-- The position and, for an extent that is not negative, the far end fit an `int`.
abbrev pub AxisFits : ℤ → ℤ → Type 0
AxisFits position extent = IsInt position × (position +ℤ extent ≤ℤ int_max)

saturate_origin-AxisFits : (v e : ℤ) → pos 0 ≤ℤ e → e ≤ℤ int_max → AxisFits (saturate_origin v e) e
unfolding saturate_origin ltb_ℤ
saturate_origin-AxisFits v e h k = grind (arith, +ℤ_parts, -ℤ_parts)

saturate_origin_id : (v e : ℤ) → AxisFits v e → pos 0 ≤ℤ e → saturate_origin v e ≡ v
unfolding saturate_origin ltb_ℤ
saturate_origin_id v e h k = grind (arith, +ℤ_parts, -ℤ_parts)

pub record BoxFits (b : Box) : Type 0 where
  pub horizontal_fits : AxisFits b.x b.width
  pub vertical_fits : AxisFits b.y b.height
  pub width_nonneg : pos 0 ≤ℤ b.width
  pub height_nonneg : pos 0 ≤ℤ b.height

extent_bound : (p e : ℤ) → AxisFits p e → e ≤ℤ int_max +ℤ (int_max +ℤ pos 1)
extent_bound p e h = omega int_laws

-- A saturated box fits an `int`, far edges included, whatever position it had. Its size is not
-- negative and fits an `int` before.
pub saturate_box-BoxFits :
    (b : Box)
    → pos 0 ≤ℤ b.width
    → pos 0 ≤ℤ b.height
    → b.width ≤ℤ int_max
    → b.height ≤ℤ int_max
    → BoxFits (saturate_box b)
unfolding saturate_box
saturate_box-BoxFits b w h w' h' = record {
  horizontal_fits = saturate_origin-AxisFits b.x b.width w w';
  vertical_fits = saturate_origin-AxisFits b.y b.height h h';
  width_nonneg = w;
  height_nonneg = h;
}

-- A box that fits stays as it is.
pub saturate_box_unchanged : (b : Box) → BoxFits b → saturate_box b ≡ b
unfolding saturate_box
saturate_box_unchanged b f = ground (
  arith,
  saturate_origin_id b.x b.width f.horizontal_fits f.width_nonneg,
  saturate_origin_id b.y b.height f.vertical_fits f.height_nonneg,
)

horizontally :
    (b : Box) (x : ℤ)
    → BoxFits b
    → b.width ≤ℤ int_max
    → BoxFits (record b { x = saturate_origin x b.width })
horizontally b x f w = record {
  horizontal_fits = saturate_origin-AxisFits x b.width f.width_nonneg w;
  vertical_fits = f.vertical_fits;
  width_nonneg = f.width_nonneg;
  height_nonneg = f.height_nonneg;
}

vertically :
    (b : Box) (y : ℤ)
    → BoxFits b
    → b.height ≤ℤ int_max
    → BoxFits (record b { y = saturate_origin y b.height })
vertically b y f h = record {
  horizontal_fits = f.horizontal_fits;
  vertical_fits = saturate_origin-AxisFits y b.height f.height_nonneg h;
  width_nonneg = f.width_nonneg;
  height_nonneg = f.height_nonneg;
}

-- The box fits, and has the size of `b`.
pub record MovedFits (b c : Box) : Type 0 where
  pub fits : BoxFits c
  pub same_width : c.width ≡ b.width
  pub same_height : c.height ≡ b.height

move_by-MovedFits :
    (b : Box) (direction : Direction) (amount : ℤ)
    → BoxFits b
    → b.width ≤ℤ int_max
    → b.height ≤ℤ int_max
    → MovedFits b (move_by b direction amount)
unfolding move_by
move_by-MovedFits b Direction.left amount f w h = record {
  fits = horizontally b _ f w;
  same_width = refl;
  same_height = refl;
}
move_by-MovedFits b Direction.right amount f w h = record {
  fits = horizontally b _ f w;
  same_width = refl;
  same_height = refl;
}
move_by-MovedFits b Direction.up amount f w h = record {
  fits = vertically b _ f h;
  same_width = refl;
  same_height = refl;
}
move_by-MovedFits b Direction.down amount f w h = record {
  fits = vertically b _ f h;
  same_width = refl;
  same_height = refl;
}

-- A move keeps the size, and the box fits afterwards if it did before and its size fits an `int`.
pub move_box-MovedFits :
    (b : Box) (direction : Direction) (amount : ℤ)
    → BoxFits b
    → b.width ≤ℤ int_max
    → b.height ≤ℤ int_max
    → MovedFits b (move_box b direction amount)
unfolding move_box
move_box-MovedFits b direction amount f w h = elim (Bool-cases (ltb_ℤ (pos 0) amount)) [
  | inl e ↦ rw e (move_by-MovedFits b direction amount f w h)
  | inr e ↦ rw e (record { fits = f; same_width = refl; same_height = refl })
]

saturate_dimension_bounds :
    (v : ℤ) → (pos 1 ≤ℤ saturate_dimension v) × (saturate_dimension v ≤ℤ int_max)
unfolding saturate_dimension ltb_ℤ
saturate_dimension_bounds v = ground arith

-- The box fits, and its size is at least a pixel each way and fits an `int`.
pub record ResizedFits (c : Box) : Type 0 where
  pub fits : BoxFits c
  pub wide : pos 1 ≤ℤ c.width
  pub high : pos 1 ≤ℤ c.height
  pub width_fits : c.width ≤ℤ int_max
  pub height_fits : c.height ≤ℤ int_max

-- A resize by valid edges gives a box of at least one pixel each way whose position, size and far
-- edges all fit an `int`, however far it goes.
pub resize_box-ResizedFits :
    (b : Box) (edges : ℕ) (dx dy : ℤ)
    → edges_valid edges ≡ true
    → ResizedFits (resize_box b edges dx dy)
unfolding resize_box
resize_box-ResizedFits b edges dx dy valid =
    let (x, width) = resize_axis (has_left edges) (has_right edges) b.x b.width dx in
    let (y, height) = resize_axis (has_top edges) (has_bottom edges) b.y b.height dy in
    let (w, w') = saturate_dimension_bounds width in
    let (h, h') = saturate_dimension_bounds height in
    rw valid (record {
      fits = record {
        horizontal_fits = saturate_origin-AxisFits x (saturate_dimension width) (omega arith) w';
        vertical_fits = saturate_origin-AxisFits y (saturate_dimension height) (omega arith) h';
        width_nonneg = omega arith;
        height_nonneg = omega arith;
      };
      wide = w;
      high = h;
      width_fits = w';
      height_fits = h';
    })

-- Before saturation the edge that is not grabbed stays where it is: the far end for the low edge,
-- the near end for the high one, and both where neither is grabbed; the extent is at least one
-- wherever an edge is grabbed.
pub resize_axis_anchor :
    (low high : Bool) (position extent delta : ℤ)
    → let r = resize_axis low high position extent delta in
      (low ≡ true → (r.0 +ℤ r.1 ≡ position +ℤ extent) × (pos 1 ≤ℤ r.1))
      × (low ≡ false → high ≡ true → (r.0 ≡ position) × (pos 1 ≤ℤ r.1))
      × (low ≡ false → high ≡ false → (r.0 ≡ position) × (r.1 ≡ extent))
unfolding resize_axis
resize_axis_anchor true high position extent delta = (
  λ e. elim (Bool-cases (ltb_ℤ (position +ℤ extent -ℤ (position +ℤ delta)) (pos 1))) [
    | inl small ↦ rw small (eq_of_parts _ _ (omega int_laws), omega arith)
    | inr big ↦ let b = ltb_ℤ→le _ _ big in rw big (eq_of_parts _ _ (omega int_laws), b)
  ],
  λ e. absurd (cc e),
  λ e. absurd (cc e),
)
resize_axis_anchor false true position extent delta = (
  λ e. absurd (cc e),
  λ e f. elim (Bool-cases (ltb_ℤ (extent +ℤ delta) (pos 1))) [
    | inl small ↦ rw small (refl, omega arith)
    | inr big ↦ let b = ltb_ℤ→le _ _ big in rw big (refl, b)
  ],
  λ e f. absurd (cc f),
)
resize_axis_anchor false false position extent delta =
    (λ e. absurd (cc e), λ e f. absurd (cc f), λ e f. (refl, refl))
