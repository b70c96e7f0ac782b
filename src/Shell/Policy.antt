-- ===== src/Shell/Policy.antt =====
-- src/shell/policy.c: where a floating window may stand.
pub mod Inside
use leme.Base.{Bool, true, false, ◌||◌, ◌&&◌, not, if◌then◌else◌}
use leme.Base.Int.{ℤ, pos, ◌+ℤ◌, ◌-ℤ◌, ltb_ℤ, eqb_ℤ, int_max, int_min, half}
use leme.Base.Floats.{Floats}
use leme.Box.{Box}

unfoldable pub saturate : ℤ → ℤ
saturate v = if ltb_ℤ int_max v then int_max else if ltb_ℤ v int_min then int_min else v

unfoldable pub fixed_size : ℤ → ℤ → ℤ → ℤ → Bool
fixed_size min_width min_height max_width max_height =
    ltb_ℤ (pos 0) min_width
    && ltb_ℤ (pos 0) min_height
    && eqb_ℤ max_width min_width
    && eqb_ℤ max_height min_height

-- The size of the box on one axis, at most that of the area.
unfoldable pub clamp_extent : ℤ → ℤ → ℤ
clamp_extent extent limit =
    if ltb_ℤ extent (pos 1) then pos 1 else if ltb_ℤ limit extent then limit else extent

-- Its position on one axis: moved back inside at either end.
unfoldable pub clamp_origin : ℤ → ℤ → ℤ → ℤ → ℤ
clamp_origin origin extent from limit =
    if ltb_ℤ origin from
    then from
    else if ltb_ℤ (from +ℤ limit) (origin +ℤ extent)
    then saturate (from +ℤ limit -ℤ extent)
    else origin

unfoldable pub no_area : Box → Bool
no_area area = ltb_ℤ area.width (pos 1) || ltb_ℤ area.height (pos 1)

unfoldable pub clamp_box : Box → Box → Box
clamp_box box area =
    let w = clamp_extent box.width area.width in
    let h = clamp_extent box.height area.height in
    if no_area area then box else record {
      x = clamp_origin box.x w area.x area.width;
      y = clamp_origin box.y h area.y area.height;
      width = w;
      height = h;
    }

unfoldable pub center_origin : ℤ → ℤ → ℤ → ℤ
center_origin origin length extent = saturate (origin +ℤ half (length -ℤ extent))

unfoldable pub center_box : Box → Box → Box → Box
center_box box anchor area =
    let a = if no_area anchor then area else anchor in
    let w = clamp_extent box.width area.width in
    let h = clamp_extent box.height area.height in
    if no_area area
    then box
    else clamp_box
        (record {
          x = center_origin a.x a.width w;
          y = center_origin a.y a.height h;
          width = w;
          height = h;
        })
        area

unfoldable pub requested_box : Box → Box → Bool → Box
requested_box requested area unmanaged = if unmanaged then requested else clamp_box requested area

-- `isfinite` and `llround` are the C library's.
module _ (R : Floats) (is_finite : R.F → Bool) (llround : R.F → ℤ) where
  open R use {F, of_int, mul, div}

  unfoldable pub fraction : ℤ → ℤ → ℤ → F
  fraction origin from length =
      let ratio = div (of_int (origin -ℤ from)) (of_int length) in
      if ltb_ℤ (pos 0) length && is_finite ratio then ratio else of_int (pos 0)

  unfoldable pub reanchor_box : Box → Box → Box → Box
  reanchor_box box from to =
      clamp_box
        (record box {
          x = saturate (to.x +ℤ llround (mul (fraction box.x from.x from.width) (of_int to.width)));
          y =
              saturate
                (to.y +ℤ llround (mul (fraction box.y from.y from.height) (of_int to.height)));
        })
        to
