-- ===== src/Shell/Policy/Inside.antt =====
-- src/shell/policy.c: clamping, centring and moving to another area.
use leme.Base.{Bool, false, ◌≡◌, refl, arith}
use leme.Base.Int.{
  ℤ, pos, ◌+ℤ◌, ◌-ℤ◌, ◌≤ℤ◌, ltb_ℤ, int_max, IsInt, half, int_laws, le→ltb_ℤ, +ℤ_parts, -ℤ_parts,
}
use leme.Base.Floats.{Floats}
use leme.Box.{Box, IsIntBox, HasArea, Within}
use leme.Shell.Policy.{
  saturate, clamp_extent, clamp_origin, no_area, clamp_box, center_origin, center_box,
  requested_box, reanchor_box,
}

clamp_extent_bounds : (e l : ℤ) → pos 1 ≤ℤ l → (pos 1 ≤ℤ clamp_extent e l) × (clamp_extent e l ≤ℤ l)
unfolding clamp_extent ltb_ℤ
clamp_extent_bounds e l h = ground arith

clamp_origin_bounds :
    (o e f l : ℤ)
    → pos 1 ≤ℤ e
    → e ≤ℤ l
    → IsInt f
    → IsInt l
    → (f ≤ℤ clamp_origin o e f l) × (clamp_origin o e f l +ℤ e ≤ℤ f +ℤ l)
unfolding clamp_origin saturate ltb_ℤ
clamp_origin_bounds o e f l p q i j = grind (arith, +ℤ_parts, -ℤ_parts)

clamp_extent_id : (e l : ℤ) → pos 1 ≤ℤ e → e ≤ℤ l → clamp_extent e l ≡ e
unfolding clamp_extent ltb_ℤ
clamp_extent_id e l p q = ground arith

clamp_origin_id : (o e f l : ℤ) → f ≤ℤ o → o +ℤ e ≤ℤ f +ℤ l → clamp_origin o e f l ≡ o
unfolding clamp_origin
clamp_origin_id o e f l p q = rw (le→ltb_ℤ o f p, le→ltb_ℤ (f +ℤ l) (o +ℤ e) q) refl

no_area-false : (b : Box) → HasArea b → no_area b ≡ false
unfolding no_area
no_area-false b h = rw (le→ltb_ℤ b.width (pos 1) h.wide, le→ltb_ℤ b.height (pos 1) h.high) refl

clamped :
    (box area : Box)
    → HasArea area
    → IsIntBox area
    → HasArea (clamp_box box area) × Within (clamp_box box area) area
unfolding clamp_box
clamped box area h i =
    let (w, w') = clamp_extent_bounds box.width area.width h.wide in
    let (k, k') = clamp_extent_bounds box.height area.height h.high in
    let x = clamp_origin_bounds box.x _ area.x area.width w w' i.x_fits i.width_fits in
    let y = clamp_origin_bounds box.y _ area.y area.height k k' i.y_fits i.height_fits in
    rw (no_area-false area h)
      (record { wide = w; high = k }, record { left = x.0; top = y.0; right = x.1; bottom = y.1 })

-- A box of at least a pixel each way that lies in the area is not changed by clamping it to the area.
pub clamp_box_unchanged :
    (box area : Box) → HasArea box → HasArea area → Within box area → clamp_box box area ≡ box
unfolding clamp_box
clamp_box_unchanged box area b h k =
    rw
      (
        no_area-false area h,
        clamp_extent_id box.width area.width b.wide (omega int_laws),
        clamp_extent_id box.height area.height b.high (omega int_laws),
        clamp_origin_id box.x box.width area.x area.width k.left k.right,
        clamp_origin_id box.y box.height area.y area.height k.top k.bottom,
      )
      refl

-- Whatever the box and its anchor, a box that was clamped to the area, centred in it, moved to it
-- from another area or placed in it as a managed window lies in the area; the clamped one has a
-- pixel each way. The area is not empty, and its members are `int`s.
pub policies-Within :
    (R : Floats) (is_finite : R.F → Bool) (llround : R.F → ℤ) (box anchor area : Box)
    → HasArea area
    → IsIntBox area
    → HasArea (clamp_box box area)
      × Within (clamp_box box area) area
      × Within (center_box box anchor area) area
      × Within (reanchor_box R is_finite llround box anchor area) area
      × Within (requested_box box area false) area
unfolding center_box reanchor_box requested_box
policies-Within R is_finite llround box anchor area h i = (
  (clamped box area h i).0,
  (clamped box area h i).1,
  rw (no_area-false area h) (clamped _ area h i).1,
  (clamped _ area h i).1,
  (clamped box area h i).1,
)

saturate_id : (v : ℤ) → IsInt v → saturate v ≡ v
unfolding saturate ltb_ℤ
saturate_id v h = ground arith

-- Half of the room left over on one axis.
abbrev pub margin : ℤ → ℤ → ℤ
margin length extent = half (length -ℤ extent)

margin_bounds : (l e : ℤ) → e ≤ℤ l → (pos 0 ≤ℤ margin l e) × (margin l e +ℤ e ≤ℤ l)
margin_bounds l e h = (omega int_laws, omega int_laws)

center_origin_inside :
    (o l e : ℤ)
    → e ≤ℤ l
    → IsInt o
    → o +ℤ l ≤ℤ int_max
    → pos 1 ≤ℤ e
    → center_origin o l e ≡ o +ℤ margin l e
unfolding center_origin
center_origin_inside o l e h i j k =
    let m = margin_bounds l e h in saturate_id _ (omega int_laws, omega int_laws)

-- A box that its anchor has room for stands in the middle of the anchor, its size unchanged, if
-- the anchor lies in the area and its far edges fit an `int`.
pub center_box_centered :
    (box anchor area : Box)
    → HasArea box
    → HasArea anchor
    → HasArea area
    → box.width ≤ℤ anchor.width
    → box.height ≤ℤ anchor.height
    → Within anchor area
    → IsIntBox anchor
    → anchor.x +ℤ anchor.width ≤ℤ int_max
    → anchor.y +ℤ anchor.height ≤ℤ int_max
    → center_box box anchor area ≡ record {
      x = anchor.x +ℤ margin anchor.width box.width;
      y = anchor.y +ℤ margin anchor.height box.height;
      width = box.width;
      height = box.height;
    }
unfolding center_box clamp_box
center_box_centered box anchor area b a r w h inside i fx fy =
    let mx = margin_bounds anchor.width box.width w in
    let my = margin_bounds anchor.height box.height h in
    rw
      (
        no_area-false area r,
        no_area-false anchor a,
        clamp_extent_id box.width area.width b.wide (omega int_laws),
        clamp_extent_id box.width area.width b.wide (omega int_laws),
        clamp_extent_id box.height area.height b.high (omega int_laws),
        clamp_extent_id box.height area.height b.high (omega int_laws),
        center_origin_inside anchor.x anchor.width box.width w i.x_fits fx b.wide,
        center_origin_inside anchor.y anchor.height box.height h i.y_fits fy b.high,
        clamp_origin_id (anchor.x +ℤ margin anchor.width box.width) box.width area.x area.width
            (omega int_laws) (omega int_laws),
        clamp_origin_id (anchor.y +ℤ margin anchor.height box.height) box.height area.y area.height
            (omega int_laws) (omega int_laws),
      )
      refl
