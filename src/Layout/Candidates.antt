-- ===== src/Layout/Candidates.antt =====
-- src/workspace/layout.c: `leme_layout_directional_candidate` and `leme_layout_nearest_candidate`.
-- Distances are `long double`s, the parameter `R`; the coordinates of the pointer are converted
-- to them exactly.
pub mod Search
pub mod Nearest
use leme.Base.{
  ℕ, ◌==◌, ◌&&◌, ◌||◌, not, if◌then◌else◌, Bool, true, false, Option, none, some, List, [], ◌∷◌,
  ◌+◌,
}
use leme.Base.Int.{ℤ, pos, pos_part, neg_part, ◌+ℤ◌, ◌-ℤ◌, ◌*ℤ◌, ltb_ℤ}
use leme.Base.Floats.{Floats}
use leme.Box.{Box}
use leme.Layout.Direction.{Direction}
use leme.Layout.Direction
use leme.Layout.View.{View, null}

pub record Candidate : Type 0 where
  pub view : View
  pub box : Box

-- Twice the centre, so that it is an integer.
unfoldable pub center_x : Candidate → ℤ
center_x c = c.box.x *ℤ pos 2 +ℤ c.box.width

unfoldable pub center_y : Candidate → ℤ
center_y c = c.box.y *ℤ pos 2 +ℤ c.box.height

unfoldable pub origin_center : View → List Candidate → Option (ℤ × ℤ)
origin_center origin [] = none
origin_center origin (c ∷ cs) =
    if c.view == origin then some (center_x c, center_y c) else origin_center origin cs

-- `llabs`
unfoldable pub abs : ℤ → ℤ
abs a = pos (pos_part a + neg_part a)

unfoldable pub negated : ℤ → ℤ
negated a = pos 0 -ℤ a

unfoldable pub qualifies : Direction → ℤ → ℤ → Bool
qualifies Direction.left dx dy = ltb_ℤ dx (pos 0) && not (ltb_ℤ (negated dx) (abs dy))
qualifies Direction.right dx dy = ltb_ℤ (pos 0) dx && not (ltb_ℤ dx (abs dy))
qualifies Direction.up dx dy = ltb_ℤ dy (pos 0) && not (ltb_ℤ (negated dy) (abs dx))
qualifies Direction.down dx dy = ltb_ℤ (pos 0) dy && not (ltb_ℤ dy (abs dx))

unfoldable pub first_candidate : List Candidate → View
first_candidate [] = null
first_candidate (c ∷ cs) = c.view

module _ (R : Floats) where
  open R use {F, of_int, add, sub, mul, div, lt, le, largest}

  -- The loop that both functions end with: `test` is the condition that they do not `continue`
  -- on, `distance` the quantity compared with `best_distance`.
  unfoldable pub nearest_from :
      (Candidate → Bool) → (Candidate → F) → F → View → List Candidate → F × View
  nearest_from test distance best_distance best [] = (best_distance, best)
  nearest_from test distance best_distance best (c ∷ cs) =
      let closer = test c && lt (distance c) best_distance in
      nearest_from test distance (if closer then distance c else best_distance)
        (if closer then c.view else best) cs

  unfoldable pub squares : F → F → F
  squares dx dy = add (mul dx dx) (mul dy dy)

  unfoldable pub directional_test : View → Direction → ℤ × ℤ → Candidate → Bool
  directional_test origin direction (x, y) c =
      not (c.view == origin) && qualifies direction (center_x c -ℤ x) (center_y c -ℤ y)

  unfoldable pub directional_distance : ℤ × ℤ → Candidate → F
  directional_distance (x, y) c = squares (of_int (center_x c -ℤ x)) (of_int (center_y c -ℤ y))

  unfoldable pub directional_from : List Candidate → View → Direction → Option (ℤ × ℤ) → View
  directional_from candidates origin direction none = null
  directional_from candidates origin direction (some center) =
      (nearest_from (directional_test origin direction center) (directional_distance center) largest
        null candidates).1

  unfoldable pub directional_candidate : List Candidate → View → Direction → View
  directional_candidate candidates origin direction =
      if origin == null
      then first_candidate candidates
      else directional_from candidates origin direction (origin_center origin candidates)

  unfoldable pub usable : Candidate → Bool
  usable c = not (c.view == null) && (ltb_ℤ (pos 0) c.box.width && ltb_ℤ (pos 0) c.box.height)

  unfoldable pub holds_point : F → F → Candidate → Bool
  holds_point px py c =
      usable c
      && (le (of_int c.box.x) px
          && (lt px (add (of_int c.box.x) (of_int c.box.width))
              && (le (of_int c.box.y) py && lt py (add (of_int c.box.y) (of_int c.box.height)))))

  unfoldable pub point_distance : F → F → Candidate → F
  point_distance px py c =
      squares (sub (add (of_int c.box.x) (div (of_int c.box.width) (of_int (pos 2)))) px)
        (sub (add (of_int c.box.y) (div (of_int c.box.height) (of_int (pos 2)))) py)

  unfoldable pub first_holding : F → F → List Candidate → Option View
  first_holding px py [] = none
  first_holding px py (c ∷ cs) = if holds_point px py c then some c.view else first_holding px py cs

  unfoldable pub nearest_candidate : List Candidate → F → F → View
  nearest_candidate candidates px py = elim (first_holding px py candidates) [
    | some v ↦ v
    | none ↦ (nearest_from usable (point_distance px py) largest null candidates).1
  ]
