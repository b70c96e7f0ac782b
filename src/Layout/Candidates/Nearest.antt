-- ===== src/Layout/Candidates/Nearest.antt =====
-- src/workspace/layout.c: the searches for the nearest candidate.
use leme.Base.{
  ◌==◌, true, none, some, List, [], ◌∷◌, ◌++◌, ◌≡◌, ◌≢◌, ◌↔◌, refl, sym, ◌∙◌, inl, inr, arith,
  Bool-cases, Option-cases, some_inj, All,
}
use leme.Base.Int.{ℤ, pos, ◌+ℤ◌, ◌-ℤ◌, ◌*ℤ◌, ◌≤ℤ◌, ◌<ℤ◌, ltb_ℤ, +ℤ_parts, -ℤ_parts}
use leme.Base.Floats.{Floats, IsOrdered}
use leme.Layout.Direction.{Direction}
use leme.Layout.View.{View, null}
use leme.Layout.Candidates.{
  Candidate, center_x, center_y, origin_center, abs, negated, qualifies, directional_test, squares,
  directional_distance, directional_from, directional_candidate, usable, holds_point,
  point_distance, first_holding, nearest_candidate,
}
use leme.Layout.Candidates.Search.{Among, IsNearest, nearest_from-IsNearest}

-- A displacement that goes in the direction, and no further to the side than along it.
pub Toward : Direction → ℤ → ℤ → Type 0
Toward Direction.left dx dy = (dx <ℤ pos 0) × (dx ≤ℤ dy) × (dx +ℤ dy ≤ℤ pos 0)
Toward Direction.right dx dy = (pos 0 <ℤ dx) × (dy ≤ℤ dx) × (pos 0 ≤ℤ dx +ℤ dy)
Toward Direction.up dx dy = (dy <ℤ pos 0) × (dy ≤ℤ dx) × (dx +ℤ dy ≤ℤ pos 0)
Toward Direction.down dx dy = (pos 0 <ℤ dy) × (dx ≤ℤ dy) × (pos 0 ≤ℤ dx +ℤ dy)

-- Twice the way from the centre of one box to that of another.
abbrev pub across : Candidate → Candidate → ℤ
across o c = c.box.x *ℤ pos 2 +ℤ c.box.width -ℤ (o.box.x *ℤ pos 2 +ℤ o.box.width)

abbrev pub down : Candidate → Candidate → ℤ
down o c = c.box.y *ℤ pos 2 +ℤ c.box.height -ℤ (o.box.y *ℤ pos 2 +ℤ o.box.height)

-- Another view than the origin's, in the direction.
abbrev pub LiesToward : Candidate → Direction → Candidate → Type 0
LiesToward o direction c = (c.view ≢ o.view) × Toward direction (across o c) (down o c)

-- The box has an area and the view is not NULL.
abbrev pub IsUsable : Candidate → Type 0
IsUsable c = (c.view ≢ null) × (pos 0 <ℤ c.box.width) × (pos 0 <ℤ c.box.height)

qualifies-Toward :
    (direction : Direction) (dx dy : ℤ)
    → (qualifies direction dx dy ≡ true) ↔ Toward direction dx dy
unfolding qualifies Toward abs negated ltb_ℤ
qualifies-Toward Direction.left dx dy = (
  λ h. ground (arith, h, -ℤ_parts (pos 0) dx, -ℤ_parts (pos 0) dy, +ℤ_parts dx dy),
  λ h. ground (arith, h, -ℤ_parts (pos 0) dx, -ℤ_parts (pos 0) dy, +ℤ_parts dx dy),
)
qualifies-Toward Direction.right dx dy = (
  λ h. ground (arith, h, -ℤ_parts (pos 0) dx, -ℤ_parts (pos 0) dy, +ℤ_parts dx dy),
  λ h. ground (arith, h, -ℤ_parts (pos 0) dx, -ℤ_parts (pos 0) dy, +ℤ_parts dx dy),
)
qualifies-Toward Direction.up dx dy = (
  λ h. ground (arith, h, -ℤ_parts (pos 0) dx, -ℤ_parts (pos 0) dy, +ℤ_parts dx dy),
  λ h. ground (arith, h, -ℤ_parts (pos 0) dx, -ℤ_parts (pos 0) dy, +ℤ_parts dx dy),
)
qualifies-Toward Direction.down dx dy = (
  λ h. ground (arith, h, -ℤ_parts (pos 0) dx, -ℤ_parts (pos 0) dy, +ℤ_parts dx dy),
  λ h. ground (arith, h, -ℤ_parts (pos 0) dx, -ℤ_parts (pos 0) dy, +ℤ_parts dx dy),
)

directional_test-LiesToward :
    (R : Floats) (o : Candidate) (direction : Direction) (c : Candidate)
    → (directional_test R o.view direction (center_x o, center_y o) c ≡ true)
      ↔ LiesToward o direction c
unfolding directional_test center_x center_y
directional_test-LiesToward R o direction c =
    let q = qualifies-Toward direction (across o c) (down o c) in
    (
      λ h. ((λ e. absurd (ground (arith, h, e))), q.0 (ground (arith, h))),
      λ h. ground (arith, h.0, q.1 h.1),
    )

usable-IsUsable : (R : Floats) (c : Candidate) → (usable R c ≡ true) ↔ IsUsable c
unfolding usable ltb_ℤ
usable-IsUsable R c = (
  λ h. ((λ e. absurd (ground (arith, h, e))), ground (arith, h), ground (arith, h)),
  λ h. ground (arith, h.0, h.1, h.2),
)

-- The origin is the first candidate with its view.
origin_center-first :
    (front back : List Candidate) (o : Candidate)
    → All (λ c. c.view ≢ o.view) front
    → origin_center o.view (front ++ (o ∷ back)) ≡ some (center_x o, center_y o)
unfolding origin_center
origin_center-first [] back o h = ground arith
origin_center-first (c ∷ front) back o (h, hs) =
    ground (arith, h, origin_center-first front back o hs)

module _ (R : Floats) (ordered : IsOrdered R) where
  open R use {F, of_int, add, sub, mul, div, lt, le, largest}

  -- The squared distance of the doubled centres.
  abbrev pub separation : Candidate → Candidate → F
  separation o c =
      add (mul (of_int (across o c)) (of_int (across o c)))
        (mul (of_int (down o c)) (of_int (down o c)))

  -- From the first candidate with its view, which is not NULL, the search gives a candidate with
  -- another view whose centre lies in the direction, and no further beside it than along it, and whose
  -- centre no other such candidate's is closer than; it gives NULL if there is none. < is a strict
  -- order, and the squared distances are below the largest `long double`.
  pub directional_candidate-IsNearest :
      (front back : List Candidate) (o : Candidate) (direction : Direction)
      → o.view ≢ null
      → All (λ c. c.view ≢ o.view) front
      → All (λ c. lt (separation o c) largest ≡ true) (front ++ (o ∷ back))
      → IsNearest R
          (LiesToward o direction)
          (separation o)
          (front ++ (o ∷ back))
          (directional_candidate R (front ++ (o ∷ back)) o.view direction)
  unfolding directional_candidate directional_from directional_distance squares center_x center_y
  directional_candidate-IsNearest front back o direction present first finite =
      elim (Bool-cases (o.view == null)) [
        | inl e ↦ absurd (present (ground arith))
        | inr e ↦ rw e (
            rw (origin_center-first front back o first, directional_from)
              (nearest_from-IsNearest R ordered _ (separation o) (LiesToward o direction)
                (directional_test-LiesToward R o direction) (front ++ (o ∷ back)) finite))
      ]

  -- The usable box holds the point, its near edges included and its far ones not.
  abbrev pub Holds : F → F → Candidate → Type 0
  Holds px py c =
      IsUsable c
      × (le (of_int c.box.x) px ≡ true)
      × (lt px (add (of_int c.box.x) (of_int c.box.width)) ≡ true)
      × (le (of_int c.box.y) py ≡ true)
      × (lt py (add (of_int c.box.y) (of_int c.box.height)) ≡ true)

  -- From the point to the box's centre along an axis.
  abbrev pub offset : F → ℤ → ℤ → F
  offset p position extent = sub (add (of_int position) (div (of_int extent) (of_int (pos 2)))) p

  -- The squared distance of the point and the centre.
  abbrev pub remoteness : F → F → Candidate → F
  remoteness px py c =
      add (mul (offset px c.box.x c.box.width) (offset px c.box.x c.box.width))
        (mul (offset py c.box.y c.box.height) (offset py c.box.y c.box.height))

  holds_point-Holds : (px py : F) (c : Candidate) → (holds_point R px py c ≡ true) ↔ Holds px py c
  unfolding holds_point
  holds_point-Holds px py c =
      let u = usable-IsUsable R c in
      (
        λ h. (
          u.0 (ground (arith, h)),
          ground (arith, h),
          ground (arith, h),
          ground (arith, h),
          ground (arith, h),
        ),
        λ h. ground (arith, u.1 h.0, h.1, h.2, h.3, h.4),
      )

  -- What lies under the pointer, or else what is nearest to it.
  pub data UnderOrNearest (px py : F) (cs : List Candidate) (v : View) : Type 0 where
    under : (c : Candidate) → Among c cs → Holds px py c → c.view ≡ v → UnderOrNearest px py cs v
    beside :
        All (λ c. ¬ Holds px py c) cs
        → IsNearest R IsUsable (remoteness px py) cs v
        → UnderOrNearest px py cs v

  first_holding-some :
      (px py : F) (cs : List Candidate) (v : View)
      → first_holding R px py cs ≡ some v
      → (c : Candidate) × Among c cs × (holds_point R px py c ≡ true) × (c.view ≡ v)
  unfolding first_holding
  first_holding-some px py [] v e = absurd (cc e)
  first_holding-some px py (c ∷ cs) v e = elim (Bool-cases (holds_point R px py c)) [
    | inl h ↦ (c, inl refl, h, some_inj (rw h at e))
    | inr h ↦ let (d, a, k, p) = first_holding-some px py cs v (rw h at e) in (d, inr a, k, p)
  ]

  first_holding-none :
      (px py : F) (cs : List Candidate)
      → first_holding R px py cs ≡ none
      → All (λ c. ¬ Holds px py c) cs
  unfolding first_holding
  first_holding-none px py [] e = tt
  first_holding-none px py (c ∷ cs) e = elim (Bool-cases (holds_point R px py c)) [
    | inl h ↦ absurd (cc (rw h at e))
    | inr h ↦ (
      λ p. absurd (cc (sym h ∙ (holds_point-Holds px py c).1 p)),
      first_holding-none px py cs (rw h at e),
    )
  ]

  -- The pointer gets a candidate with a view, whose box has an area and holds it, the near edges
  -- included and the far ones not; if no box does, a candidate with a view and an area whose centre no
  -- other such candidate's is closer than, and NULL where there is none. < is a strict order, and the
  -- squared distances of the candidates are below the largest `long double`.
  pub nearest_candidate-UnderOrNearest :
      (candidates : List Candidate) (px py : F)
      → All (λ c. lt (remoteness px py c) largest ≡ true) candidates
      → UnderOrNearest px py candidates (nearest_candidate R candidates px py)
  unfolding nearest_candidate point_distance squares
  nearest_candidate-UnderOrNearest candidates px py finite =
      elim (Option-cases (first_holding R px py candidates)) [
        | inl e ↦
            rw (e, nearest_candidate)
              (beside (first_holding-none px py candidates e) (
                nearest_from-IsNearest R ordered (usable R) (remoteness px py) IsUsable
                  (usable-IsUsable R) candidates finite))
        | inr (v, e) ↦
            let (c, a, h, p) = first_holding-some px py candidates v e in
            rw (e, nearest_candidate) (under c a ((holds_point-Holds px py c).0 h) p)
      ]
