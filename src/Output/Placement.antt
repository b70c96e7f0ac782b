-- ===== src/Output/Placement.antt =====
-- src/output/placement.c: the positions of the outputs from their configuration. The two parallel
-- arrays are one list of requests with their placements. A name is a list of bytes, `none` for
-- NULL.
pub mod Places
use leme.Base.{
  ℕ, zero, suc, ◌+◌, ◌==◌, ◌&&◌, ◌||◌, not, if◌then◌else◌, Bool, true, false, Option, none, some,
  List, [], ◌∷◌, get_elem?, length,
}
use leme.Base.Int.{ℤ, pos, ◌+ℤ◌, ◌-ℤ◌, ltb_ℤ, int_max, int_min}

pub data Relation : Type 0 where
  no_relation left_of right_of top_of bottom_of : Relation

pub record Request : Type 0 where
  pub name : Option (List ℕ)
  pub width : ℤ
  pub height : ℤ
  pub x : ℤ
  pub y : ℤ
  pub relative_to : Option (List ℕ)
  pub relation : Relation
  pub has_position : Bool

pub record Placement : Type 0 where
  pub x : ℤ
  pub y : ℤ
  pub placed : Bool

abbrev pub Slot : Type 0
Slot = Request × Placement

-- `strcmp(left, right) == 0`
unfoldable pub same_bytes : List ℕ → List ℕ → Bool
same_bytes [] [] = true
same_bytes (a ∷ left) (b ∷ right) = a == b && same_bytes left right
same_bytes _ _ = false

unfoldable pub names_equal : Option (List ℕ) → Option (List ℕ) → Bool
names_equal (some a) (some b) = same_bytes a b
names_equal _ _ = false

unfoldable pub clamp : ℤ → ℤ
clamp v = if ltb_ℤ int_max v then int_max else if ltb_ℤ v int_min then int_min else v

unfoldable pub place_add : ℤ → ℤ → ℤ
place_add value delta = clamp (value +ℤ delta)

unfoldable pub place_subtract : ℤ → ℤ → ℤ
place_subtract value delta = clamp (value -ℤ delta)

unfoldable pub at : ℤ → ℤ → Placement
at x y = record { x = x; y = y; placed = true }

unfoldable pub apply_relation : Relation → Request → Request → Placement → Placement → Placement
apply_relation left_of request reference anchor placement =
    at (place_subtract anchor.x request.width) anchor.y
apply_relation right_of request reference anchor placement =
    at (place_add anchor.x reference.width) anchor.y
apply_relation top_of request reference anchor placement =
    at anchor.x (place_subtract anchor.y request.height)
apply_relation bottom_of request reference anchor placement =
    at anchor.x (place_add anchor.y reference.height)
apply_relation no_relation request reference anchor placement = placement

-- The first placed slot, other than the one at `index`, that has the name; `position` counts.
unfoldable pub find_reference : ℕ → ℕ → Option (List ℕ) → List Slot → Option Slot
find_reference index position name [] = none
find_reference index position name ((r, p) ∷ slots) =
    if position == index || not p.placed || not (names_equal name r.name)
    then find_reference index (position + 1) name slots
    else some (r, p)

-- The new placement of the slot at `index`, and whether it is placed.
unfoldable pub resolve_relative : List Slot → ℕ → Slot → Placement × Bool
resolve_relative slots index (r, p) = elim (find_reference index 0 r.relative_to slots) [
  | none ↦ (p, false)
  | some (reference, anchor) ↦
      let p' = apply_relation r.relation r reference anchor p in (p', p'.placed)
]

unfoldable pub set_placement : ℕ → Placement → List Slot → List Slot
set_placement i p [] = []
set_placement zero p ((r, q) ∷ slots) = (r, p) ∷ slots
set_placement (suc i) p (s ∷ slots) = s ∷ set_placement i p slots

unfoldable pub has_relation : Relation → Bool
has_relation no_relation = false
has_relation _ = true

-- One round of the inner loop at `index`.
unfoldable pub pass_step : List Slot → ℕ → Slot → List Slot × Bool
pass_step slots index (r, p) =
    let (p', done) = resolve_relative slots index (r, p) in
    if p.placed || not (has_relation r.relation)
    then (slots, false)
    else (set_placement index p' slots, done)

unfoldable pub pass_at : List Slot → ℕ → Option Slot → List Slot × Bool
pass_at slots index none = (slots, false)
pass_at slots index (some s) = pass_step slots index s

-- The `for` loop: `left` rounds from `index` on; the flag is `progress`.
unfoldable pub pass : ℕ → ℕ → Bool → List Slot → List Slot × Bool
pass zero index progress slots = (slots, progress)
pass (suc left) index progress slots =
    let (slots', done) = pass_at slots index (get_elem? slots index) in
    pass left (index + 1) (progress || done) slots'

-- The `do` loop, on fuel; `none` where it runs out.
unfoldable pub passes : ℕ → List Slot → Option (List Slot)
passes zero slots = none
passes (suc fuel) slots =
    let (slots', progress) = pass (length slots) 0 false slots in
    elim progress [ true ↦ passes fuel slots' | false ↦ some slots' ]

unfoldable pub right_edge : ℤ → List Slot → ℤ
right_edge edge [] = edge
right_edge edge ((r, p) ∷ slots) =
    let candidate = place_add p.x r.width in
    right_edge (if p.placed && ltb_ℤ edge candidate then candidate else edge) slots

unfoldable pub initial : Request → Slot
initial r =
    (r, if r.has_position then at r.x r.y else record { x = pos 0; y = pos 0; placed = false })

-- The last loop: what is left goes to the right of everything placed so far.
unfoldable pub place_rest_at : List Slot → ℕ → Option Slot → List Slot
place_rest_at slots index none = slots
place_rest_at slots index (some (r, p)) =
    if p.placed then slots else set_placement index (at (right_edge (pos 0) slots) (pos 0)) slots

unfoldable pub place_rest : ℕ → ℕ → List Slot → List Slot
place_rest zero index slots = slots
place_rest (suc left) index slots =
    place_rest left (index + 1) (place_rest_at slots index (get_elem? slots index))

unfoldable pub initials : List Request → List Slot
initials [] = []
initials (r ∷ rs) = initial r ∷ initials rs

-- One pass more than there are requests is enough.
unfoldable pub resolve : List Request → Option (List Slot)
resolve requests = elim (passes (length requests + 1) (initials requests)) [
  | none ↦ none
  | some slots ↦ some (place_rest (length slots) 0 slots)
]
