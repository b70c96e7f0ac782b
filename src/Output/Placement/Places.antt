-- ===== src/Output/Placement/Places.antt =====
-- src/output/placement.c: the passes of `leme_placement_resolve`.
use leme.Base.{
  ℕ, zero, suc, ◌+◌, ◌≤◌, ◌<◌, ◌==◌, ◌||◌, not, if◌then◌else◌, Bool, true, false, Option, none,
  some, List, [], ◌∷◌, ◌≡◌, refl, sym, ap, ◌∙◌, ◌⊎◌, inl, inr, arith, Bool-cases, Option-cases,
  some_inj, ==→eq, All, get_elem?, length,
}
use leme.Base.Int.{pos}
use leme.Output.Placement.{
  Request, Placement, Slot, at, find_reference, resolve_relative, set_placement, has_relation,
  pass_step, pass_at, pass, passes, place_rest_at, place_rest, initials, resolve, right_edge,
}

-- The same requests, with every output that was placed where it was.
abbrev pub Grows : List Slot → List Slot → Type 0
Grows [] [] = Unit
Grows [] (t ∷ ts) = ⊥
Grows (s ∷ ss) [] = ⊥
Grows (s ∷ ss) (t ∷ ts) = (t.0 ≡ s.0) × (s.1.placed ≡ true → t.1 ≡ s.1) × Grows ss ts

Grows-refl : (ss : List Slot) → Grows ss ss
Grows-refl [] = tt
Grows-refl (s ∷ ss) = (refl, (λ h. refl), Grows-refl ss)

Grows-trans : (ss ts us : List Slot) → Grows ss ts → Grows ts us → Grows ss us
Grows-trans [] [] [] p q = tt
Grows-trans [] [] (u ∷ us) p q = q
Grows-trans [] (t ∷ ts) us p q = absurd p
Grows-trans (s ∷ ss) [] us p q = absurd p
Grows-trans (s ∷ ss) (t ∷ ts) [] p q = absurd q
Grows-trans (s ∷ ss) (t ∷ ts) (u ∷ us) (a, b, p) (c, d, q) =
    (c ∙ a, (λ h. d (ap (λ (x : Placement). x.placed) (b h) ∙ h) ∙ b h), Grows-trans ss ts us p q)

unplaced : List Slot → ℕ
unplaced [] = 0
unplaced (s ∷ ss) = (if s.1.placed then 0 else 1) + unplaced ss

unplaced-Grows : (ss ts : List Slot) → Grows ss ts → unplaced ts ≤ unplaced ss
unfolding unplaced
unplaced-Grows [] [] g = omega arith
unplaced-Grows [] (t ∷ ts) g = absurd g
unplaced-Grows (s ∷ ss) [] g = absurd g
unplaced-Grows (s ∷ ss) (t ∷ ts) (a, b, g) = elim (Bool-cases s.1.placed) [
  | inl e ↦
      rw (e, ap (λ (x : Placement). x.placed) (b e) ∙ e) (omega (arith, unplaced-Grows ss ts g))
  | inr e ↦ rw e (ground (arith, unplaced-Grows ss ts g))
]

-- Placing an output that was not placed.
set_placement-Grows :
    (i : ℕ) (p : Placement) (ss : List Slot) (s : Slot)
    → get_elem? ss i ≡ some s
    → s.1.placed ≡ false
    → Grows ss (set_placement i p ss)
      × (p.placed ≡ true → unplaced (set_placement i p ss) < unplaced ss)
      × (get_elem? (set_placement i p ss) i ≡ some (s.0, p))
unfolding set_placement unplaced
set_placement-Grows i p [] s e h = absurd (cc e)
set_placement-Grows zero p ((r, q) ∷ ss) s e h =
    let same = some_inj e in
    (
      (refl, (λ k. absurd (cc (sym k ∙ (ap (λ (x : Slot). x.1.placed) same ∙ h)))), Grows-refl ss),
      (λ k. ground (arith, ap (λ (x : Slot). x.1.placed) same ∙ h)),
      ap some (λ j. ((same j).0, p)),
    )
set_placement-Grows (suc i) p ((r, q) ∷ ss) s e h =
    let (g, less, there) = set_placement-Grows i p ss s e h in
    ((refl, (λ k. refl), g), (λ k. omega (arith, less k)), there)

-- What a round does: nothing that is placed moves, and `progress` means one output more.
abbrev Progress : List Slot → List Slot × Bool → Type 0
Progress ss r = Grows ss r.0 × (r.1 ≡ true → unplaced r.0 < unplaced ss)

resolve_relative_placed :
    (ss : List Slot) (i : ℕ) (s : Slot)
    → (resolve_relative ss i s).1 ≡ (resolve_relative ss i s).0.placed
      ⊎ ((resolve_relative ss i s).1 ≡ false)
unfolding resolve_relative
resolve_relative_placed ss i (r, p) = elim (Option-cases (find_reference i 0 r.relative_to ss)) [
  | inl e ↦ rw (e, resolve_relative) (inr refl)
  | inr (x, e) ↦ rw (e, resolve_relative) (inl refl)
]

pass_step-Progress :
    (ss : List Slot) (i : ℕ) (s : Slot) → get_elem? ss i ≡ some s → Progress ss (pass_step ss i s)
unfolding pass_step
pass_step-Progress ss i (r, p) e = elim (Bool-cases (p.placed || not (has_relation r.relation))) [
  | inl h ↦ rw h (Grows-refl ss, λ k. absurd (cc k))
  | inr h ↦
      let (g, less, there) =
        set_placement-Grows i (resolve_relative ss i (r, p)).0 ss (r, p) e (ground (arith, h)) in
      rw h (g, λ k. less (ground (arith, resolve_relative_placed ss i (r, p))))
]

pass_at-Progress :
    (ss : List Slot) (i : ℕ) (o : Option Slot) → get_elem? ss i ≡ o → Progress ss (pass_at ss i o)
unfolding pass_at
pass_at-Progress ss i none e = (Grows-refl ss, λ k. absurd (cc k))
pass_at-Progress ss i (some s) e = pass_step-Progress ss i s e

pass_progress :
    (left i : ℕ) (progress : Bool) (ss : List Slot)
    → Grows ss (pass left i progress ss).0
      × ((pass left i progress ss).1 ≡ true
          → (progress ≡ true) ⊎ (unplaced (pass left i progress ss).0 < unplaced ss))
unfolding pass
pass_progress zero i progress ss = (Grows-refl ss, λ h. inl h)
pass_progress (suc left) i progress ss =
    let (g, more) = pass_at-Progress ss i (get_elem? ss i) refl in
    let next = (pass_at ss i (get_elem? ss i)).0 in
    let done = (pass_at ss i (get_elem? ss i)).1 in
    let (g', more') = pass_progress left (i + 1) (progress || done) next in
    let rest = unplaced-Grows _ _ g' in
    (
      Grows-trans ss next _ g g',
      λ h. elim (more' h) [
        | inl either ↦ elim (Bool-cases progress) [
          | inl p ↦ inl p
          | inr p ↦ inr (let l = more (ground (arith, p, either)) in omega arith)
        ]
        | inr l ↦ inr (let m = unplaced-Grows _ _ g in omega arith)
      ],
    )

-- Fuel beyond the number of unplaced outputs is enough.
passes_total :
    (fuel : ℕ) (ss : List Slot)
    → unplaced ss < fuel
    → (ts : List Slot) × (passes fuel ss ≡ some ts) × Grows ss ts
unfolding passes
passes_total zero ss h = absurd (omega arith)
passes_total (suc fuel) ss h =
    let next = (pass (length ss) 0 false ss).0 in
    let (g, more) = pass_progress (length ss) 0 false ss in
    elim (Bool-cases (pass (length ss) 0 false ss).1) [
      | inl e ↦
          let less : unplaced next < unplaced ss = elim (more e) [
            | inl f ↦ absurd (cc f)
            | inr l ↦ l
          ] in
          let (ts, p, q) = passes_total fuel next (omega arith) in
          (ts, rw (e, passes) p, Grows-trans ss next ts g q)
      | inr e ↦ (next, rw (e, passes), g)
    ]

place_rest_at-Grows :
    (ss : List Slot) (i : ℕ) (o : Option Slot)
    → get_elem? ss i ≡ o
    → Grows ss (place_rest_at ss i o)
      × ((s : Slot)
          → o ≡ some s
          → (t : Slot) × (get_elem? (place_rest_at ss i o) i ≡ some t) × (t.1.placed ≡ true))
unfolding place_rest_at at
place_rest_at-Grows ss i none e = (Grows-refl ss, λ s k. absurd (cc k))
place_rest_at-Grows ss i (some (r, p)) e = elim (Bool-cases p.placed) [
  | inl h ↦ rw h (Grows-refl ss, λ s k. ((r, p), e, h))
  | inr h ↦
      let (g, less, there) =
        set_placement-Grows i (at (right_edge (pos 0) ss) (pos 0)) ss (r, p) e h in
      rw h (g, λ s k. ((r, at (right_edge (pos 0) ss) (pos 0)), there, refl))
]

-- The output at an index is placed, if there is one.
abbrev PlacedAt : List Slot → ℕ → Type 0
PlacedAt ss i = (s : Slot) → get_elem? ss i ≡ some s → s.1.placed ≡ true

Grows-PlacedAt : (ss ts : List Slot) (i : ℕ) → Grows ss ts → PlacedAt ss i → PlacedAt ts i
Grows-PlacedAt [] [] i g h = h
Grows-PlacedAt [] (t ∷ ts) i g h = absurd g
Grows-PlacedAt (s ∷ ss) [] i g h = absurd g
Grows-PlacedAt (s ∷ ss) (t ∷ ts) zero (a, b, g) h = λ u e.
    let was = h s refl in
    ap (λ (x : Slot). x.1.placed) (sym (some_inj e))
    ∙ ap (λ (x : Placement). x.placed) (b was)
    ∙ was
Grows-PlacedAt (s ∷ ss) (t ∷ ts) (suc i) (a, b, g) h = Grows-PlacedAt ss ts i g h

missing :
    (ss ts : List Slot) (i : ℕ)
    → Grows ss ts
    → get_elem? ss i ≡ none
    → (u : Slot) → get_elem? ts i ≡ some u
    → ⊥
missing [] [] i g e u f = cc f
missing [] (t ∷ ts) i g e u f = g
missing (s ∷ ss) [] i g e u f = g
missing (s ∷ ss) (t ∷ ts) zero g e u f = cc e
missing (s ∷ ss) (t ∷ ts) (suc i) (a, b, g) e u f = missing ss ts i g e u f

placed_here :
    (ss next : List Slot) (i : ℕ)
    → Grows ss next
    → ((s : Slot)
        → get_elem? ss i ≡ some s
        → (t : Slot) × (get_elem? next i ≡ some t) × (t.1.placed ≡ true))
    → PlacedAt next i
placed_here ss next i g there u e = elim (Option-cases (get_elem? ss i)) [
  | inl absent ↦ absurd (missing ss next i g absent u e)
  | inr (s, present) ↦
      let (t, p, q) = there s present in ap (λ (x : Slot). x.1.placed) (some_inj (sym e ∙ p)) ∙ q
]

place_rest_places :
    (left i : ℕ) (ss : List Slot)
    → Grows ss (place_rest left i ss)
      × ((j : ℕ) → i ≤ j → j < i + left → PlacedAt (place_rest left i ss) j)
unfolding place_rest
place_rest_places zero i ss = (Grows-refl ss, λ j p q. absurd (omega arith))
place_rest_places (suc left) i ss =
    let next = place_rest_at ss i (get_elem? ss i) in
    let (g, there) = place_rest_at-Grows ss i (get_elem? ss i) refl in
    let (g', rest) = place_rest_places left (i + 1) next in
    (
      Grows-trans ss next _ g g',
      λ j p q. elim (Bool-cases (i == j)) [
        | inl e ↦
            rw (sym (==→eq i j e)) (Grows-PlacedAt next _ i g' (placed_here ss next i g there))
        | inr e ↦ rest j (ground arith) (omega arith)
      ],
    )

abbrev pub IsPlaced : Slot → Type 0
IsPlaced s = s.1.placed ≡ true

IsPlaced-everywhere : (ss : List Slot) → ((j : ℕ) → j < length ss → PlacedAt ss j) → All IsPlaced ss
IsPlaced-everywhere [] h = tt
IsPlaced-everywhere (s ∷ ss) h =
    (h 0 (omega arith) s refl, IsPlaced-everywhere ss (λ j l. h (suc j) (omega arith)))

length-Grows : (ss ts : List Slot) → Grows ss ts → length ts ≡ length ss
length-Grows [] [] g = refl
length-Grows [] (t ∷ ts) g = absurd g
length-Grows (s ∷ ss) [] g = absurd g
length-Grows (s ∷ ss) (t ∷ ts) (a, b, g) = ap suc (length-Grows ss ts g)

unplaced-le-length : (ss : List Slot) → unplaced ss ≤ length ss
unfolding unplaced
unplaced-le-length [] = omega arith
unplaced-le-length (s ∷ ss) = ground (arith, unplaced-le-length ss)

length-initials : (rs : List Request) → length (initials rs) ≡ length rs
unfolding initials
length-initials [] = refl
length-initials (r ∷ rs) = ap suc (length-initials rs)

-- Whatever the outputs ask for, cycles and unknown names included, the resolution ends within one
-- pass more than there are outputs, every output is placed, in the order of the requests, and one
-- that has a configured position stands there.
pub resolve_total :
    (rs : List Request)
    → (ss : List Slot) × (resolve rs ≡ some ss) × All IsPlaced ss × Grows (initials rs) ss
unfolding resolve
resolve_total rs =
    let enough = unplaced-le-length (initials rs) in
    let count = length-initials rs in
    let (ts, e, g) = passes_total (length rs + 1) (initials rs) (omega arith) in
    let (g', all) = place_rest_places (length ts) 0 ts in
    let long = length-Grows ts _ g' in
    (
      place_rest (length ts) 0 ts,
      rw (e, resolve),
      IsPlaced-everywhere _ (λ j l. all j (omega arith) (omega arith)),
      Grows-trans (initials rs) ts _ g g',
    )
