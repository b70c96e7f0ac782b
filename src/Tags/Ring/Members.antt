-- ===== src/Tags/Ring/Members.antt =====
-- src/workspace/tag.c: which tags the ring has, and where the focused one is in it.
use leme.Base.{
  ℕ, zero, suc, ◌+◌, ◌≤◌, ◌<◌, ◌==◌, ==→eq, ==-refl, true, false, some, List, [], ◌∷◌, length, take,
  get_elem?, All, ◌≡◌, refl, arith, inl, inr, Bool-cases, if_cases, subst, sym, ap, ◌∙◌,
}
use leme.Tags.{Change, TagSet, IsSound}
use leme.Tags.Ring.{
  ring_max, is_member, members_from, collect_members, ring_candidate, ring, index_from, ring_index,
}

-- Ids that grow, from `low` on.
abbrev pub Grows : ℕ → List ℕ → Type 0
Grows low [] = Unit
Grows low (x ∷ xs) = (low ≤ x) × Grows (x + 1) xs

Grows-le : (low low' : ℕ) (xs : List ℕ) → low' ≤ low → Grows low xs → Grows low' xs
Grows-le low low' [] h g = tt
Grows-le low low' (x ∷ xs) h (a, g) = (omega arith, g)

module _ {F : Type 0} (tags : TagSet F) (candidate : ℕ) where
  members_from-Grows : (n id : ℕ) → Grows id (members_from tags candidate n id)
  unfolding members_from
  members_from-Grows zero id = tt
  members_from-Grows (suc n) id =
      if_cases (Grows id) (is_member tags candidate id) _ _
        (λ e. (omega arith, members_from-Grows n (id + 1)))
        (λ e. Grows-le (id + 1) id _ (omega arith) (members_from-Grows n (id + 1)))

  members_from_length : (n id : ℕ) → length (members_from tags candidate n id) ≤ n
  unfolding members_from
  members_from_length zero id = omega arith
  members_from_length (suc n) id = ground (arith, members_from_length n (id + 1))

  Members : List ℕ → Type 0
  Members = All (λ i. is_member tags candidate i ≡ true)

  members_from-Members : (n id : ℕ) → Members (members_from tags candidate n id)
  unfolding members_from Members
  members_from-Members zero id = tt
  members_from-Members (suc n) id =
      if_cases Members (is_member tags candidate id) _ _ (λ e. (e, members_from-Members n (id + 1)))
        (λ e. members_from-Members n (id + 1))

  -- The index, counted from `k`, is found, and the id stands there.
  abbrev HasPlace : ℕ → ℕ → List ℕ → Type 0
  HasPlace member k ids =
      (i : ℕ) × (index_from k ids member ≡ some (k + i)) × (get_elem? ids i ≡ some member)

  place_here : (member k id : ℕ) (ids : List ℕ) → id == member ≡ true → HasPlace member k (id ∷ ids)
  unfolding index_from
  place_here member k id ids e = (0, rw e (ap some (omega arith)), ap some (==→eq id member e))

  place_later :
      (member k id : ℕ) (ids : List ℕ)
      → id == member ≡ false
      → HasPlace member (k + 1) ids
      → HasPlace member k (id ∷ ids)
  unfolding index_from
  place_later member k id ids e (i, f, g) = (suc i, rw e (f ∙ ap some (omega arith)), g)

  member_place :
      (n id member k : ℕ)
      → id ≤ member
      → member < id + n
      → is_member tags candidate member ≡ true
      → HasPlace member k (members_from tags candidate n id)
  unfolding members_from
  member_place zero id member k l h e = absurd (omega arith)
  member_place (suc n) id member k l h e = elim (Bool-cases (id == member)) [
    | inl f ↦
        rw (subst (λ j. is_member tags candidate j ≡ true) (sym (==→eq id member f)) e)
          (place_here member k id _ f)
    | inr f ↦
        if_cases (HasPlace member k) (is_member tags candidate id) _ _
          (λ g.
            place_later member k id _ f
              (member_place n (id + 1) member (k + 1) (ground arith) (omega arith) e))
          (λ g. member_place n (id + 1) member k (ground arith) (omega arith) e)
  ]

take_all : (n : ℕ) (xs : List ℕ) → length xs ≤ n → take n xs ≡ xs
take_all zero [] h = refl
take_all zero (x ∷ xs) h = absurd (omega arith)
take_all (suc n) [] h = refl
take_all (suc n) (x ∷ xs) h = rw (take_all n xs (omega arith)) refl

module _ {F : Type 0} (tags : TagSet F) (s : IsSound tags) where
  -- The ring without a limit on its length.
  ring_members :
      (direction : Change) (capacity : ℕ)
      → tags.max_tags ≤ capacity
      → (ring tags direction capacity).0
        ≡ members_from tags (ring_candidate tags direction) tags.max_tags 1
  unfolding ring collect_members
  ring_members direction capacity h = ground (
    arith,
    s.focused_low,
    s.focused_high,
    take_all capacity (members_from tags (ring_candidate tags direction) tags.max_tags 1),
    members_from_length tags (ring_candidate tags direction) tags.max_tags 1,
  )

  focused-is_member : (candidate : ℕ) → is_member tags candidate tags.focused_id ≡ true
  unfolding is_member
  focused-is_member candidate = ground (arith, s.focused_exists, ==-refl tags.focused_id)

  -- In sound tags with no more ids than the ring has places, the ring's ids grow, each of them is a
  -- tag, the focused candidate or the one more candidate, and the focused id has an index, at which
  -- it stands in the forward ring.
  pub ring-HasPlace :
      (direction : Change)
      → tags.max_tags ≤ ring_max
      → Grows 1 (ring tags direction ring_max).0
        × All
            (λ i. is_member tags (ring_candidate tags direction) i ≡ true)
            (ring tags direction ring_max).0
        × (index : ℕ) × (ring_index tags tags.focused_id ≡ some index)
        × (get_elem? (ring tags Change.forward ring_max).0 index ≡ some tags.focused_id)
  unfolding ring_index Members
  ring-HasPlace direction h =
      let (i, f, g) =
        member_place tags (ring_candidate tags Change.forward) tags.max_tags 1 tags.focused_id 0
          s.focused_low (omega (arith, s.focused_high)) (focused-is_member _) in
      rw (ring_members direction ring_max h, ring_members Change.forward ring_max h)
        (
          members_from-Grows tags _ tags.max_tags 1,
          members_from-Members tags _ tags.max_tags 1,
          i,
          f ∙ ap some (omega arith),
          g,
        )
