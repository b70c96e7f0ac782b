-- ===== src/Tags/Limit/Kept.antt =====
-- src/workspace/tag.c: what the beginning and a new limit leave true of the tags.
use leme.Base.{
  ℕ, zero, suc, ◌+◌, ◌-◌, ◌≤◌, ◌<◌, ◌==◌, ◌&&◌, ◌||◌, not, ltb, leb, Bool, true, false, Option,
  none, some, is_some, ◌≡◌, refl, arith, Bool-cases, le→leb, inl, inr, if_cases, subst, sym, ◌∙◌,
  ◌⊎◌,
}
use leme.Tags.{Tag, TagSet, TagSettings, exists, set_slot, IsSound}
use leme.Tags.Limit.{
  Resize, materialize, free_from, can_set_max, first_from, copied, prepare_set_max, new_table,
  commit_set_max, commit_prepared, set_max,
}

module _ {F : Type 0} where
  pub set_slot-IsSound :
      (tags : TagSet F) (id : ℕ) (tag : Tag F)
      → IsSound tags
      → 1 ≤ id
      → id ≤ tags.max_tags
      → IsSound (set_slot id (some tag) tags)
  unfolding set_slot
  set_slot-IsSound tags id tag s l h = record {
    initial_low = s.initial_low;
    initial_high = s.initial_high;
    focused_low = s.focused_low;
    focused_high = s.focused_high;
    focused_exists = λ c. ground (arith, s.focused_exists c);
    candidate_beyond = s.candidate_beyond;
    previous_low = s.previous_low;
    previous_high = s.previous_high;
    initial_exist = λ i a b. ground (arith, s.initial_exist i a b);
    slots_low = λ i e. ground (arith, s.slots_low i);
    slots_high = λ i e. ground (arith, s.slots_high i);
  }

  exists-set_slot :
      (id : ℕ) (tag : Tag F) (tags : TagSet F) → exists (set_slot id (some tag) tags) id ≡ true
  unfolding set_slot
  exists-set_slot id tag tags = ground arith

  -- What a tag that is made at an id leaves.
  abbrev pub Made : ℕ → Option (TagSet F) → Type 0
  Made id none = Unit
  Made id (some tags) = IsSound tags × (exists tags id ≡ true)

  pub materialize-Made :
      (half : F) (settings : Option (ℕ → TagSettings F)) (memory : Bool) (tags : TagSet F) (id : ℕ)
      → IsSound tags
      → Made id (materialize half settings memory tags id)
  unfolding materialize
  materialize-Made half settings memory tags id s =
      if_cases (Made id) (id == 0 || ltb tags.max_tags id) _ _ (λ out. tt)
        (λ in_range.
          if_cases (Made id) (exists tags id) _ _ (λ e. (s, e))
            (λ e.
              if_cases (Made id) memory _ _
                (λ f. (
                  set_slot-IsSound tags id _ s (ground arith) (ground arith),
                  exists-set_slot id _ tags,
                ))
                (λ f. tt)))

  free_lem :
      (tags : TagSet F) (n id i : ℕ)
      → free_from tags n id ≡ true
      → id ≤ i
      → i < id + n
      → exists tags i ≡ false
  unfolding free_from
  free_lem tags zero id i e h k = absurd (omega arith)
  free_lem tags (suc n) id i e h k = elim (Bool-cases (id == i)) [
    | inl f ↦ ground (arith, e)
    | inr f ↦ ground (arith, e, free_lem tags n (id + 1) i)
  ]

  first_lem :
      (table : ℕ → Option (Tag F)) (n id : ℕ)
      → (id ≤ first_from table n id)
        × ((first_from table n id ≡ id + n) ⊎ (is_some (table (first_from table n id)) ≡ true))
  unfolding first_from
  first_lem table zero id = (omega arith, inl (omega arith))
  first_lem table (suc n) id = ground (arith, first_lem table n (id + 1))

  first_same :
      (table table' : ℕ → Option (Tag F)) (n id : ℕ)
      → ((i : ℕ) → is_some (table' i) ≡ is_some (table i))
      → first_from table' n id ≡ first_from table n id
  unfolding first_from
  first_same table table' zero id h = refl
  first_same table table' (suc n) id h = rw (h id, first_same table table' n (id + 1) h) refl

  -- The slots are as before, in the old table and in a copy.
  same_slots :
      (tags : TagSet F) (table : Option (ℕ → Option (Tag F))) (i : ℕ)
      → IsSound tags
      → (table ≡ none) ⊎ (table ≡ some (copied tags))
      → is_some (new_table table tags.table i) ≡ exists tags i
  unfolding new_table copied
  same_slots tags table i s (inl e) = rw e refl
  same_slots tags table i s (inr e) = rw e (ground (arith, s.slots_high i))

  within_limit :
      (tags : TagSet F) (max_tags i : ℕ)
      → IsSound tags
      → can_set_max tags max_tags ≡ true
      → exists tags i ≡ true
      → i ≤ max_tags
  unfolding can_set_max
  within_limit tags max_tags i s can e =
      ground
        (arith, can, e, s.slots_high i, free_lem tags (tags.max_tags - max_tags) (max_tags + 1) i)

  commit_set_max-IsSound :
      (tags : TagSet F) (table : Option (ℕ → Option (Tag F))) (max_tags : ℕ)
      → IsSound tags
      → can_set_max tags max_tags ≡ true
      → (table ≡ none) ⊎ (table ≡ some (copied tags))
      → ltb max_tags tags.focused_id && ltb max_tags (first_from tags.table max_tags 1) ≡ false
      → IsSound (commit_set_max tags (record { table = table; max_tags = max_tags }))
  unfolding commit_set_max
  commit_set_max-IsSound tags table max_tags s can t f =
      let same = λ (i : ℕ). same_slots tags table i s t in
      let first = first_same tags.table (new_table table tags.table) max_tags 1 same in
      let there = first_lem tags.table max_tags 1 in
      let initial =
        within_limit tags max_tags tags.initial_tags s can
          (s.initial_exist tags.initial_tags s.initial_low (omega arith)) in
      if_cases IsSound (max_tags == 0) _ _ (λ e. s)
        (λ e. record {
          initial_low = s.initial_low;
          initial_high = initial;
          focused_low = ground (arith, there, first, s.focused_low);
          focused_high = ground (arith, f, there, first);
          focused_exists = λ c. elim (Bool-cases (ltb max_tags tags.focused_id)) [
            | inl lost ↦
                rw (lost, first)
                  (same (first_from tags.table max_tags 1) ∙ ground (arith, there, f, lost))
            | inr kept ↦ rw kept (same tags.focused_id ∙ s.focused_exists (rw kept at c))
          ];
          candidate_beyond = λ c. ground (arith, s.candidate_beyond);
          previous_low = λ v. ground (arith, s.previous_low);
          previous_high = λ v. ground arith;
          initial_exist = λ i a b. same i ∙ s.initial_exist i a b;
          slots_low = λ i h. s.slots_low i (sym (same i) ∙ h);
          slots_high = λ i h. within_limit tags max_tags i s can (sym (same i) ∙ h);
        })

  abbrev Prepared : TagSet F → ℕ → Option (Resize F) → Type 0
  Prepared tags max_tags none = Unit
  Prepared tags max_tags (some r) =
      IsSound (commit_set_max tags r) × ((commit_set_max tags r).max_tags ≡ max_tags)

  max_tags-commit :
      (tags : TagSet F) (table : Option (ℕ → Option (Tag F))) (max_tags : ℕ)
      → can_set_max tags max_tags ≡ true
      → (commit_set_max tags (record { table = table; max_tags = max_tags })).max_tags ≡ max_tags
  unfolding commit_set_max can_set_max
  max_tags-commit tags table max_tags can = ground (arith, can)

  prepare_set_max-Prepared :
      (memory : Bool) (tags : TagSet F) (max_tags : ℕ)
      → IsSound tags
      → Prepared tags max_tags (prepare_set_max memory tags max_tags)
  unfolding prepare_set_max
  prepare_set_max-Prepared memory tags max_tags s =
      let P = Prepared tags max_tags in
      if_cases P (not (can_set_max tags max_tags)) _ _ (λ e. tt)
        (λ e.
          let can : can_set_max tags max_tags ≡ true = ground arith in
          if_cases P
            (ltb max_tags tags.focused_id && ltb max_tags (first_from tags.table max_tags 1)) _ _
            (λ f. tt)
            (λ f.
              if_cases P (leb max_tags tags.max_tags) _ _
                (λ g. (
                  commit_set_max-IsSound tags none max_tags s can (inl refl) f,
                  max_tags-commit tags none max_tags can,
                ))
                (λ g.
                  if_cases P memory _ _
                    (λ h. (
                      commit_set_max-IsSound tags (some (copied tags)) max_tags s can (inr refl) f,
                      max_tags-commit tags (some (copied tags)) max_tags can,
                    ))
                    (λ h. tt))))

  abbrev Limited : TagSet F → ℕ → TagSet F × Bool → Type 0
  Limited tags max_tags r =
      IsSound r.0 × (((r.1 ≡ false) × (r.0 ≡ tags)) ⊎ ((r.1 ≡ true) × (r.0.max_tags ≡ max_tags)))

  commit_prepared-Limited :
      (tags : TagSet F) (max_tags : ℕ) (o : Option (Resize F))
      → IsSound tags
      → Prepared tags max_tags o
      → Limited tags max_tags (commit_prepared tags max_tags o)
  unfolding commit_prepared
  commit_prepared-Limited tags max_tags none s p = (s, inl (refl, refl))
  commit_prepared-Limited tags max_tags (some r) s (p, q) = (
    p,
    inr (le→leb _ _ (subst (λ m. (commit_set_max tags r).focused_id ≤ m) q p.focused_high), q),
  )

  -- A new limit on sound tags keeps them sound, whether there is memory or not. It is refused, and the
  -- tags are as before, or it is taken, and it is the limit then.
  pub set_max-IsSound :
      (memory : Bool) (tags : TagSet F) (max_tags : ℕ)
      → IsSound tags
      → IsSound (set_max memory tags max_tags).0
        × ((((set_max memory tags max_tags).1 ≡ false) × ((set_max memory tags max_tags).0 ≡ tags))
            ⊎ (((set_max memory tags max_tags).1 ≡ true)
                × ((set_max memory tags max_tags).0.max_tags ≡ max_tags)))
  unfolding set_max
  set_max-IsSound memory tags max_tags s =
      commit_prepared-Limited tags max_tags _ s (prepare_set_max-Prepared memory tags max_tags s)
