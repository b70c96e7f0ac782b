-- ===== src/Tags/Focus/Steps.antt =====
-- src/workspace/tag.c: where a step leads.
use leme.Base.{
  ℕ, zero, suc, ◌+◌, ◌-◌, ◌≤◌, ◌<◌, ◌==◌, true, false, Option, some, ◌≡◌, refl, arith, Bool-cases,
  Option-cases, inl, inr, subst,
}
use leme.Tags.{Change, backward, no_change, forward, is_change, Tag, TagSet, exists, IsSound}
use leme.Tags.Focus.{
  same_bool, record_focus, set_focus_state, last_from, last_materialized, backward_wrap_id, beside,
  find_tag, step_candidate, step_beside, step, adjacent_id,
}

module _ {F : Type 0} where
  pub last_from_bounds :
      (tags : TagSet F) (n : ℕ) → 1 ≤ n → (1 ≤ last_from tags n) × (last_from tags n ≤ n)
  unfolding last_from
  last_from_bounds tags zero h = absurd (omega arith)
  last_from_bounds tags (suc zero) h = ground arith
  last_from_bounds tags (suc (suc n)) h = ground (arith, last_from_bounds tags (suc n))

  pub backward_wrap_id_bounds :
      (tags : TagSet F)
      → IsSound tags
      → (1 ≤ backward_wrap_id tags) × (backward_wrap_id tags ≤ tags.max_tags)
  unfolding backward_wrap_id last_materialized
  backward_wrap_id_bounds tags s = ground (arith, last_from_bounds tags tags.max_tags)

  pub beside_bounds :
      (tags : TagSet F) (direction : Change) (id : ℕ)
      → IsSound tags
      → 1 ≤ id
      → id ≤ tags.max_tags
      → (1 ≤ beside tags direction id) × (beside tags direction id ≤ tags.max_tags)
  unfolding beside
  beside_bounds tags forward id s l h = ground (arith, s.initial_low, s.initial_high)
  beside_bounds tags backward id s l h = ground (arith, backward_wrap_id_bounds tags s)
  beside_bounds tags no_change id s l h = ground (arith, backward_wrap_id_bounds tags s)

  -- The id that is told beforehand is the one that the step focuses.
  pub step-adjacent_id :
      (tags : TagSet F) (direction : Change)
      → IsSound tags
      → is_change direction ≡ true
      → tags.focused_is_candidate ≡ false
      → (step tags direction).0.focused_id ≡ adjacent_id tags direction
  unfolding step adjacent_id step_beside set_focus_state record_focus
  step-adjacent_id tags direction s c n =
      ground (arith, s.focused_low, s.focused_high, beside_bounds tags direction tags.focused_id)

  -- The search came to a tag.
  abbrev Finds : TagSet F → Option ℕ → Type 0
  Finds tags result = (found : ℕ) × (result ≡ some found) × (exists tags found ≡ true)

  find_here :
      (tags : TagSet F) (direction : Change) (n id : ℕ)
      → exists tags (beside tags direction id) ≡ true
      → Finds tags (find_tag tags direction (suc n) id)
  unfolding find_tag
  find_here tags direction n id e = (beside tags direction id, rw e refl, e)

  find_later :
      (tags : TagSet F) (direction : Change) (n id : ℕ)
      → Finds tags (find_tag tags direction n (beside tags direction id))
      → Finds tags (find_tag tags direction (suc n) id)
  unfolding find_tag
  find_later tags direction n id f = elim (Bool-cases (exists tags (beside tags direction id))) [
    | inl e ↦ find_here tags direction n id e
    | inr e ↦ (f.0, rw e f.1, f.2)
  ]

  first_exists : (tags : TagSet F) → IsSound tags → exists tags 1 ≡ true
  first_exists tags s = s.initial_exist 1 (omega arith) s.initial_low

  beside_backward : (tags : TagSet F) (id : ℕ) → 1 < id → beside tags backward id ≡ id - 1
  unfolding beside
  beside_backward tags id h = ground arith

  forward_last :
      (tags : TagSet F) (id : ℕ) → id == tags.max_tags ≡ true → beside tags forward id ≡ 1
  unfolding beside
  forward_last tags id e = rw e refl

  forward_next :
      (tags : TagSet F) (id : ℕ) → id == tags.max_tags ≡ false → beside tags forward id ≡ id + 1
  unfolding beside
  forward_next tags id e = rw e refl

  find_forward :
      (tags : TagSet F) (n id : ℕ)
      → IsSound tags
      → id ≤ tags.max_tags
      → tags.max_tags < n + id
      → Finds tags (find_tag tags forward n id)
  find_forward tags zero id s h k = absurd (omega arith)
  find_forward tags (suc n) id s h k = elim (Bool-cases (id == tags.max_tags)) [
    | inl e ↦ find_here tags forward n id (rw (forward_last tags id e) (first_exists tags s))
    | inr e ↦
        find_later tags forward n id (
          rw (forward_next tags id e) (find_forward tags n (id + 1) s (ground arith) (omega arith)))
  ]

  find_backward :
      (tags : TagSet F) (n id : ℕ)
      → IsSound tags
      → 1 < id
      → id ≤ n + 1
      → Finds tags (find_tag tags backward n id)
  find_backward tags zero id s l h = absurd (omega arith)
  find_backward tags (suc n) id s l h = elim (Bool-cases (id == 2)) [
    | inl e ↦ find_here tags backward n id (
        rw (beside_backward tags id l)
          (subst (λ i. exists tags i ≡ true) (ground arith) (first_exists tags s)))
    | inr e ↦ find_later tags backward n id (
        rw (beside_backward tags id l)
          (find_backward tags n (id - 1) s (ground arith) (omega arith)))
  ]

  find_total :
      (tags : TagSet F) (direction : Change)
      → IsSound tags
      → is_change direction ≡ true
      → tags.initial_tags < tags.focused_id
      → Finds tags (find_tag tags direction tags.max_tags tags.focused_id)
  unfolding is_change
  find_total tags forward s c h =
      find_forward tags tags.max_tags tags.focused_id s s.focused_high
        (omega (arith, s.focused_low))
  find_total tags backward s c h =
      find_backward tags tags.max_tags tags.focused_id s (omega (arith, s.initial_low, h))
        (omega (arith, s.focused_high))
  find_total tags no_change s c h = absurd (ground (arith, c))

  step_found :
      (tags : TagSet F) (direction : Change) (id : ℕ)
      → is_change direction ≡ true
      → tags.focused_is_candidate ≡ true
      → find_tag tags direction tags.max_tags tags.focused_id ≡ some id
      → step tags direction ≡ ((set_focus_state tags id false true direction).0, tags.table id)
  unfolding step step_candidate
  step_found tags direction id c k e = ground (arith, e)

  -- The focus after a change from a candidate to a tag that exists.
  focus_found :
      (tags : TagSet F) (direction : Change) (id : ℕ)
      → is_change direction ≡ true
      → tags.focused_is_candidate ≡ true
      → 1 ≤ id
      → id ≤ tags.max_tags
      → ((set_focus_state tags id false true direction).0.focused_id ≡ id)
        × ((set_focus_state tags id false true direction).0.focused_is_candidate ≡ false)
        × ((set_focus_state tags id false true direction).0.table ≡ tags.table)
  unfolding set_focus_state same_bool record_focus
  focus_found tags direction id c k l h = ground arith

  -- In sound tags with a focused candidate, a step forward or backward comes to a tag that exists,
  -- returns it, and focuses it as no candidate.
  pub step_reaches_tag :
      (tags : TagSet F) (direction : Change)
      → IsSound tags
      → is_change direction ≡ true
      → tags.focused_is_candidate ≡ true
      → (tag : Tag F) × ((step tags direction).1 ≡ some tag)
        × ((step tags direction).0.table (step tags direction).0.focused_id ≡ some tag)
        × ((step tags direction).0.focused_is_candidate ≡ false)
  step_reaches_tag tags direction s c k =
      let (id, e, here) = find_total tags direction s c (s.candidate_beyond k) in
      let (f, g, t) =
        focus_found tags direction id c k (s.slots_low id here) (s.slots_high id here) in
      let u = step_found tags direction id c k e in
      elim (Option-cases (tags.table id)) [
        | inl none_here ↦ absurd (ground (arith, here, none_here))
        | inr (tag, found) ↦ (tag, rw u found, rw (u, f, t) found, rw u g)
      ]
