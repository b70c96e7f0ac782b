-- ===== src/Tags/Focus/Kept.antt =====
-- src/workspace/tag.c: what the changes of focus leave true of the tags, and going back.
use leme.Base.{
  ℕ, ◌≤◌, ◌<◌, ◌==◌, ◌||◌, not, ltb, Bool, true, false, Option, none, some, ◌≡◌, refl, arith, zero,
  suc, ==→eq, if_cases, subst,
}
use leme.Tags.{Change, is_change, TagSet, exists, IsSound}
use leme.Tags.Focus.{
  record_focus, set_focus_state, focus_id_direction, focus_id, beside, find_tag, step_candidate,
  step_beside, step, focus_last,
}

module _ {F : Type 0} where
  -- An id in range without a tag is not an initial one.
  missing_beyond :
      (tags : TagSet F) (id : ℕ)
      → IsSound tags
      → 1 ≤ id
      → exists tags id ≡ false
      → tags.initial_tags < id
  missing_beyond tags id s l e = ground (arith, s.initial_exist id)

  set_focus_state-IsSound :
      (tags : TagSet F) (id : ℕ) (is_candidate record_previous : Bool) (direction : Change)
      → IsSound tags
      → (is_candidate ≡ not (exists tags id))
      → IsSound (set_focus_state tags id is_candidate record_previous direction).0
  unfolding set_focus_state record_focus
  set_focus_state-IsSound tags id is_candidate record_previous direction s e =
      ground (arith, missing_beyond tags id s)

  abbrev LeavesSound {ℓ} : {A : Type ℓ} → TagSet F × A → Type 0
  LeavesSound r = IsSound r.0

  refocus-IsSound :
      (tags : TagSet F)
      → IsSound tags
      → IsSound (record tags { focused_is_candidate = not (exists tags tags.focused_id) })
  refocus-IsSound tags s = ground (arith, missing_beyond tags tags.focused_id s)

  pub focus_id_direction-IsSound :
      (tags : TagSet F) (id : ℕ) (direction : Change)
      → IsSound tags
      → IsSound (focus_id_direction tags id direction).0
  unfolding focus_id_direction
  focus_id_direction-IsSound tags id direction s =
      if_cases LeavesSound (id == 0 || ltb tags.max_tags id || not (is_change direction)) _ _
        (λ e. s)
        (λ e.
          if_cases LeavesSound (tags.focused_id == id) _ _
            (λ f.
              subst (λ i. IsSound (record tags { focused_is_candidate = not (exists tags i) }))
                (==→eq _ _ f) (refocus-IsSound tags s))
            (λ f. set_focus_state-IsSound tags id (not (exists tags id)) true direction s refl))

  pub focus_id-IsSound : (tags : TagSet F) (id : ℕ) → IsSound tags → IsSound (focus_id tags id).0
  unfolding focus_id
  focus_id-IsSound tags id s =
      if_cases LeavesSound (id == 0 || ltb tags.max_tags id) _ _ (λ e. s)
        (λ e.
          if_cases LeavesSound (tags.focused_id == id) _ _
            (λ f.
              subst (λ i. IsSound (record tags { focused_is_candidate = not (exists tags i) }))
                (==→eq _ _ f) (refocus-IsSound tags s))
            (λ f. focus_id_direction-IsSound tags id _ s))

  found_exists :
      (tags : TagSet F) (direction : Change) (n id found : ℕ)
      → find_tag tags direction n id ≡ some found
      → exists tags found ≡ true
  unfolding find_tag
  found_exists tags direction zero id found e = absurd (ground (arith, e))
  found_exists tags direction (suc n) id found e =
      ground (arith, e, found_exists tags direction n (beside tags direction id) found)

  pub step-IsSound :
      (tags : TagSet F) (direction : Change) → IsSound tags → IsSound (step tags direction).0
  unfolding step step_beside step_candidate
  step-IsSound tags direction s =
      if_cases LeavesSound (not (is_change direction)) _ _ (λ e. s)
        (λ e.
          if_cases LeavesSound tags.focused_is_candidate _ _ (λ f. from_candidate _ refl)
            (λ f. set_focus_state-IsSound tags _ _ true direction s refl))
    where
      from_candidate :
          (o : Option ℕ)
          → find_tag tags direction tags.max_tags tags.focused_id ≡ o
          → IsSound (step_candidate tags direction o).0
      from_candidate none e = s
      from_candidate (some id) e =
          set_focus_state-IsSound tags id false true direction s
            (rw (found_exists tags direction _ _ id e) refl)

  pub focus_last-IsSound : (tags : TagSet F) → IsSound tags → IsSound (focus_last tags).0
  unfolding focus_last
  focus_last-IsSound tags s = ground (arith, missing_beyond tags tags.previous_id s)

  -- In sound tags where the focus is on a candidate just when the focused id has no tag, and where going
  -- back to the previous tag succeeds, going back again succeeds too and ends at the id and the
  -- candidate state where one was, with the same previous id.
  pub focus_last-focus_last :
      (tags : TagSet F)
      → IsSound tags
      → (tags.focused_is_candidate ≡ not (exists tags tags.focused_id))
      → (focus_last tags).1 ≡ true
      → ((focus_last (focus_last tags).0).1 ≡ true)
        × ((focus_last (focus_last tags).0).0.focused_id ≡ tags.focused_id)
        × ((focus_last (focus_last tags).0).0.focused_is_candidate ≡ tags.focused_is_candidate)
        × ((focus_last (focus_last tags).0).0.previous_id ≡ tags.previous_id)
  unfolding focus_last
  focus_last-focus_last tags s c e = ground (arith, e)
