-- ===== src/Tags/Move/Sound.antt =====
-- src/workspace/tag.c: every set of tags stays sound when its tags are edited.
use leme.Base.{
  ℕ, ◌<◌, ◌==◌, ==→eq, ◌||◌, not, leb, Bool, true, ◌≡◌, refl, arith, ◌∙◌, sym, Bool-cases, inl, inr,
  if_cases,
}
use leme.Tags.{Tag, TagSet, exists, IsSound}
use leme.Tags.World.{World, map_slot, edit_set, edit_slot, edit_tag, settle, members}
use leme.Tags.Move

module _ {F : Type 0} where
  exists-edit_slot :
      (id : ℕ) (f : Tag F → Tag F) (tags : TagSet F) (i : ℕ)
      → exists (edit_slot id f tags) i ≡ exists tags i
  unfolding edit_slot map_slot
  exists-edit_slot id f tags i = ground arith

  edit_slot-IsSound :
      (id : ℕ) (f : Tag F → Tag F) (tags : TagSet F) → IsSound tags → IsSound (edit_slot id f tags)
  unfolding edit_slot map_slot
  edit_slot-IsSound id f tags s =
      let same = λ (i : ℕ). exists-edit_slot id f tags i in
      record {
        initial_low = s.initial_low;
        initial_high = s.initial_high;
        focused_low = s.focused_low;
        focused_high = s.focused_high;
        focused_exists = λ c. same tags.focused_id ∙ s.focused_exists c;
        candidate_beyond = s.candidate_beyond;
        previous_low = s.previous_low;
        previous_high = s.previous_high;
        initial_exist = λ i a b. same i ∙ s.initial_exist i a b;
        slots_low = λ i h. s.slots_low i (sym (same i) ∙ h);
        slots_high = λ i h. s.slots_high i (sym (same i) ∙ h);
      }

  pub settle-IsSound :
      (id : ℕ) (tags : TagSet F) → IsSound tags → exists tags id ≡ true → IsSound (settle id tags)
  unfolding settle
  settle-IsSound id tags s e = record {
    initial_low = s.initial_low;
    initial_high = s.initial_high;
    focused_low = s.focused_low;
    focused_high = s.focused_high;
    focused_exists = λ c. ground (arith, e, s.focused_exists);
    candidate_beyond = λ c. ground (arith, s.candidate_beyond);
    previous_low = s.previous_low;
    previous_high = s.previous_high;
    initial_exist = s.initial_exist;
    slots_low = s.slots_low;
    slots_high = s.slots_high;
  }

  pub clear_slot-IsSound :
      (id : ℕ) (tags : TagSet F)
      → IsSound tags
      → tags.initial_tags < id
      → IsSound (Move.clear_slot id tags)
  unfolding Move.clear_slot
  clear_slot-IsSound id tags s h = record {
    initial_low = s.initial_low;
    initial_high = s.initial_high;
    focused_low = s.focused_low;
    focused_high = s.focused_high;
    focused_exists = λ c. ground (arith, s.focused_exists);
    candidate_beyond = λ c. ground (arith, s.candidate_beyond);
    previous_low = s.previous_low;
    previous_high = s.previous_high;
    initial_exist = λ i a b. ground (arith, s.initial_exist i a b);
    slots_low = λ i e. ground (arith, s.slots_low i);
    slots_high = λ i e. ground (arith, s.slots_high i);
  }

  -- Every output's tags are sound.
  abbrev pub AllSound : World F → Type 0
  AllSound w = (t : ℕ) → IsSound (w.sets t)

  pub edit_set-AllSound :
      (w : World F) (t : ℕ) (f : TagSet F → TagSet F)
      → AllSound w
      → IsSound (f (w.sets t))
      → AllSound (edit_set w t f)
  unfolding edit_set
  edit_set-AllSound w t f a s k = elim (Bool-cases (k == t)) [
    | inl e ↦ rw (e, ==→eq k t e) s
    | inr e ↦ rw e (a k)
  ]

  pub edit_tag-AllSound :
      (w : World F) (t id : ℕ) (f : Tag F → Tag F) → AllSound w → AllSound (edit_tag w t id f)
  unfolding edit_tag
  edit_tag-AllSound w t id f a =
      edit_set-AllSound w t (edit_slot id f) a (edit_slot-IsSound id f (w.sets t) (a t))

  pub exists-edit_tag :
      (w : World F) (t id : ℕ) (f : Tag F → Tag F) (s i : ℕ)
      → exists ((edit_tag w t id f).sets s) i ≡ exists (w.sets s) i
  unfolding edit_tag edit_set
  exists-edit_tag w t id f s i = elim (Bool-cases (s == t)) [
    | inl e ↦ rw e (exists-edit_slot id f (w.sets s) i)
    | inr e ↦ rw e refl
  ]

  pub prune_empty-AllSound :
      (w : World F) (t s i : ℕ) → AllSound w → AllSound (Move.prune_empty w t s i).0
  unfolding Move.prune_empty
  prune_empty-AllSound w t s i a =
      if_cases {A = World F × Bool} (λ r. AllSound r.0)
        (leb i (w.sets t).initial_tags || not (Move.is_nil (members w s i))) _ _ (λ e. a)
        (λ e.
          edit_set-AllSound w t (Move.clear_slot i) a
            (clear_slot-IsSound i (w.sets t) (a t) (ground arith)))
