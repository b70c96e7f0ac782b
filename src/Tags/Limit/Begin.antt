-- ===== src/Tags/Limit/Begin.antt =====
-- src/workspace/tag.c: `leme_tags_init`.
use leme.Base.{
  ℕ, zero, suc, ◌+◌, ◌≤◌, ◌==◌, ◌&&◌, ◌||◌, not, ltb, leb, if◌then◌else◌, Bool, false, Option, none,
  some, is_some, ◌≡◌, refl, arith, if_cases, subst, ◌∙◌,
}
use leme.Tags.{Tag, TagSet, TagSettings, exists, set_slot, new_tag, no_change, IsSound}
use leme.Tags.Limit.{materialize, init_from, fresh, init}

module _ {F : Type 0} (half zero_position : F) (settings : Option (ℕ → TagSettings F))
    (initial_tags max_tags : ℕ) where
  -- The zeroed tags but for the table.
  abbrev with_table : (ℕ → Option (Tag F)) → TagSet F
  with_table table = record {
    initial_tags = initial_tags;
    max_tags = max_tags;
    focused_id = 0;
    focused_is_candidate = false;
    previous_id = 0;
    previous_is_candidate = false;
    previous_valid = false;
    position = zero_position;
    position_active = false;
    last_change_direction = no_change;
    last_change_direction_valid = false;
    table = table;
  }

  -- The tags below an id exist, and no others.
  abbrev Filled : ℕ → (ℕ → Option (Tag F)) → Type 0
  Filled id table = (i : ℕ) → is_some (table i) ≡ (leb 1 i && ltb i id)

  abbrev Begun : ℕ → Option (TagSet F) → Type 0
  Begun id none = Unit
  Begun id (some tags) = (table : ℕ → Option (Tag F)) × (tags ≡ with_table table) × Filled id table

  begin_one :
      (memory : Bool) (id : ℕ) (table : ℕ → Option (Tag F))
      → 1 ≤ id
      → id ≤ max_tags
      → Filled id table
      → Begun (id + 1) (materialize half settings memory (with_table table) id)
  unfolding materialize set_slot
  begin_one memory id table l h f =
      let P = Begun (id + 1) in
      if_cases P (id == 0 || ltb max_tags id) _ _ (λ e. tt)
        (λ e.
          if_cases P (is_some (table id)) _ _ (λ g. absurd (ground (arith, f id, g)))
            (λ g.
              if_cases P memory _ _
                (λ m. (
                  (λ i. if i == id then some (new_tag half settings id) else table i),
                  refl,
                  (λ i. ground (arith, f i)),
                ))
                (λ m. tt)))

  init_from-Begun :
      (memory : ℕ → Bool) (n id : ℕ) (table : ℕ → Option (Tag F))
      → 1 ≤ id
      → id + n ≤ max_tags + 1
      → Filled id table
      → Begun (id + n) (init_from half settings memory n id (with_table table))
  unfolding init_from
  init_from-Begun memory zero id table l h f = (table, refl, λ i. f i ∙ ground arith)
  init_from-Begun memory (suc n) id table l h f =
      next (materialize half settings (memory id) (with_table table) id)
        (begin_one (memory id) id table l (omega arith) f)
        (λ t g. init_from-Begun memory n (id + 1) t (omega arith) (omega arith) g)
    where
      next :
          (o : Option (TagSet F))
          → Begun (id + 1) o
          → ((t : ℕ → Option (Tag F))
              → Filled (id + 1) t
              → Begun (id + 1 + n) (init_from half settings memory n (id + 1) (with_table t)))
          → Begun
              (id + suc n)
              (elim o [ none ↦ none | some tags ↦ init_from half settings memory n (id + 1) tags ])
      next none b ih = tt
      next (some tags) (table', e, g) ih = rw e (
          subst (λ k. Begun k (init_from half settings memory n (id + 1) (with_table table')))
            (omega arith) (ih table' g))

  abbrev pub Starts : Option (TagSet F) → Type 0
  Starts none = Unit
  Starts (some tags) = IsSound tags × ((i : ℕ) → exists tags i ≡ (leb 1 i && leb i initial_tags))

  Begun-Starts :
      (o : Option (TagSet F))
      → 1 ≤ initial_tags
      → initial_tags ≤ max_tags
      → Begun (1 + initial_tags) o
      → Starts (elim o [ none ↦ none | some tags ↦ some (record tags { focused_id = 1 }) ])
  Begun-Starts none l h b = tt
  Begun-Starts (some tags) l h (table, e, f) = rw e (
    record {
      initial_low = l;
      initial_high = h;
      focused_low = omega arith;
      focused_high = omega arith;
      focused_exists = λ c. ground (arith, f 1);
      candidate_beyond = λ c. absurd (ground (arith, c));
      previous_low = λ c. absurd (ground (arith, c));
      previous_high = λ c. absurd (ground (arith, c));
      initial_exist = λ i a b. ground (arith, f i);
      slots_low = λ i a. ground (arith, f i, a);
      slots_high = λ i a. ground (arith, f i, a);
    },
    λ i. f i ∙ ground arith,
  )

  -- Where the beginning does not fail, the tags are sound, and those that exist are the initial ones.
  pub init-Starts :
      (table_memory : Bool) (memory : ℕ → Bool)
      → Starts (init half zero_position settings table_memory memory initial_tags max_tags)
  unfolding init fresh
  init-Starts table_memory memory =
      if_cases Starts (initial_tags == 0 || ltb max_tags initial_tags || not table_memory) _ _
        (λ e. tt)
        (λ e. Begun-Starts _ (ground arith) (ground arith) (
          init_from-Begun memory initial_tags 1 (λ i. none) (omega arith) (ground arith)
            (λ i. ground arith)))
