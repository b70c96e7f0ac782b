-- ===== src/Tags/Limit.antt =====
-- src/workspace/tag.c: the tags' beginning and a new limit on their ids.
pub mod Kept
pub mod Begin
use leme.Base.{
  ℕ, zero, suc, ◌+◌, ◌-◌, ◌==◌, ◌&&◌, ◌||◌, not, ltb, leb, if◌then◌else◌, Bool, true, false, Option,
  none, some, is_some,
}
use leme.Tags.{Change, no_change, Tag, TagSet, TagSettings, exists, set_slot, new_tag}

-- `struct leme_tags_resize` for the tags that it was prepared for; `table` is `none` for NULL.
pub record Resize (F : Type 0) : Type 0 where
  pub table : Option (ℕ → Option (Tag F))
  pub max_tags : ℕ

module _ {F : Type 0} where
  -- `materialize`: the tags with a tag at the id, `none` for NULL. `memory` says that neither the
  -- gate nor `calloc` refuses.
  unfoldable pub materialize :
      F → Option (ℕ → TagSettings F) → Bool → TagSet F → ℕ → Option (TagSet F)
  materialize half settings memory tags id =
      if id == 0 || ltb tags.max_tags id
      then none
      else if exists tags id
      then some tags
      else if memory
      then some (set_slot id (some (new_tag half settings id)) tags)
      else none

  -- The loop of `leme_tags_init` from an id, for the rounds left.
  unfoldable pub init_from :
      F → Option (ℕ → TagSettings F) → (ℕ → Bool) → ℕ → ℕ → TagSet F → Option (TagSet F)
  init_from half settings memory zero id tags = some tags
  init_from half settings memory (suc n) id tags =
      elim (materialize half settings (memory id) tags id) [
        | none ↦ none
        | some tags' ↦ init_from half settings memory n (id + 1) tags'
      ]

  -- Zeroed tags with an empty table.
  unfoldable pub fresh : F → ℕ → ℕ → TagSet F
  fresh zero_position initial_tags max_tags = record {
    initial_tags = initial_tags;
    max_tags = max_tags;
    focused_id = 0;
    focused_is_candidate = false;
    previous_id = 0;
    previous_is_candidate = false;
    previous_valid = false;
    position = zero_position;
    position_active = false;
    last_change_direction = no_change;
    last_change_direction_valid = false;
    table = λ i. none;
  }

  -- `leme_tags_init` on zeroed tags; `table_memory` is for the table, `memory` for each tag.
  unfoldable pub init :
      F → F → Option (ℕ → TagSettings F) → Bool → (ℕ → Bool) → ℕ → ℕ → Option (TagSet F)
  init half zero_position settings table_memory memory initial_tags max_tags =
      if initial_tags == 0 || ltb max_tags initial_tags || not table_memory
      then none
      else elim (init_from half settings memory initial_tags 1
          (fresh zero_position initial_tags max_tags)) [
            | none ↦ none
            | some tags ↦ some (record tags { focused_id = 1 })
          ]

  -- The ids from `id` for the rounds left are free.
  unfoldable pub free_from : TagSet F → ℕ → ℕ → Bool
  free_from tags zero id = true
  free_from tags (suc n) id = not (exists tags id) && free_from tags n (id + 1)

  unfoldable pub can_set_max : TagSet F → ℕ → Bool
  can_set_max tags max_tags =
      not (max_tags == 0) && free_from tags (tags.max_tags - max_tags) (max_tags + 1)

  -- The first id with a tag from `id` on, or the id after the rounds left.
  unfoldable pub first_from : (ℕ → Option (Tag F)) → ℕ → ℕ → ℕ
  first_from table zero id = id
  first_from table (suc n) id = if is_some (table id) then id else first_from table n (id + 1)

  unfoldable pub copied : TagSet F → ℕ → Option (Tag F)
  copied tags i = if leb i tags.max_tags then tags.table i else none

  unfoldable pub prepare_set_max : Bool → TagSet F → ℕ → Option (Resize F)
  prepare_set_max memory tags max_tags =
      if not (can_set_max tags max_tags)
      then none
      else if ltb max_tags tags.focused_id && ltb max_tags (first_from tags.table max_tags 1)
      then none
      else if leb max_tags tags.max_tags
      then some (record { table = none; max_tags = max_tags })
      else if memory
      then some (record { table = some (copied tags); max_tags = max_tags })
      else none

  unfoldable pub new_table : Option (ℕ → Option (Tag F)) → (ℕ → Option (Tag F)) → ℕ → Option (Tag F)
  new_table none old = old
  new_table (some table) old = table

  -- A focus beyond the limit goes to the first tag.
  unfoldable pub commit_set_max : TagSet F → Resize F → TagSet F
  commit_set_max tags r =
      let table = new_table r.table tags.table in
      let lost = ltb r.max_tags tags.focused_id in
      if r.max_tags == 0 then tags else record tags {
        table = table;
        max_tags = r.max_tags;
        previous_valid = tags.previous_valid && not (ltb r.max_tags tags.previous_id);
        last_change_direction_valid = if lost then false else tags.last_change_direction_valid;
        focused_id = if lost then first_from table r.max_tags 1 else tags.focused_id;
        focused_is_candidate = if lost then false else tags.focused_is_candidate;
      }

  unfoldable pub commit_prepared : TagSet F → ℕ → Option (Resize F) → TagSet F × Bool
  commit_prepared tags max_tags none = (tags, false)
  commit_prepared tags max_tags (some r) =
      let tags' = commit_set_max tags r in (tags', leb tags'.focused_id max_tags)

  unfoldable pub set_max : Bool → TagSet F → ℕ → TagSet F × Bool
  set_max memory tags max_tags =
      commit_prepared tags max_tags (prepare_set_max memory tags max_tags)
