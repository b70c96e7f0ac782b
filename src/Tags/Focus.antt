-- ===== src/Tags/Focus.antt =====
-- src/workspace/tag.c: the focus of the tags of an output.
pub mod Steps
pub mod Kept
use leme.Base.{
  ℕ, zero, suc, ◌+◌, ◌-◌, ◌==◌, ◌&&◌, ◌||◌, not, ltb, if◌then◌else◌, Bool, true, false, Option,
  none, some, is_some,
}
use leme.Tags.{
  Change, backward, no_change, forward, is_change, reversed, Tag, TagSet, exists, set_slot,
}

unfoldable pub same_bool : Bool → Bool → Bool
same_bool true b = b
same_bool false b = not b

module _ {F : Type 0} where
  -- The previous tag becomes the focused one, where it is recorded.
  unfoldable pub record_focus : Bool → TagSet F → TagSet F
  record_focus record_previous tags =
      if record_previous
      then record tags {
        previous_id = tags.focused_id;
        previous_is_candidate = tags.focused_is_candidate;
        previous_valid = true;
      }
      else tags

  unfoldable pub set_focus_state : TagSet F → ℕ → Bool → Bool → Change → TagSet F × Bool
  set_focus_state tags id is_candidate record_previous direction =
      if id == 0 || ltb tags.max_tags id || not (is_change direction)
      then (tags, false)
      else if tags.focused_id == id && same_bool tags.focused_is_candidate is_candidate
      then (tags, true)
      else (
        record (record_focus record_previous tags) {
          focused_id = id;
          focused_is_candidate = is_candidate;
          last_change_direction = direction;
          last_change_direction_valid = true;
        },
        true,
      )

  unfoldable pub focus_id_direction : TagSet F → ℕ → Change → TagSet F × Option (Tag F)
  focus_id_direction tags id direction =
      let is_candidate = not (exists tags id) in
      let (tags', done) = set_focus_state tags id is_candidate true direction in
      if id == 0 || ltb tags.max_tags id || not (is_change direction)
      then (tags, none)
      else if tags.focused_id == id
      then (record tags { focused_is_candidate = is_candidate }, tags.table id)
      else (tags', if done then tags.table id else none)

  unfoldable pub focus_id : TagSet F → ℕ → TagSet F × Option (Tag F)
  focus_id tags id =
      if id == 0 || ltb tags.max_tags id
      then (tags, none)
      else if tags.focused_id == id
      then (record tags { focused_is_candidate = not (exists tags id) }, tags.table id)
      else focus_id_direction tags id (if ltb tags.focused_id id then forward else backward)

  -- The loop downwards, from an id that is the rounds left.
  unfoldable pub last_from : TagSet F → ℕ → ℕ
  last_from tags zero = 1
  last_from tags (suc n) = if exists tags (suc n) then suc n else last_from tags n

  unfoldable pub last_materialized : TagSet F → ℕ
  last_materialized tags = last_from tags tags.max_tags

  unfoldable pub backward_wrap_id : TagSet F → ℕ
  backward_wrap_id tags =
      let last = last_materialized tags in
      if ltb last tags.max_tags then last + 1 else tags.max_tags

  -- The id beside `id`; ids are at least 1.
  unfoldable pub beside : TagSet F → Change → ℕ → ℕ
  beside tags forward id = if id == tags.max_tags then 1 else id + 1
  beside tags _ id = if id == 1 then backward_wrap_id tags else id - 1

  -- The loop of `leme_tags_step` away from a candidate.
  unfoldable pub find_tag : TagSet F → Change → ℕ → ℕ → Option ℕ
  find_tag tags direction zero id = none
  find_tag tags direction (suc n) id =
      let next = beside tags direction id in
      let rest = find_tag tags direction n next in if exists tags next then some next else rest

  unfoldable pub step_candidate : TagSet F → Change → Option ℕ → TagSet F × Option (Tag F)
  step_candidate tags direction none = (tags, none)
  step_candidate tags direction (some id) =
      ((set_focus_state tags id false true direction).0, tags.table id)

  unfoldable pub step_beside : TagSet F → Change → ℕ → TagSet F × Option (Tag F)
  step_beside tags direction id =
      ((set_focus_state tags id (not (exists tags id)) true direction).0, tags.table id)

  unfoldable pub step : TagSet F → Change → TagSet F × Option (Tag F)
  step tags direction =
      if not (is_change direction)
      then (tags, none)
      else if tags.focused_is_candidate
      then step_candidate tags direction (find_tag tags direction tags.max_tags tags.focused_id)
      else step_beside tags direction (beside tags direction tags.focused_id)

  unfoldable pub adjacent_id : TagSet F → Change → ℕ
  adjacent_id tags direction =
      if not (is_change direction) || tags.focused_id == 0 || ltb tags.max_tags tags.focused_id
      then 0
      else beside tags direction tags.focused_id

  -- The direction back, from the last change or from the ids.
  unfoldable pub return_direction : TagSet F → Change
  return_direction tags =
      if tags.last_change_direction_valid
      then reversed tags.last_change_direction
      else if ltb tags.focused_id tags.previous_id
      then forward
      else backward

  unfoldable pub focus_last : TagSet F → TagSet F × Bool
  focus_last tags =
      let is_candidate = tags.previous_is_candidate && not (exists tags tags.previous_id) in
      if not tags.previous_valid || tags.previous_id == 0 || ltb tags.max_tags tags.previous_id
      then (tags, false)
      else if not is_candidate && not (exists tags tags.previous_id)
      then (record tags { previous_valid = false }, false)
      else (
        record tags {
          focused_id = tags.previous_id;
          focused_is_candidate = is_candidate;
          previous_id = tags.focused_id;
          previous_is_candidate = tags.focused_is_candidate;
          last_change_direction = return_direction tags;
          last_change_direction_valid = true;
        },
        true,
      )
