-- ===== src/Tags/Ring.antt =====
-- src/workspace/tag.c: the tags that one moves through, and the place among them.
pub mod Members
use leme.Base.{
  ℕ, zero, suc, ◌+◌, ◌==◌, ◌&&◌, ◌||◌, not, ltb, if◌then◌else◌, Bool, true, false, Option, none,
  some, List, [], ◌∷◌, length, take,
}
use leme.Base.Int.{pos}
use leme.Base.Floats.{Floats}
use leme.Tags.{Change, is_change, TagSet, exists}
use leme.Tags.Focus.{beside}

abbrev pub ring_max : ℕ
ring_max = 65

unfoldable pub index_from : ℕ → List ℕ → ℕ → Option ℕ
index_from i [] id = none
index_from i (x ∷ xs) id = if x == id then some i else index_from (i + 1) xs id

module _ {F : Type 0} where
  unfoldable pub is_member : TagSet F → ℕ → ℕ → Bool
  is_member tags candidate id =
      exists tags id || tags.focused_is_candidate && tags.focused_id == id || id == candidate

  -- The members from an id on, for the rounds left.
  unfoldable pub members_from : TagSet F → ℕ → ℕ → ℕ → List ℕ
  members_from tags candidate zero id = []
  members_from tags candidate (suc n) id =
      let rest = members_from tags candidate n (id + 1) in
      if is_member tags candidate id then id ∷ rest else rest

  -- What `ids` holds for a capacity, and the count, which goes on beyond it.
  unfoldable pub collect_members : TagSet F → ℕ → ℕ → List ℕ × ℕ
  collect_members tags candidate capacity =
      let members = members_from tags candidate tags.max_tags 1 in
      (take capacity members, length members)

  unfoldable pub navigable : TagSet F → ℕ → List ℕ × ℕ
  navigable tags capacity = collect_members tags 0 capacity

  -- The first id without a tag on the walk, 0 for none.
  unfoldable pub find_free : TagSet F → Change → ℕ → ℕ → ℕ
  find_free tags direction zero walk = 0
  find_free tags direction (suc n) walk =
      let next = beside tags direction walk in
      let rest = find_free tags direction n next in if exists tags next then rest else next

  unfoldable pub ring_candidate : TagSet F → Change → ℕ
  ring_candidate tags direction =
      if not tags.focused_is_candidate && is_change direction
      then find_free tags direction tags.max_tags tags.focused_id
      else 0

  unfoldable pub ring : TagSet F → Change → ℕ → List ℕ × ℕ
  ring tags direction capacity =
      let (ids, count) = collect_members tags (ring_candidate tags direction) capacity in
      if tags.focused_id == 0 || ltb tags.max_tags tags.focused_id
      then ([], 0)
      else (ids, if ltb capacity count then capacity else count)

  -- The list has as many ids as the count.
  unfoldable pub ring_index : TagSet F → ℕ → Option ℕ
  ring_index tags tag_id = index_from 0 (ring tags Change.forward ring_max).0 tag_id

module _ (R : Floats) where
  open R use {F, of_int}

  -- `is_finite` is `isfinite`, `fmod` the function of the same name.
  unfoldable pub ring_wrap : (F → Bool) → (F → F → F) → F → ℕ → F
  ring_wrap is_finite fmod position count =
      let size = of_int (pos count) in
      let rest = fmod position size in
      let wrapped = if R.lt rest (of_int (pos 0)) then R.add rest size else rest in
      if not (is_finite position) || ltb count 2
      then of_int (pos 0)
      else if R.le size wrapped || not (is_finite wrapped)
      then of_int (pos 0)
      else wrapped

  unfoldable pub index_position : Option ℕ → F
  index_position none = of_int (pos 0)
  index_position (some index) = of_int (pos index)

  unfoldable pub position : TagSet F → F
  position tags =
      if tags.position_active
      then tags.position
      else index_position (ring_index tags tags.focused_id)

  unfoldable pub position_set : TagSet F → F → TagSet F
  position_set tags position = record tags { position = position; position_active = true }
