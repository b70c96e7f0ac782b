-- ===== src/Tags/Arranged/Search.antt =====
-- src/workspace/tag.c: the neighbour of a view, the view under the pointer, and the swap of neighbours.
use leme.Base.{ℕ, ◌==◌, ◌||◌, not, ltb, if◌then◌else◌, Bool, true, false, Option, none, some}
use leme.Base.Floats.{Floats}
use leme.Layout.Direction.{Direction}
use leme.Layout.View.{View, null}
use leme.Layout.Kinds.{dwindle, same_kind}
use leme.Layout.Candidates.{directional_candidate, nearest_candidate}
use leme.Layout.Node.{Node}
use leme.Layout.Swap.{swap_views}
use leme.Tags.{Tag}
use leme.Tags.World.{Owner, no_owner, of_tag, durable, World, edit_tag}
use leme.Tags.Visible.{first_fullscreen, current}
use leme.Tags.Arranged.{swap_order, no_candidates, candidates, targets}

-- The searches among candidates, in `long double`s.
module _ (L : Floats) {F : Type 0} where
  unfoldable pub directional_of : Bool → World F → View → Direction → Bool → Option (Tag F) → View
  directional_of memory w origin direction tiled_only none = null
  directional_of memory w origin direction tiled_only (some tag) =
      let found = candidates w (first_fullscreen w tag.views) tiled_only tag.views in
      if no_candidates found || not memory
      then null
      else directional_candidate L found origin direction

  unfoldable pub directional_view : Bool → World F → ℕ → View → Direction → Bool → View
  directional_view memory w t origin direction tiled_only =
      let tags = w.sets t in
      if tags.focused_id == 0 || ltb tags.max_tags tags.focused_id
      then null
      else directional_of memory w origin direction tiled_only (current tags)

  unfoldable pub drop_target_of :
      Bool → World F → View → Floats.F L → Floats.F L → Option (Tag F) → View
  drop_target_of memory w excluded x y none = null
  drop_target_of memory w excluded x y (some tag) =
      let found = targets w excluded tag.views in
      if not (first_fullscreen w tag.views == null)
      then null
      else if no_candidates found || not memory
      then null
      else nearest_candidate L found x y

  unfoldable pub pointer_drop_target : Bool → World F → ℕ → View → Floats.F L → Floats.F L → View
  pointer_drop_target memory w t excluded x y =
      let tags = w.sets t in
      if tags.focused_id == 0 || ltb tags.max_tags tags.focused_id
      then null
      else drop_target_of memory w excluded x y (current tags)

  unfoldable pub swap_root : Option (Node F) → View → View → Option (Node F) × Bool
  swap_root none v neighbor = (none, false)
  swap_root (some root) v neighbor =
      let (root', swapped) = swap_views root v neighbor in (some root', swapped)

  -- A dwindle layout exchanges its leaves, the others take the list's order.
  unfoldable pub swap_in : View → View → Tag F → Tag F × Bool
  swap_in v neighbor tag =
      let (root', swapped) = swap_root tag.layout.root v neighbor in
      let (views', ordered) = swap_order tag.views v neighbor in
      if same_kind tag.layout.kind dwindle
      then (record tag { layout = record (tag.layout) { root = root' } }, swapped)
      else (record tag { views = views' }, ordered)

  unfoldable pub swap_slot : World F → ℕ → ℕ → View → View → Option (Tag F) → World F × Bool
  swap_slot w s i v neighbor none = (w, false)
  swap_slot w s i v neighbor (some tag) =
      let (tag', swapped) = swap_in v neighbor tag in (edit_tag w s i (λ old. tag'), swapped)

  unfoldable pub swap_owned : Bool → World F → ℕ → View → Direction → Owner → World F × Bool
  swap_owned memory w t v direction no_owner = (w, false)
  swap_owned memory w t v direction (durable d) = (w, false)
  swap_owned memory w t v direction (of_tag s i) =
      let neighbor = directional_view memory w t v direction true in
      if (w.views v).floating || (w.views v).detached || (w.views v).fullscreen || neighbor == null
      then (w, false)
      else swap_slot w s i v neighbor ((w.sets s).table i)

  unfoldable pub swap_directional : Bool → World F → ℕ → View → Direction → World F × Bool
  swap_directional memory w t v direction =
      if v == null then (w, false) else swap_owned memory w t v direction (w.views v).owner
