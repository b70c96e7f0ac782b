-- ===== src/Ownership/Run.antt =====
-- src/workspace/tag.c and src/shell/ownership.c: the operations on the tags of all outputs and on the
-- owners as steps, in any order, with any answers of the allocator.
use leme.Base.{ℕ, Bool, true, false, Option, ◌≡◌, ap}
use leme.Layout.View.{View}
use leme.Layout.Kinds.{Alloc}
use leme.Tags.{Change, TagSettings, exists}
use leme.Tags.Focus.{focus_id, step, focus_last}
use leme.Tags.Focus.Kept.{focus_id-IsSound, step-IsSound, focus_last-IsSound}
use leme.Tags.Limit.{set_max}
use leme.Tags.Limit.Kept.{set_max-IsSound}
use leme.Tags.World.{Presentation, of_tag, World, views_of, members}
use leme.Tags.Move
use leme.Tags.Move.Whole.{IsWhole}
use leme.Tags.Move.Steps.{
  assign_view_to-IsWhole, move_view-IsWhole, adopt_view-IsWhole, prepare_floating_attach-IsWhole,
  attach_floating_prepared-IsWhole, remove_view-IsWhole, replace-IsWhole,
}
use leme.Ownership.Durables.{Transition, present_durable, clear, set_unmanaged_output, commit}
use leme.Ownership.Kept.{IsReady, commit-IsWhole}
use leme.Ownership.Parts.{
  table-focus_id, table-step, table-focus_last, views-set_max, present_durable-IsWhole,
  clear-IsWhole, set_unmanaged_output-IsWhole,
}

module _ {F : Type 0} (half : F) (settings : Option (ℕ → TagSettings F)) where
  -- One operation. A view moves within the set of its tag, a view that is attached afloat has no tag and
  -- its tag is there, a transition is ready when it is committed, and only a view without a tag is cleared.
  pub data Step : World F → World F → Type 0 where
    assigned :
        {w : World F} (memory : Bool) (alloc : Alloc) (t : ℕ) (v : View) (id : ℕ)
        → Step w (Move.assign_view_to half settings memory alloc w t v id).0
    moved :
        {w : World F} (memory : Bool) (alloc : Alloc) (t i : ℕ) (v : View) (id : ℕ)
        → (w.views v).owner ≡ of_tag t i
        → Step w (Move.move_view half settings memory alloc w t v id).0
    adopted :
        {w : World F} (memory : Bool) (alloc : Alloc) (t : ℕ) (v : View) (id : ℕ)
        → Step w (Move.adopt_view half settings memory alloc w t v id).0
    prepared :
        {w : World F} (memory : Bool) (alloc : Alloc) (t id : ℕ)
        → Step w (Move.prepare_floating_attach half settings memory alloc w t id).0
    floated :
        {w : World F} (memory : Bool) (alloc : Alloc) (t id : ℕ) (v : View) (focused : Bool)
        → Move.has_tag (w.views v).owner ≡ false
        → exists (w.sets t) id ≡ true
        → Step w (Move.attach_floating_prepared half settings memory alloc w t id v focused)
    removed : {w : World F} (v : View) → Step w (Move.remove_view w v)
    focused : {w : World F} (t id : ℕ) → Step w (Move.with_set w t (focus_id (w.sets t) id).0)
    stepped :
        {w : World F} (t : ℕ) (direction : Change)
        → Step w (Move.with_set w t (step (w.sets t) direction).0)
    went_back : {w : World F} (t : ℕ) → Step w (Move.with_set w t (focus_last (w.sets t)).0)
    limited :
        {w : World F} (memory : Bool) (t max_tags : ℕ)
        → Step w (Move.with_set w t (set_max memory (w.sets t) max_tags).0)
    committed :
        {w : World F} (alloc : Alloc) (tr : Transition F)
        → IsReady w tr
        → Step w (commit half settings alloc w tr)
    shown :
        {w : World F} (v : View) (presentation : Presentation) (output : Option ℕ)
        → Step w (present_durable w v presentation output).0
    cleared : {w : World F} (v : View) → Move.has_tag (w.views v).owner ≡ false → Step w (clear w v)
    unmanaged_on :
        {w : World F} (v : View) (output : Option ℕ) → Step w (set_unmanaged_output w v output)

  pub data Run : World F → World F → Type 0 where
    done : {w : World F} → Run w w
    next : {w w' w'' : World F} → Run w w' → Step w' w'' → Run w w''

module _ {F : Type 0} {half : F} {settings : Option (ℕ → TagSettings F)} where
  Step-IsWhole : {w w' : World F} → Step half settings w w' → IsWhole w → IsWhole w'
  unfolding members views_of
  Step-IsWhole {w} (assigned memory alloc t v id) h =
      assign_view_to-IsWhole half settings memory alloc w t v id h
  Step-IsWhole {w} (moved memory alloc t i v id o) h =
      move_view-IsWhole half settings memory alloc w t i v id h o
  Step-IsWhole {w} (adopted memory alloc t v id) h =
      adopt_view-IsWhole half settings memory alloc w t v id h
  Step-IsWhole {w} (prepared memory alloc t id) h =
      prepare_floating_attach-IsWhole half settings memory alloc w t id h
  Step-IsWhole {w} (floated memory alloc t id v f n e) h =
      attach_floating_prepared-IsWhole half settings memory alloc w t id v f h n e
  Step-IsWhole {w} (removed v) h = remove_view-IsWhole w v h
  Step-IsWhole {w} (focused t id) (a, c) =
      replace-IsWhole w t _ (a, c) (focus_id-IsSound (w.sets t) id (a t))
        (λ i. ap (λ table. views_of (table i)) (table-focus_id (w.sets t) id))
  Step-IsWhole {w} (stepped t d) (a, c) =
      replace-IsWhole w t _ (a, c) (step-IsSound (w.sets t) d (a t))
        (λ i. ap (λ table. views_of (table i)) (table-step (w.sets t) d))
  Step-IsWhole {w} (went_back t) (a, c) =
      replace-IsWhole w t _ (a, c) (focus_last-IsSound (w.sets t) (a t))
        (λ i. ap (λ table. views_of (table i)) (table-focus_last (w.sets t)))
  Step-IsWhole {w} (limited memory t max_tags) (a, c) =
      replace-IsWhole w t _ (a, c) (set_max-IsSound memory (w.sets t) max_tags (a t)).0
        (λ i. views-set_max memory (w.sets t) max_tags i (a t))
  Step-IsWhole {w} (committed alloc tr r) h = commit-IsWhole half settings alloc w tr h r
  Step-IsWhole {w} (shown v presentation output) h =
      present_durable-IsWhole w v presentation output h
  Step-IsWhole {w} (cleared v n) h = clear-IsWhole w v h n
  Step-IsWhole {w} (unmanaged_on v output) h = set_unmanaged_output-IsWhole w v output h

  -- Any sequence of assignments, moves, adoptions, removals, changes of focus, new limits, and transitions
  -- of owners, with any answers of the allocator, keeps every set of tags sound and the list of each
  -- tag equal to the views that name it as their owner, each once. It is as the source asserts: a view
  -- moves within the set of its tag, one that is attached afloat has no tag and its tag is there, a
  -- transition is ready when it is committed, and a view that is cleared has no tag.
  pub Run-IsWhole : {w w' : World F} → Run half settings w w' → IsWhole w → IsWhole w'
  Run-IsWhole done h = h
  Run-IsWhole (next r s) h = Step-IsWhole s (Run-IsWhole r h)
