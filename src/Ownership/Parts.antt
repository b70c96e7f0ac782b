-- ===== src/Ownership/Parts.antt =====
-- src/workspace/tag.c and src/shell/ownership.c: what the steps on one set of tags, and on one owner,
-- leave as it was.
use leme.Base.{
  ℕ, ◌==◌, ◌&&◌, ◌||◌, not, ltb, leb, Bool, true, false, Option, none, some, ◌≡◌, ◌⊎◌, refl, arith,
  ap, is_some, inl, inr, if_cases,
}
use leme.Layout.View.{View, null}
use leme.Tags.{Change, is_change, Tag, TagSet, exists, IsSound}
use leme.Tags.Focus.{
  record_focus, set_focus_state, focus_id_direction, focus_id, step_candidate, step_beside, step,
  focus_last,
}
use leme.Tags.Limit.{
  Resize, copied, prepare_set_max, can_set_max, first_from, new_table, commit_set_max,
  commit_prepared, set_max,
}
use leme.Tags.World.{Presentation, Durable, no_owner, World, views_of}
use leme.Tags.Move
use leme.Tags.Move.Whole.{IsWhole}
use leme.Ownership.{valid_durable, owner_is_none, owner_durable}
use leme.Ownership.Durables.{present_owner, present_durable, clear, set_unmanaged_output}
use leme.Ownership.Views.{edit_view-IsWhole, set_owner-IsWhole, none_off, durable_off}

module _ {F : Type 0} where
  abbrev Keeps : TagSet F → TagSet F × Option (Tag F) → Type 0
  Keeps tags r = r.0.table ≡ tags.table

  table-set_focus_state :
      (tags : TagSet F) (id : ℕ) (c r : Bool) (d : Change)
      → (set_focus_state tags id c r d).0.table ≡ tags.table
  unfolding set_focus_state record_focus
  table-set_focus_state tags id c r d = ground arith

  table-focus_id_direction :
      (tags : TagSet F) (id : ℕ) (d : Change) → (focus_id_direction tags id d).0.table ≡ tags.table
  unfolding focus_id_direction
  table-focus_id_direction tags id d =
      if_cases (Keeps tags) (id == 0 || ltb tags.max_tags id || not (is_change d)) _ _ (λ e. refl)
        (λ e.
          if_cases (Keeps tags) (tags.focused_id == id) _ _ (λ f. refl)
            (λ f. table-set_focus_state tags id (not (exists tags id)) true d))

  pub table-focus_id : (tags : TagSet F) (id : ℕ) → (focus_id tags id).0.table ≡ tags.table
  unfolding focus_id
  table-focus_id tags id =
      if_cases (Keeps tags) (id == 0 || ltb tags.max_tags id) _ _ (λ e. refl)
        (λ e.
          if_cases (Keeps tags) (tags.focused_id == id) _ _ (λ f. refl)
            (λ f. table-focus_id_direction tags id _))

  table-step_candidate :
      (tags : TagSet F) (direction : Change) (o : Option ℕ)
      → (step_candidate tags direction o).0.table ≡ tags.table
  unfolding step_candidate
  table-step_candidate tags direction none = refl
  table-step_candidate tags direction (some id) = table-set_focus_state tags id false true direction

  pub table-step :
      (tags : TagSet F) (direction : Change) → (step tags direction).0.table ≡ tags.table
  unfolding step step_beside
  table-step tags direction =
      if_cases (Keeps tags) (not (is_change direction)) _ _ (λ e. refl)
        (λ e.
          if_cases (Keeps tags) tags.focused_is_candidate _ _
            (λ f. table-step_candidate tags direction _)
            (λ f. table-set_focus_state tags _ _ true direction))

  pub table-focus_last : (tags : TagSet F) → (focus_last tags).0.table ≡ tags.table
  unfolding focus_last
  table-focus_last tags = ground arith

  views-commit :
      (tags : TagSet F) (table : Option (ℕ → Option (Tag F))) (max_tags i : ℕ)
      → IsSound tags
      → (table ≡ none) ⊎ (table ≡ some (copied tags))
      → views_of ((commit_set_max tags (record { table = table; max_tags = max_tags })).table i)
        ≡ views_of (tags.table i)
  unfolding commit_set_max new_table copied views_of
  views-commit tags table max_tags i s (inl e) = rw e (ground arith)
  views-commit tags table max_tags i s (inr e) = rw e (ground (arith, s.slots_high i))

  abbrev KeepsViews : TagSet F → ℕ → Option (Resize F) → Type 0
  KeepsViews tags i none = Unit {0}
  KeepsViews tags i (some r) = views_of ((commit_set_max tags r).table i) ≡ views_of (tags.table i)

  views-prepared :
      (memory : Bool) (tags : TagSet F) (max_tags i : ℕ)
      → IsSound tags
      → KeepsViews tags i (prepare_set_max memory tags max_tags)
  unfolding prepare_set_max
  views-prepared memory tags max_tags i s =
      if_cases (KeepsViews tags i) (not (can_set_max tags max_tags)) _ _ (λ e. tt)
        (λ e.
          if_cases (KeepsViews tags i)
            (ltb max_tags tags.focused_id && ltb max_tags (first_from tags.table max_tags 1)) _ _
            (λ f. tt)
            (λ f.
              if_cases (KeepsViews tags i) (leb max_tags tags.max_tags) _ _
                (λ g. views-commit tags none max_tags i s (inl refl))
                (λ g.
                  if_cases (KeepsViews tags i) memory _ _
                    (λ h. views-commit tags (some (copied tags)) max_tags i s (inr refl))
                    (λ h. tt))))

  views-commit_prepared :
      (tags : TagSet F) (max_tags i : ℕ) (o : Option (Resize F))
      → KeepsViews tags i o
      → views_of ((commit_prepared tags max_tags o).0.table i) ≡ views_of (tags.table i)
  unfolding commit_prepared
  views-commit_prepared tags max_tags i none k = refl
  views-commit_prepared tags max_tags i (some r) k = k

  pub views-set_max :
      (memory : Bool) (tags : TagSet F) (max_tags i : ℕ)
      → IsSound tags
      → views_of ((set_max memory tags max_tags).0.table i) ≡ views_of (tags.table i)
  unfolding set_max
  views-set_max memory tags max_tags i s =
      views-commit_prepared tags max_tags i _ (views-prepared memory tags max_tags i s)

  present_owner-IsWhole :
      (w : World F) (v : View) (presentation : Presentation) (output : Option ℕ)
      (o : Option Durable)
      → IsWhole w
      → owner_durable (w.views v).owner ≡ o
      → IsWhole (present_owner presentation output w v o).0
  unfolding present_owner Move.has_tag
  present_owner-IsWhole w v presentation output none h e = h
  present_owner-IsWhole w v presentation output (some d) h e =
      if_cases {A = World F × Bool} (λ r. IsWhole r.0) (valid_durable d.reason presentation output)
        _ _ (λ f. set_owner-IsWhole w v _ h (durable_off (w.views v).owner (ap is_some e)) refl)
        (λ f. h)

  pub present_durable-IsWhole :
      (w : World F) (v : View) (presentation : Presentation) (output : Option ℕ)
      → IsWhole w
      → IsWhole (present_durable w v presentation output).0
  unfolding present_durable
  present_durable-IsWhole w v presentation output h =
      if_cases {A = World F × Bool} (λ r. IsWhole r.0) (v == null) _ _ (λ e. h)
        (λ e. present_owner-IsWhole w v presentation output _ h refl)

  pub clear-IsWhole :
      (w : World F) (v : View)
      → IsWhole w
      → Move.has_tag (w.views v).owner ≡ false
      → IsWhole (clear w v)
  unfolding clear Move.has_tag
  clear-IsWhole w v h n =
      if_cases {A = World F} IsWhole (v == null) _ _ (λ e. h)
        (λ e.
          edit_view-IsWhole w v (λ view. record view { owner = no_owner; unmanaged_output = none })
            h n refl)

  pub set_unmanaged_output-IsWhole :
      (w : World F) (v : View) (output : Option ℕ)
      → IsWhole w
      → IsWhole (set_unmanaged_output w v output)
  unfolding set_unmanaged_output
  set_unmanaged_output-IsWhole w v output h =
      if_cases {A = World F} IsWhole
        (v == null || not (w.views v).unmanaged || not (owner_is_none (w.views v).owner)) _ _
        (λ e. h)
        (λ e.
          let n = none_off (w.views v).owner (ground (arith, e)) in
          edit_view-IsWhole w v (λ view. record view { unmanaged_output = output }) h n n)
