-- ===== src/Layout/Drag/Update.antt =====
-- src/workspace/layout.c: `leme_layout_resize_drag_update`.
use leme.Base.{
  ℕ, ◌==◌, ◌&&◌, not, if◌then◌else◌, Bool, Option, none, some, List, [], ◌∷◌, ◌++◌, ◌≡◌, refl, ap₂,
  ◌∙◌, arith, Bool-cases, Option-cases, if_cases, inl, inr,
}
use leme.Base.Int.{ℤ, pos, ltb_ℤ, ltb_ℤ→lt}
use leme.Base.Floats.{Floats, ComparesNumbers}
use leme.Layout.View.{View, null}
use leme.Layout.Node.{
  horizontal, vertical, Node, leaf, branch, Frame, in_first, in_second, Found, find, leaves,
}
use leme.Layout.Detach.{frame_branch}
use leme.Layout.Resize.{same_split}
use leme.Layout.Resize.Ratio.{
  InRange, InRange-IsNumber, RatiosInRange, FramesInRange, AllInRange, first_InRange,
  found-FramesInRange, clamp_ratio-InRange,
}
use leme.Layout.Drag.{
  Drag, DragAxis, is_none, axis_of, horizontal_match, vertical_match, empty_drag, edges_valid,
  drag_step, drag_walk, drag_begin, set_ratio, dragged_ratio, update_axis, drag_update,
}

module _ (R : Floats) where
  open R use {F}

  set_ratio-leaves : (a : ℕ) (x : F) (n : Node F) → leaves (set_ratio a x n) ≡ leaves n
  unfolding set_ratio leaves
  set_ratio-leaves a x (leaf b v) = refl
  set_ratio-leaves a x (branch b l r) = ap₂ ◌++◌ (set_ratio-leaves a x l) (set_ratio-leaves a x r)

  set_ratio-InRange :
      (a : ℕ) (x : F) (n : Node F)
      → InRange R x
      → RatiosInRange R n
      → RatiosInRange R (set_ratio a x n)
  unfolding set_ratio RatiosInRange
  set_ratio-InRange a x (leaf b v) h k = tt
  set_ratio-InRange a x (branch b l r) h (p, q, s) =
      (ground arith, set_ratio-InRange a x l h q, set_ratio-InRange a x r h s)

  -- The ratio that a drag starts from.
  unfoldable pub AxisInRange : Option (DragAxis F) → Type 0
  AxisInRange none = Unit
  AxisInRange (some axis) = InRange R axis.ratio

  pub record DragInRange (d : Drag F) : Type 0 where
    pub horizontal_ratio : AxisInRange d.horizontal_axis
    pub vertical_ratio : AxisInRange d.vertical_axis

  pub empty_drag-InRange : DragInRange empty_drag
  unfolding empty_drag AxisInRange
  empty_drag-InRange = record { horizontal_ratio = tt; vertical_ratio = tt }

  drag_step-InRange :
      (edges : ℕ) (f : Frame F) (d : Drag F)
      → InRange R (frame_branch f).ratio
      → DragInRange d
      → DragInRange (drag_step edges f d)
  unfolding drag_step axis_of AxisInRange
  drag_step-InRange edges f d h k =
      let b = frame_branch f in
      if_cases DragInRange
        (ltb_ℤ (pos 0) b.axis_length
          && horizontal_match edges f
          && same_split b.split horizontal
          && is_none d.horizontal_axis)
        (record d { horizontal_axis = some (axis_of b) })
        (if ltb_ℤ (pos 0) b.axis_length
            && vertical_match edges f
            && same_split b.split vertical
            && is_none d.vertical_axis
          then record d { vertical_axis = some (axis_of b) }
          else d)
        (λ e. record { horizontal_ratio = h; vertical_ratio = k.vertical_ratio })
        (λ e.
          if_cases DragInRange
            (ltb_ℤ (pos 0) b.axis_length
              && vertical_match edges f
              && same_split b.split vertical
              && is_none d.vertical_axis)
            (record d { vertical_axis = some (axis_of b) }) d
            (λ g. record { horizontal_ratio = k.horizontal_ratio; vertical_ratio = h }) (λ g. k))

  above_InRange :
      (f : Frame F) (above : List (Frame F)) → FramesInRange R (f ∷ above) → FramesInRange R above
  unfolding FramesInRange
  above_InRange (in_first b o) above (p, q, k) = k
  above_InRange (in_second b o) above (p, q, k) = k

  drag_walk-InRange :
      (edges : ℕ) (above : List (Frame F)) (d : Drag F)
      → FramesInRange R above
      → DragInRange d
      → DragInRange (drag_walk edges above d)
  unfolding drag_walk
  drag_walk-InRange edges [] d h k = k
  drag_walk-InRange edges (f ∷ above) d h k =
      drag_walk-InRange edges above (drag_step edges f d) (above_InRange f above h)
        (drag_step-InRange edges f d (first_InRange R f above h) k)

  drag_find-InRange :
      (root : Option (Node F)) (v : View) (f : Found F)
      → find root v ≡ some f
      → AllInRange R root
      → FramesInRange R f.parents
  unfolding find
  drag_find-InRange none v f e h = absurd (cc e)
  drag_find-InRange (some root) v f e h = found-FramesInRange R root v f e h

  pub drag_begin-InRange :
      (root : Option (Node F)) (v : View) (edges : ℕ)
      → AllInRange R root
      → DragInRange (drag_begin root v edges).0
  unfolding drag_begin
  drag_begin-InRange root v edges h =
      if_cases {A = Drag F × Bool} (λ r. DragInRange r.0) (not (v == null) && edges_valid edges) _ _
        (λ e. elim (Option-cases (find root v)) [
          | inl p ↦ rw (p, drag_begin) empty_drag-InRange
          | inr (f, p) ↦
              rw (p, drag_begin)
                (drag_walk-InRange edges f.parents empty_drag (drag_find-InRange root v f p h)
                  empty_drag-InRange)
        ])
        (λ e. empty_drag-InRange)

  module _ (c : ComparesNumbers R) where
    update_axis_keeps :
        (axis : Option (DragAxis F)) (delta : ℤ) (n : Node F)
        → AxisInRange axis
        → (leaves (update_axis R axis delta n).0 ≡ leaves n)
          × (RatiosInRange R n → RatiosInRange R (update_axis R axis delta n).0)
    unfolding update_axis dragged_ratio AxisInRange
    update_axis_keeps none delta n a = (refl, λ h. h)
    update_axis_keeps (some axis) delta n a = elim (Bool-cases (ltb_ℤ (pos 0) axis.length)) [
      | inl e ↦ rw e (
        set_ratio-leaves axis.address _ n,
        set_ratio-InRange axis.address _ n (
            clamp_ratio-InRange R c _ (
              c.add_quotient axis.ratio delta axis.length (InRange-IsNumber R c axis.ratio a)
                (ltb_ℤ→lt _ _ e))),
      )
      | inr e ↦ rw e (refl, λ h. h)
    ]

    pub drag_update-InRange :
        (d : Drag F) (dx dy : ℤ) (n : Node F)
        → DragInRange d
        → (leaves (drag_update R d dx dy n).0 ≡ leaves n)
          × (RatiosInRange R n → RatiosInRange R (drag_update R d dx dy n).0)
    unfolding drag_update
    drag_update-InRange d dx dy n k =
        let (p, q) = update_axis_keeps d.horizontal_axis dx n k.horizontal_ratio in
        let (p', q') =
          update_axis_keeps d.vertical_axis dy (update_axis R d.horizontal_axis dx n).0
            k.vertical_ratio in
        (p' ∙ p, λ h. q' (q h))

    -- A step of a drag that began at a view of a tree whose ratios are all between a tenth and nine
    -- tenths keeps the windows and their order in any tree whose ratios are so, and keeps every ratio
    -- there, a NaN excluded, however far the pointer moves. Of `double` it is assumed that comparisons
    -- are as IEEE 754 says, that 0.1 ≤ 0.9, and that a number plus or minus an `int` over a positive one
    -- is a number.
    pub drag_update_keeps :
        (start : Option (Node F)) (v : View) (edges : ℕ) (dx dy : ℤ) (n : Node F)
        → AllInRange R start
        → RatiosInRange R n
        → (leaves (drag_update R (drag_begin start v edges).0 dx dy n).0 ≡ leaves n)
          × RatiosInRange R (drag_update R (drag_begin start v edges).0 dx dy n).0
    drag_update_keeps start v edges dx dy n s h =
        let (p, q) =
          drag_update-InRange (drag_begin start v edges).0 dx dy n
            (drag_begin-InRange start v edges s) in
        (p, q h)
