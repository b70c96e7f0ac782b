-- ===== src/Layout/Kinds/Tuned.antt =====
-- src/workspace/layout.c: the operations on a layout, and the settings that they move.
use leme.Base.{
  ℕ, if◌then◌else◌, Bool, true, false, Option, none, some, List, [], ◌∷◌, arith, inl, inr,
  Bool-cases, Option-cases,
}
use leme.Base.Int.{ℤ, pos, ◌≤ℤ◌, ltb_ℤ, ltb_ℤ→le}
use leme.Base.Floats.{Floats, IsNumber, ComparesNumbers}
use leme.Box.{Box}
use leme.Layout.View.{View, null}
use leme.Layout.Node.{
  Node, leaf, branch, Frame, in_first, in_second, plug, sibling, find_from, find, first_from,
}
use leme.Layout.Node.Leaves.{first_from-FirstSpec}
use leme.Layout.Tree.{new_leaf, split_target, split_leaf, or_else, insert, unlink, remove}
use leme.Layout.Arrange.{arrange_node, arrange}
use leme.Layout.Resize.{Edge, needs_first}
use leme.Layout.Resize.Ratio.{
  InRange, RatiosInRange, FramesInRange, RatiosInRange-plug, plug-FramesInRange, AllInRange,
  InRange-IsNumber, found-FramesInRange, resize_focused-Keeps, clamp_ratio-InRange,
}
use leme.Layout.Kinds.{
  Kind, dwindle, master_stack, accordion, same_kind, Layout, Alloc, layout_finish, add_view,
  remove_view, rebuild, set_kind, is_horizontal, clamp_collapse, arrange_kind, arrange_subject,
  resize_kind, resize,
}

-- The operations of layout.h on a `struct leme_layout`.
pub data Operation (F : Type 0) : Type 0 where
  adds : View → View → Alloc → Operation F
  removes : View → Operation F
  changes : Kind → List (View × Alloc) → Operation F
  arranges : List View → View → Box → ℤ → Operation F
  resizes : View → Edge → ℤ → Box → Operation F
  finishes : Operation F

module _ (R : Floats) (c : ComparesNumbers R) (half_in_range : InRange R R.one_half) where
  open R use {F, of_int, add, sub, div, one_half}

  -- The fields that a resize changes.
  pub record IsTuned (layout : Layout F) : Type 0 where
    pub ratios : AllInRange R layout.root
    pub master_ratio : InRange R layout.mfact
    pub collapse_low : pos 10 ≤ℤ layout.collapse_width
    pub collapse_high : layout.collapse_width ≤ℤ pos 400

  first_parents :
      (root : Node F) → RatiosInRange R root → FramesInRange R (first_from [] root).parents
  unfolding plug
  first_parents root h =
      let s = first_from-FirstSpec [] root in
      (plug-FramesInRange R (first_from [] root).parents
        (leaf (first_from [] root).address (first_from [] root).view) (rw (s.rebuilds) h)).0

  target_parents :
      (root : Node F) (v : View)
      → RatiosInRange R root
      → FramesInRange R (split_target root v).parents
  unfolding split_target find
  target_parents root v h = elim (Option-cases (find_from [] root v)) [
    | inl e ↦ rw (e, split_target) (first_parents root h)
    | inr (f, e) ↦ rw (e, split_target) (found-FramesInRange R root v f e h)
  ]

  insert_tuned :
      (root : Option (Node F)) (v added : View) (a b : Option ℕ)
      → AllInRange R root
      → AllInRange R (insert one_half root v added a b)
  unfolding insert new_leaf split_leaf or_else RatiosInRange
  insert_tuned none v added none b h = tt
  insert_tuned none v added (some a) b h = tt
  insert_tuned (some root) v added none b h = h
  insert_tuned (some root) v added (some a) none h = h
  insert_tuned (some root) v added (some a) (some b) h =
      RatiosInRange-plug R (split_target root v).parents _ (target_parents root v h)
        (half_in_range, tt, tt)

  unlink_tuned : (above : List (Frame F)) → FramesInRange R above → AllInRange R (unlink above)
  unfolding unlink sibling FramesInRange
  unlink_tuned [] h = tt
  unlink_tuned (in_first b o ∷ above) (p, q, h) = RatiosInRange-plug R above o h q
  unlink_tuned (in_second b o ∷ above) (p, q, h) = RatiosInRange-plug R above o h q

  remove_tuned :
      (root : Option (Node F)) (v : View) → AllInRange R root → AllInRange R (remove root v)
  unfolding remove find
  remove_tuned none v h = tt
  remove_tuned (some root) v h = elim (Option-cases (find_from [] root v)) [
    | inl e ↦ rw (e, remove) h
    | inr (f, e) ↦ rw (e, remove) (unlink_tuned f.parents (found-FramesInRange R root v f e h))
  ]

  arrange_tuned :
      (n : Node F) (area : Box) (gap : ℤ)
      → RatiosInRange R n
      → RatiosInRange R (arrange_node R n area gap).0
  unfolding arrange_node RatiosInRange
  arrange_tuned (leaf a v) area gap h = tt
  arrange_tuned (branch b l r) area gap (p, q, s) =
      (p, arrange_tuned l _ gap q, arrange_tuned r _ gap s)

  rebuild_tuned :
      (root : Option (Node F)) (v : View) (views : List (View × Alloc))
      → AllInRange R root
      → AllInRange R (rebuild one_half root v views)
  unfolding rebuild
  rebuild_tuned root v [] h = h
  rebuild_tuned root v ((w, (a, b)) ∷ rest) h =
      rebuild_tuned (insert one_half root v w a b) w rest (insert_tuned root v w a b h)

  clamp_collapse_bounds : (w : ℤ) → (pos 10 ≤ℤ clamp_collapse w) × (clamp_collapse w ≤ℤ pos 400)
  unfolding clamp_collapse ltb_ℤ
  clamp_collapse_bounds w = ground arith

  turned-IsNumber :
      (grows : Bool) (delta width : ℤ) (ratio : F)
      → InRange R ratio
      → pos 1 ≤ℤ width
      → IsNumber R (
          if grows
          then add ratio (div (of_int delta) (of_int width))
          else sub ratio (div (of_int delta) (of_int width)))
  turned-IsNumber true delta width ratio h w =
      c.add_quotient ratio delta width (InRange-IsNumber R c ratio h) (omega arith)
  turned-IsNumber false delta width ratio h w =
      c.sub_quotient ratio delta width (InRange-IsNumber R c ratio h) (omega arith)

  resize-IsTuned :
      (kind : Kind) (layout : Layout F) (focused : View) (edge : Edge) (delta : ℤ) (area : Box)
      → IsTuned layout
      → IsTuned (resize_kind R kind layout focused edge delta area).0
  unfolding resize_kind
  resize-IsTuned dwindle layout focused edge delta area t =
      let k = resize_focused-Keeps R c edge delta layout.root focused in
      record {
        ratios = k.in_range t.ratios;
        master_ratio = t.master_ratio;
        collapse_low = t.collapse_low;
        collapse_high = t.collapse_high;
      }
  resize-IsTuned master_stack layout focused edge delta area t =
      elim (Bool-cases (is_horizontal edge)) [
        | inr e ↦ rw e t
        | inl e ↦ rw e (elim (Bool-cases (ltb_ℤ area.width (pos 1))) [
          | inl n ↦ rw n t
          | inr n ↦ rw n (record {
            ratios = t.ratios;
            master_ratio = clamp_ratio-InRange R c _ (
                turned-IsNumber (needs_first edge) delta area.width layout.mfact t.master_ratio
                  (ltb_ℤ→le _ _ n));
            collapse_low = t.collapse_low;
            collapse_high = t.collapse_high;
          })
        ])
      ]
  resize-IsTuned accordion layout focused edge delta area t =
      elim (Bool-cases (is_horizontal edge)) [
        | inr e ↦ rw e t
        | inl e ↦ rw e (record {
          ratios = t.ratios;
          master_ratio = t.master_ratio;
          collapse_low = (clamp_collapse_bounds _).0;
          collapse_high = (clamp_collapse_bounds _).1;
        })
      ]

  pub with_root :
      (layout : Layout F) (root : Option (Node F)) (kind : Kind)
      → AllInRange R root
      → IsTuned layout
      → IsTuned (record layout { root = root; kind = kind })
  with_root layout root kind h t = record {
    ratios = h;
    master_ratio = t.master_ratio;
    collapse_low = t.collapse_low;
    collapse_high = t.collapse_high;
  }

  set_kind-IsTuned :
      (layout : Layout F) (kind : Kind) (views : List (View × Alloc))
      → IsTuned layout
      → IsTuned (set_kind one_half layout kind views)
  unfolding set_kind
  set_kind-IsTuned layout kind views t = elim (Bool-cases (same_kind layout.kind kind)) [
    | inl e ↦ rw e t
    | inr e ↦ rw e (elim (Bool-cases (same_kind kind dwindle)) [
      | inl d ↦ rw d (with_root layout _ kind (rebuild_tuned none null views tt) t)
      | inr d ↦ rw d (with_root layout none kind tt t)
    ])
  ]

  arranged :
      (root : Option (Node F)) (area : Box) (gap : ℤ)
      → AllInRange R root
      → AllInRange R (arrange R root area gap).0
  unfolding arrange
  arranged none area gap h = tt
  arranged (some n) area gap h = arrange_tuned n area gap h

  arrange_kind-IsTuned :
      (kind : Kind) (layout : Layout F) (views : List View) (focused : View) (area : Box) (gap : ℤ)
      → IsTuned layout
      → IsTuned (arrange_kind R kind layout views focused area gap).0
  unfolding arrange_kind
  arrange_kind-IsTuned dwindle layout views focused area gap t =
      with_root layout _ layout.kind (arranged layout.root area gap t.ratios) t
  arrange_kind-IsTuned master_stack layout views focused area gap t = t
  arrange_kind-IsTuned accordion layout views focused area gap t = t

  -- One operation on a layout.
  unfoldable pub step : Layout F → Operation F → Layout F
  step layout (adds focused added memory) = add_view one_half layout focused added memory
  step layout (removes removed) = remove_view layout removed
  step layout (changes kind views) = set_kind one_half layout kind views
  step layout (arranges views focused area gap) =
      (arrange_subject R layout views focused area gap).0
  step layout (resizes focused edge delta area) = (resize R layout focused edge delta area).0
  step layout finishes = layout_finish layout

  pub step-IsTuned :
      (layout : Layout F) (op : Operation F) → IsTuned layout → IsTuned (step layout op)
  unfolding step add_view remove_view arrange_subject resize layout_finish
  step-IsTuned layout (adds focused added (a, b)) t =
      elim (Bool-cases (same_kind layout.kind dwindle)) [
        | inl e ↦
            rw e (
              with_root layout _ layout.kind (insert_tuned layout.root focused added a b t.ratios)
                t)
        | inr e ↦ rw e t
      ]
  step-IsTuned layout (removes removed) t = elim (Bool-cases (same_kind layout.kind dwindle)) [
    | inl e ↦ rw e (with_root layout _ layout.kind (remove_tuned layout.root removed t.ratios) t)
    | inr e ↦ rw e t
  ]
  step-IsTuned layout (changes kind views) t = set_kind-IsTuned layout kind views t
  step-IsTuned layout (arranges views focused area gap) t =
      arrange_kind-IsTuned layout.kind layout views focused area _ t
  step-IsTuned layout (resizes focused edge delta area) t =
      resize-IsTuned layout.kind layout focused edge delta area t
  step-IsTuned layout finishes t = with_root layout none layout.kind tt t
