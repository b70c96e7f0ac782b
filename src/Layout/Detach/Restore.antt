-- ===== src/Layout/Detach/Restore.antt =====
-- src/workspace/layout.c: `leme_layout_detach_view` and then `leme_layout_restore_view`.
use leme.Base.{
  ℕ, ◌==◌, Bool, true, false, Option, none, some, List, [], ◌∷◌, ◌++◌, ◌≡◌, ◌≢◌, refl, sym, ap, ◌∙◌,
  inl, inr, arith, Option-cases, ==-refl,
}
use leme.Layout.View.{View, null}
use leme.Layout.Sequence.{
  contains, contains-append, erase_first, Unrepeated, Unrepeated-left, Unrepeated-right,
  Unrepeated-apart,
}
use leme.Layout.Node.{
  Node, leaf, branch, Frame, in_first, in_second, Found, node_address, plug, plug_frame, sibling,
  find_from, find, leaves, order,
}
use leme.Layout.Node.Leaves.{find_from-none, find_from-FindSpec}
use leme.Layout.Tree.{unlink}
use leme.Layout.Tree.Order.{order-unlink_found}
use leme.Layout.Detach.{
  Detach, DetachedBranch, frame_branch, is_first, grandparent_of, was_first, detach_found,
  detach_view, rejoin, write_slot, restore_at, restore_root, restore_view,
}

module _ {F : Type 0} where
  -- The addresses of the inner nodes.
  unfoldable pub inner : Node F → List ℕ
  inner (leaf a v) = []
  inner (branch b l r) = b.address ∷ (inner l ++ inner r)

  -- No node that the search for `t` passes on its way down has this address.
  Misses : ℕ → List (Frame F) → Type 0
  Misses t [] = Unit
  Misses t (in_first b other ∷ above) = (b.address == t ≡ false) × Misses t above
  Misses t (in_second b other ∷ above) =
      (b.address == t ≡ false) × (contains t (inner other) ≡ false) × Misses t above

  Unrepeated-plug :
      (above : List (Frame F)) (n : Node F)
      → Unrepeated (inner (plug above n))
      → Unrepeated (inner n)
  unfolding plug plug_frame inner
  Unrepeated-plug [] n u = u
  Unrepeated-plug (in_first b o ∷ above) n u =
      Unrepeated-left (inner n) (inner o) (Unrepeated-plug above (branch b n o) u).1
  Unrepeated-plug (in_second b o ∷ above) n u =
      Unrepeated-right (inner o) (inner n) (Unrepeated-plug above (branch b o n) u).1

  Unrepeated-Misses :
      (t : ℕ) (above : List (Frame F)) (n : Node F)
      → Unrepeated (inner (plug above n))
      → contains t (inner n) ≡ true
      → Misses t above
  unfolding plug plug_frame inner Misses contains
  Unrepeated-Misses t [] n u h = tt
  Unrepeated-Misses t (in_first b o ∷ above) n u h =
      let here = Unrepeated-plug above (branch b n o) u in
      (
        ground (arith, here.0, contains-append b.address (inner n) (inner o)),
        Unrepeated-Misses t above (branch b n o) u
            (ground (arith, contains-append t (inner n) (inner o))),
      )
  Unrepeated-Misses t (in_second b o ∷ above) n u h =
      let here = Unrepeated-plug above (branch b o n) u in
      (
        ground (arith, here.0, contains-append b.address (inner o) (inner n)),
        Unrepeated-apart t (inner o) (inner n) here.1 h,
        Unrepeated-Misses t above (branch b o n) u
            (ground (arith, contains-append t (inner o) (inner n))),
      )

  module _ (t : ℕ) (first : Bool) (expected : ℕ) (make : Node F → Node F) where
    write_slot_absent :
        (n : Node F) → contains t (inner n) ≡ false → write_slot t first expected make n ≡ none
    unfolding write_slot inner contains
    write_slot_absent (leaf a v) h = refl
    write_slot_absent (branch b l r) h =
        ground
          (arith, contains-append t (inner l) (inner r), write_slot_absent l, write_slot_absent r)

    write_slot-plug :
        (above : List (Frame F)) (n m : Node F)
        → Misses t above
        → write_slot t first expected make n ≡ some m
        → write_slot t first expected make (plug above n) ≡ some (plug above m)
    unfolding plug plug_frame Misses write_slot
    write_slot-plug [] n m miss e = e
    write_slot-plug (in_first b o ∷ above) n m (p, q) e =
        write_slot-plug above (branch b n o) (branch b m o) q (rw (p, e))
    write_slot-plug (in_second b o ∷ above) n m (p, q, r) e =
        write_slot-plug above (branch b o n) (branch b o m) r (rw (p, write_slot_absent o q, e))

  rejoined :
      (d : Detach F) (p : Frame F) (b : DetachedBranch F)
      → b.fields ≡ frame_branch p
      → b.leaf_is_first ≡ is_first p
      → rejoin d b (sibling p) ≡ plug_frame p (leaf d.leaf_address d.leaf_view)
  unfolding rejoin sibling plug_frame frame_branch is_first
  rejoined d (in_first b o) c e h = rw (e, h)
  rejoined d (in_second b o) c e h = rw (e, h)

  write_here :
      (g : Frame F) (make : Node F → Node F) (n m : Node F)
      → make n ≡ m
      → write_slot (frame_branch g).address (is_first g) (node_address n) make (plug_frame g n)
        ≡ some (plug_frame g m)
  unfolding write_slot plug_frame frame_branch is_first
  write_here (in_first b o) make n m e = rw (==-refl b.address, ==-refl (node_address n), e) refl
  write_here (in_second b o) make n m e = rw (==-refl b.address, ==-refl (node_address n), e) refl

  inner_frame :
      (g : Frame F) (n : Node F) → contains (frame_branch g).address (inner (plug_frame g n)) ≡ true
  unfolding inner plug_frame frame_branch contains
  inner_frame (in_first b o) n = ground (arith, ==-refl b.address)
  inner_frame (in_second b o) n = ground (arith, ==-refl b.address)

  restore_found :
      (f : Found F) (above : List (Frame F))
      → Unrepeated (inner (plug above (leaf f.address f.view)))
      → restore_view (detach_found f above).0 (detach_found f above).1
        ≡ some (plug above (leaf f.address f.view))
  unfolding restore_view restore_root restore_at detach_found grandparent_of was_first plug
  restore_found f [] u = refl
  restore_found f (p ∷ []) u =
      rw (==-refl (node_address (sibling p))) (ap some (rejoined _ p _ refl refl))
  restore_found f (p ∷ g ∷ above) u =
      let whole = plug_frame g (plug_frame p (leaf f.address f.view)) in
      write_slot-plug _ _ _ _ above (plug_frame g (sibling p)) whole
        (Unrepeated-Misses (frame_branch g).address above whole u (inner_frame g _))
        (write_here g _ (sibling p) _ (rejoined _ p _ refl refl))

  detach_found-unlink :
      (f : Found F) (above : List (Frame F)) → (detach_found f above).0 ≡ unlink above
  unfolding detach_found unlink
  detach_found-unlink f [] = refl
  detach_found-unlink f (p ∷ above) = refl

  -- A view of the tree can be detached. The tree then lacks it and keeps the order of the others,
  -- and putting it back gives the very tree, ratios and addresses included, provided that no two
  -- inner nodes share an address.
  pub restore-detach :
      (root : Node F) (v : View)
      → v ≢ null
      → contains v (leaves root) ≡ true
      → Unrepeated (inner root)
      → (root' : Option (Node F)) × (d : Detach F) × (detach_view (some root) v true
          ≡ (root', some d))
        × (order root' ≡ erase_first v (leaves root))
        × (restore_view root' d ≡ some root)
  unfolding detach_view find plug
  restore-detach root v present member u = elim (Option-cases (find_from [] root v)) [
    | inl e ↦ absurd (cc (sym member ∙ find_from-none [] root v e))
    | inr (f, e) ↦
        let s = find_from-FindSpec [] root v f e in
        (
          (detach_found f f.parents).0,
          (detach_found f f.parents).1,
          ground (arith, e),
          rw (detach_found-unlink f f.parents) (order-unlink_found root v f e),
          restore_found f f.parents (rw (s.rebuilds) u) ∙ ap some s.rebuilds,
        )
  ]
