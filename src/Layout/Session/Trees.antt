-- ===== src/Layout/Session/Trees.antt =====
-- src/workspace/layout.c: the ratios of a tree after a swap, a drag, a detachment and a return.
use leme.Base.{
  ℕ, ◌==◌, ◌||◌, not, Bool, Option, none, some, List, [], ◌∷◌, ◌≡◌, inl, inr, Option-cases,
  if_cases,
}
use leme.Base.Int.{ℤ}
use leme.Base.Floats.{Floats, ComparesNumbers}
use leme.Layout.Direction.{Direction}
use leme.Layout.View.{View, null}
use leme.Layout.Node.{
  Node, leaf, branch, node_address, Frame, in_first, in_second, Found, plug, sibling, find,
}
use leme.Layout.Detach.{
  DetachedBranch, Detach, dragged_first, detach_found, detach_view, rejoin, write_slot, restore_at,
  restore_root, branch_address, join_beside, insert_detached,
}
use leme.Layout.Swap.{set_view, swap_found, swap_views}
use leme.Layout.Resize.Ratio.{
  InRange, RatiosInRange, FramesInRange, RatiosInRange-plug, found-FramesInRange, first_InRange,
  AllInRange,
}
use leme.Layout.Drag.{Drag}
use leme.Layout.Drag.Update.{DragInRange, drag_update-InRange}
use leme.Layout.Session.{swap_in, drag_in}

module _ (R : Floats) (c : ComparesNumbers R) (half_in_range : InRange R R.one_half) where
  open R use {F, one_half}

  set_view_tuned :
      (a : ℕ) (v : View) (n : Node F) → RatiosInRange R n → RatiosInRange R (set_view a v n)
  unfolding set_view RatiosInRange
  set_view_tuned a v (leaf b w) h = tt
  set_view_tuned a v (branch b l r) (p, q, k) = (p, set_view_tuned a v l q, set_view_tuned a v r k)

  swap_found_tuned :
      (root : Node F) (u v : View) (f g : Option (Found F))
      → RatiosInRange R root
      → RatiosInRange R (swap_found root u v f g).0
  unfolding swap_found
  swap_found_tuned root u v (some f) (some g) h =
      set_view_tuned g.address u _ (set_view_tuned f.address v root h)
  swap_found_tuned root u v (some f) none h = h
  swap_found_tuned root u v none (some g) h = h
  swap_found_tuned root u v none none h = h

  pub swap_in_tuned :
      (u v : View) (root : Option (Node F)) → AllInRange R root → AllInRange R (swap_in u v root)
  unfolding swap_in swap_views
  swap_in_tuned u v none h = tt
  swap_in_tuned u v (some root) h =
      if_cases {A = Node F × Bool} (λ r. RatiosInRange R r.0) (u == null || v == null || u == v) _ _
        (λ e. h) (λ e. swap_found_tuned root u v _ _ h)

  pub drag_in_tuned :
      (d : Drag F) (dx dy : ℤ) (root : Option (Node F))
      → DragInRange R d
      → AllInRange R root
      → AllInRange R (drag_in R c half_in_range d dx dy root)
  unfolding drag_in
  drag_in_tuned d dx dy none k h = tt
  drag_in_tuned d dx dy (some root) k h = (drag_update-InRange R c d dx dy root k).1 h

  -- The ratio of the inner node that went with the window.
  unfoldable pub PartInRange : Option (DetachedBranch F) → Type 0
  PartInRange none = Unit
  PartInRange (some b) = InRange R b.fields.ratio

  unfoldable pub DetachInRange : Option (Detach F) → Type 0
  DetachInRange none = Unit
  DetachInRange (some d) = PartInRange d.branch_part

  sibling_tuned :
      (f : Frame F) (above : List (Frame F))
      → FramesInRange R (f ∷ above)
      → RatiosInRange R (plug above (sibling f))
  unfolding sibling FramesInRange
  sibling_tuned (in_first b o) above (p, q, h) = RatiosInRange-plug R above o h q
  sibling_tuned (in_second b o) above (p, q, h) = RatiosInRange-plug R above o h q

  abbrev pub Detached : Option (Node F) × Option (Detach F) → Type 0
  Detached r = AllInRange R r.0 × DetachInRange r.1

  detach_found_tuned :
      (f : Found F) (above : List (Frame F))
      → FramesInRange R above
      → AllInRange R (detach_found f above).0 × PartInRange (detach_found f above).1.branch_part
  unfolding detach_found PartInRange
  detach_found_tuned f [] h = (tt, tt)
  detach_found_tuned f (p ∷ above) h = (sibling_tuned p above h, first_InRange R p above h)

  parents_tuned :
      (root : Option (Node F)) (v : View) (f : Found F)
      → find root v ≡ some f
      → AllInRange R root
      → FramesInRange R f.parents
  unfolding find
  parents_tuned none v f e h = absurd (cc e)
  parents_tuned (some root) v f e h = found-FramesInRange R root v f e h

  pub detach_tuned :
      (root : Option (Node F)) (v : View) (memory : Bool)
      → AllInRange R root
      → Detached (detach_view root v memory)
  unfolding detach_view DetachInRange
  detach_tuned root v memory h =
      if_cases Detached (v == null || not memory) _ _ (λ e. (h, tt))
        (λ e. elim (Option-cases (find root v)) [
          | inl p ↦ rw (p, detach_view) (h, tt)
          | inr (f, p) ↦
              rw (p, detach_view) (detach_found_tuned f f.parents (parents_tuned root v f p h))
        ])

  rejoin_tuned :
      (d : Detach F) (b : DetachedBranch F) (n : Node F)
      → InRange R b.fields.ratio
      → RatiosInRange R n
      → RatiosInRange R (rejoin d b n)
  unfolding rejoin RatiosInRange
  rejoin_tuned d b n h k =
      if_cases (RatiosInRange R) b.leaf_is_first _ _ (λ e. (h, tt, k)) (λ e. (h, k, tt))

  module _ (make : Node F → Node F)
      (kept : (n : Node F) → RatiosInRange R n → RatiosInRange R (make n)) where
    write_slot_tuned :
        (target : ℕ) (first : Bool) (expected : ℕ) (n : Node F)
        → RatiosInRange R n
        → AllInRange R (write_slot target first expected make n)
    unfolding write_slot RatiosInRange
    write_slot_tuned target first expected (leaf a v) h = tt
    write_slot_tuned target first expected (branch b l r) (p, q, k) =
        if_cases (AllInRange R) (b.address == target) _ _
          (λ e.
            if_cases (AllInRange R) first _ _
              (λ g.
                if_cases (AllInRange R) (node_address l == expected) _ _ (λ i. (p, kept l q, k))
                  (λ i. tt))
              (λ g.
                if_cases (AllInRange R) (node_address r == expected) _ _ (λ i. (p, q, kept r k))
                  (λ i. tt)))
          (λ e.
            deeper_tuned (write_slot target first expected make l)
              (write_slot target first expected make r) (write_slot_tuned target first expected l q)
              (write_slot_tuned target first expected r k))
      where
        right_tuned :
            (r' : Option (Node F))
            → AllInRange R r'
            → AllInRange R (elim r' [ some n ↦ some (branch b l n) | none ↦ none ])
        right_tuned none y = tt
        right_tuned (some n) y = (p, q, y)

        deeper_tuned :
            (l' r' : Option (Node F))
            → AllInRange R l'
            → AllInRange R r'
            → AllInRange R (elim l' [
              | some n ↦ some (branch b n r)
              | none ↦ elim r' [ some n ↦ some (branch b l n) | none ↦ none ]
            ])
        deeper_tuned none r' x y = right_tuned r' y
        deeper_tuned (some n) r' x y = (p, x, k)

  restore_at_tuned :
      (d : Detach F) (b : DetachedBranch F) (g : Option ℕ) (root : Node F)
      → InRange R b.fields.ratio
      → RatiosInRange R root
      → AllInRange R (restore_at d b g root)
  unfolding restore_at
  restore_at_tuned d b none root h k =
      if_cases (AllInRange R) (node_address root == b.sibling_address) _ _
        (λ e. rejoin_tuned d b root h k) (λ e. tt)
  restore_at_tuned d b (some g) root h k =
      write_slot_tuned (rejoin d b) (λ n. rejoin_tuned d b n h) g b.branch_was_first
        b.sibling_address root k

  pub restore_root_tuned :
      (d : Detach F) (part : Option (DetachedBranch F)) (root : Option (Node F))
      → PartInRange part
      → AllInRange R root
      → AllInRange R (restore_root d part root)
  unfolding restore_root PartInRange RatiosInRange
  restore_root_tuned d none none h k = tt
  restore_root_tuned d none (some root) h k = tt
  restore_root_tuned d (some b) none h k = tt
  restore_root_tuned d (some b) (some root) h k = restore_at_tuned d b b.grandparent root h k

  join_tuned :
      (d : Detach F) (f : Found F) (direction : Direction) (a : ℕ)
      → FramesInRange R f.parents
      → RatiosInRange R (join_beside one_half d f direction a)
  unfolding join_beside RatiosInRange
  join_tuned d f direction a h = RatiosInRange-plug R f.parents _ h (
      if_cases (RatiosInRange R) (dragged_first direction) _ _ (λ e. (half_in_range, tt, tt))
        (λ e. (half_in_range, tt, tt)))

  pub insert_tuned :
      (root : Option (Node F)) (d : Detach F) (target : View) (direction : Direction)
      (memory : Option ℕ)
      → AllInRange R root
      → AllInRange R (insert_detached one_half root d target direction memory)
  unfolding insert_detached
  insert_tuned root d target direction memory h =
      if_cases (AllInRange R) (target == null) _ _ (λ e. tt)
        (λ e. elim (Option-cases (find root target)) [
          | inl p ↦ rw (p, insert_detached) tt
          | inr (f, p) ↦
              rw (p, insert_detached)
                (if_cases (AllInRange R) (f.address == d.leaf_address) _ _ (λ g. tt)
                  (λ g. elim (Option-cases (branch_address d memory)) [
                    | inl q ↦ rw (q, insert_detached) tt
                    | inr (a, q) ↦
                        rw (q, insert_detached)
                          (join_tuned d f direction a (parents_tuned root target f p h))
                  ]))
        ])
