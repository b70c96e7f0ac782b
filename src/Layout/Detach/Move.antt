-- ===== src/Layout/Detach/Move.antt =====
-- src/workspace/layout.c: `leme_layout_insert_detached`, seen from the order of the windows.
use mathlib.Core.List.{append-nil}
use leme.Base.{
  ℕ, if◌then◌else◌, true, false, Option, some, List, [], ◌∷◌, ◌++◌, ◌≡◌, ◌≢◌, sym, ◌∙◌, inl, inr,
  arith, Option-cases, Bool-cases, ==-refl,
}
use leme.Layout.View.{View, null}
use leme.Layout.Direction.{Direction}
use leme.Layout.Sequence.{
  contains, contains-append, insert_after, insert_before, insert_after_split, insert_before_split,
}
use leme.Layout.Node.{
  Node, leaf, branch, Frame, in_first, in_second, Found, find_from, find, leaves,
}
use leme.Layout.Node.Leaves.{
  before, after, leaves-plug, FindSpec, find_from-none, find_from-FindSpec,
}
use leme.Layout.Detach.{Detach, dragged_first, join_beside, branch_address, insert_detached}

-- Where the drop puts the dragged view among the others.
unfoldable pub place_beside : Direction → View → View → List View → List View
place_beside direction target dragged xs =
    if dragged_first direction
    then insert_before target dragged xs
    else insert_after target dragged xs

module _ {F : Type 0} where
  unfoldable pub leaf_addresses : Node F → List ℕ
  leaf_addresses (leaf a v) = a ∷ []
  leaf_addresses (branch b l r) = leaf_addresses l ++ leaf_addresses r

  found_address :
      (up : List (Frame F)) (n : Node F) (v : View) (f : Found F)
      → find_from up n v ≡ some f
      → contains f.address (leaf_addresses n) ≡ true
  unfolding find_from leaf_addresses contains
  found_address up (leaf a w) v f e = ground (arith, ==-refl a)
  found_address up (branch b l r) v f e = elim (Option-cases (find_from (in_first b r ∷ up) l v)) [
    | inl p ↦ ground (
      arith,
      contains-append f.address (leaf_addresses l) (leaf_addresses r),
      found_address (in_second b l ∷ up) r v f (rw (p, find_from) at e),
    )
    | inr (g, p) ↦ ground (
      arith,
      contains-append f.address (leaf_addresses l) (leaf_addresses r),
      found_address (in_first b r ∷ up) l v f (p ∙ (rw (p, find_from) at e)),
    )
  ]

  leaves-join_beside :
      (half : F) (d : Detach F) (t : Found F) (direction : Direction) (address : ℕ)
      → leaves (join_beside half d t direction address) ≡ (
          before t.parents
          ++ ((if dragged_first direction
                then d.leaf_view ∷ t.view ∷ []
                else t.view ∷ d.leaf_view ∷ [])
              ++ after t.parents))
  unfolding join_beside leaves
  leaves-join_beside half d t direction address = elim (Bool-cases (dragged_first direction)) [
    | inl e ↦ rw (e, leaves-plug)
    | inr e ↦ rw (e, leaves-plug)
  ]

  placed :
      {root : Node F} (d : Detach F) (direction : Direction) (target : View) {f : Found F}
      → (s : FindSpec [] root target f)
      → before f.parents
          ++ ((if dragged_first direction
                then d.leaf_view ∷ f.view ∷ []
                else f.view ∷ d.leaf_view ∷ [])
              ++ after f.parents)
        ≡ place_beside direction target d.leaf_view (leaves root)
  unfolding before after place_beside
  placed d direction target s = elim (Bool-cases (dragged_first direction)) [
    | inl e ↦
        rw (e, s.before_is, s.after_is ∙ append-nil s.rest, s.holds, s.splits)
          (sym (insert_before_split target d.leaf_view s.passed s.rest s.not_passed))
    | inr e ↦
        rw (e, s.before_is, s.after_is ∙ append-nil s.rest, s.holds, s.splits)
          (sym (insert_after_split target d.leaf_view s.passed s.rest s.not_passed))
  ]

  -- Dropped beside a view of the tree that is not NULL, the dragged one stands right before or right behind it, as
  -- the direction says, and nothing else moves. The detached leaf is not in the tree, and there is
  -- an inner node at hand.
  pub insert_detached-order :
      (half : F) (root : Node F) (d : Detach F) (target : View) (direction : Direction)
      (memory : Option ℕ) (address : ℕ)
      → target ≢ null
      → contains target (leaves root) ≡ true
      → contains d.leaf_address (leaf_addresses root) ≡ false
      → branch_address d memory ≡ some address
      → (root' : Node F) × (insert_detached half (some root) d target direction memory ≡ some root')
        × (leaves root' ≡ place_beside direction target d.leaf_view (leaves root))
  unfolding insert_detached find before after place_beside
  insert_detached-order half root d target direction memory address present member absent at_hand =
      elim (Option-cases (find_from [] root target)) [
        | inl e ↦ absurd (cc (sym member ∙ find_from-none [] root target e))
        | inr (f, e) ↦
            let s = find_from-FindSpec [] root target f e in
            (
              join_beside half d f direction address,
              ground (arith, e, found_address [] root target f e, at_hand),
              leaves-join_beside half d f direction address ∙ placed d direction target s,
            )
      ]
