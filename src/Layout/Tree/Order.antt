-- ===== src/Layout/Tree/Order.antt =====
-- src/workspace/layout.c: insertion and removal, seen from the order of the views.
use mathlib.Core.List.{append_assoc, append-nil}
use leme.Base.{
  ℕ, Option, none, some, List, [], ◌∷◌, ◌++◌, ◌≡◌, ◌≢◌, refl, sym, ap, ◌∙◌, ◌⊎◌, inl, inr, arith,
  Option-cases,
}
use leme.Layout.View.{View}
use leme.Layout.Sequence.{
  contains, insert_second, insert_beside, erase_first, insert_beside_split, erase_first_split,
  erase_first_absent,
}
use leme.Layout.Node.{
  Node, Frame, in_first, in_second, Found, sibling, find_from, find, first_from, leaves, order,
}
use leme.Layout.Node.Leaves.{
  before, after, leaves-plug, find_from-none, find_from-FindSpec, first_from-FirstSpec,
}
use leme.Layout.Tree.{new_leaf, split_target, split_leaf, or_else, insert, unlink, remove}

module _ {F : Type 0} where
  leaves_split :
      (half : F) (root : Node F) (f : Found F) (added : View) (a b : ℕ)
      → order
          (or_else (split_leaf half f (new_leaf (some a) f.view) (new_leaf (some b) added)) root)
        ≡ before f.parents ++ (f.view ∷ added ∷ after f.parents)
  unfolding split_leaf new_leaf or_else order leaves
  leaves_split half root f added a b = rw leaves-plug

  -- An insertion that gets its memory puts the new view right behind the focused one, behind the
  -- first one where the focused view is not in the tree, and alone in an empty tree; nothing else moves.
  pub insert-order :
      (half : F) (root : Option (Node F)) (v added : View) (a b : ℕ)
      → order (insert half root v added (some a) (some b)) ≡ insert_beside v added (order root)
  unfolding insert order find split_target insert_beside contains insert_second before after
  insert-order half none v added a b = unfold new_leaf leaves in refl
  insert-order half (some root) v added a b = elim (Option-cases (find_from [] root v)) [
    | inl e ↦
        let s = first_from-FirstSpec [] root in
        rw (e, find, split_target)
          (leaves_split half root (first_from [] root) added a b
            ∙ rw (s.before_is, s.after_is ∙ append-nil s.rest, find_from-none [] root v e)
                (ap (insert_second added) (sym s.splits)))
    | inr (f, e) ↦
        let s = find_from-FindSpec [] root v f e in
        rw (e, find, split_target)
          (leaves_split half root f added a b
            ∙ rw (s.before_is, s.after_is ∙ append-nil s.rest, s.holds, s.splits)
                (sym (insert_beside_split v added s.passed s.rest s.not_passed)))
  ]

  -- An insertion without memory for both leaves leaves the tree as it was; an empty tree stays
  -- empty.
  pub insert_no_memory :
      (half : F) (root : Option (Node F)) (v added : View) (a b : Option ℕ)
      → (a ≡ none) ⊎ ((root ≢ none) × (b ≡ none))
      → insert half root v added a b ≡ root
  unfolding insert new_leaf split_leaf or_else
  insert_no_memory half none v added none b h = refl
  insert_no_memory half none v added (some a) b h = ground arith
  insert_no_memory half (some root) v added none b h = refl
  insert_no_memory half (some root) v added (some a) none h = refl
  insert_no_memory half (some root) v added (some a) (some b) h = ground arith

  pub order-unlink : (up : List (Frame F)) → order (unlink up) ≡ before up ++ after up
  unfolding order unlink before after sibling
  order-unlink [] = refl
  order-unlink (in_first b o ∷ up) = leaves-plug up o
  order-unlink (in_second b o ∷ up) =
      leaves-plug up o ∙ sym (append_assoc (before up) (leaves o) (after up))

  pub order-unlink_found :
      (root : Node F) (v : View) (f : Found F)
      → find_from [] root v ≡ some f
      → order (unlink f.parents) ≡ erase_first v (leaves root)
  unfolding before after
  order-unlink_found root v f e =
      let s = find_from-FindSpec [] root v f e in
      order-unlink f.parents
      ∙ rw (s.before_is, s.after_is ∙ append-nil s.rest, s.splits)
          (sym (erase_first_split v s.passed s.rest s.not_passed))

  -- Removal erases the first occurrence of the view, and nothing where there is none.
  pub remove-order :
      (root : Option (Node F)) (v : View) → order (remove root v) ≡ erase_first v (order root)
  unfolding remove order find erase_first before after
  remove-order none v = refl
  remove-order (some root) v = elim (Option-cases (find_from [] root v)) [
    | inl e ↦ rw (e, remove) (sym (erase_first_absent v (leaves root) (find_from-none [] root v e)))
    | inr (f, e) ↦ rw (e, remove) (order-unlink_found root v f e)
  ]
