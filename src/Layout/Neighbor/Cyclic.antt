-- ===== src/Layout/Neighbor/Cyclic.antt =====
-- src/workspace/layout.c: `leme_layout_neighbor`, seen from the order of the windows.
use mathlib.Core.List.{append_assoc, append-nil}
use leme.Base.{
  ◌==◌, not, if◌then◌else◌, Bool, true, false, some, List, [], ◌∷◌, ◌++◌, ◌≡◌, ◌≢◌, refl, ap, ◌∙◌,
  arith,
}
use leme.Layout.View.{View, null}
use leme.Layout.Sequence.{contains, contains-append}
use leme.Layout.Node.{Node, leaf, branch, leaves}
use leme.Layout.Neighbor.{find_neighbor, first_view, neighbor}

unfoldable pub head_or_null : List View → View
head_or_null [] = null
head_or_null (x ∷ xs) = x

-- What follows the first occurrence, and whether there is one.
unfoldable pub following : View → List View → View × Bool
unfolding head_or_null
following v [] = (null, false)
following v (x ∷ xs) = let rest = following v xs in if x == v then (head_or_null xs, true) else rest

unfoldable pub cyclic_next : View → List View → View
cyclic_next v xs =
    let (next, found) = following v xs in
    if not found then null else if next == null then head_or_null xs else next

-- The same, started with the flag of the C code.
following_from : View → Bool → List View → View × Bool
following_from v true xs = (head_or_null xs, true)
following_from v false xs = following v xs

following-append :
    (v : View) (xs ys : List View)
    → contains null xs ≡ false
    → following v (xs ++ ys) ≡ (
        let (next, found) = following v xs in
        if not (next == null) then (next, true) else following_from v found ys)
unfolding following head_or_null following_from contains
following-append v [] ys h = refl
following-append v (x ∷ []) ys h = ground arith
following-append v (x ∷ y ∷ xs) ys h = ground (arith, following-append v (y ∷ xs) ys)

following_found :
    (v : View) (xs : List View) → (following v xs).0 == null ≡ false → (following v xs).1 ≡ true
unfolding following head_or_null
following_found v [] h = absurd (cc h)
following_found v (x ∷ xs) h = ground (arith, following_found v xs)

module _ {F : Type 0} where
  head-leaves :
      (n : Node F) (ys : List View)
      → (head_or_null (leaves n ++ ys) ≡ first_view n)
        × (contains null (leaves n) ≡ false → first_view n == null ≡ false)
  unfolding head_or_null leaves first_view contains
  head-leaves (leaf a w) ys = ground arith
  head-leaves (branch b l r) ys =
      let (p, q) = head-leaves l (leaves r ++ ys) in
      (
        ap head_or_null (append_assoc (leaves l) (leaves r) ys) ∙ p,
        λ h. q (ground (arith, h, contains-append null (leaves l) (leaves r))),
      )

  find_neighbor-following :
      (n : Node F) (v : View) (found : Bool)
      → contains null (leaves n) ≡ false
      → find_neighbor n v found ≡ following_from v found (leaves n)
  unfolding find_neighbor following_from following head_or_null leaves contains
  find_neighbor-following (leaf a w) v true h = refl
  find_neighbor-following (leaf a w) v false h = ground arith
  find_neighbor-following (branch b l r) v true h = ground (
    arith,
    contains-append null (leaves l) (leaves r),
    find_neighbor-following l v true,
    head-leaves l (leaves r),
    head-leaves l [],
    append-nil (leaves l),
  )
  find_neighbor-following (branch b l r) v false h = ground (
    arith,
    contains-append null (leaves l) (leaves r),
    find_neighbor-following l v false,
    find_neighbor-following r v (following v (leaves l)).1,
    following-append v (leaves l) (leaves r),
    following_found v (leaves l),
  )

  -- In a tree without NULL views the neighbour of a view is the one after it in the order, the
  -- first one for the last, and NULL for a view that is not there.
  pub neighbor-cyclic_next :
      (root : Node F) (v : View)
      → v ≢ null
      → contains null (leaves root) ≡ false
      → neighbor (some root) v ≡ cyclic_next v (leaves root)
  unfolding neighbor cyclic_next following_from
  neighbor-cyclic_next root v present h = ground (
    arith,
    find_neighbor-following root v false h,
    head-leaves root [],
    append-nil (leaves root),
    following_found v (leaves root),
  )
