-- ===== src/Layout/Node/Leaves.antt =====
-- How the leaves of a tree split around the leaf that `find` or `first` returns.
use mathlib.Core.List.{append_assoc, append-nil}
use mathlib.Core.Path.{subst}
use leme.Base.{
  ℕ, ◌==◌, false, none, some, List, [], ◌∷◌, ◌++◌, ◌≡◌, refl, sym, ◌∙◌, arith, inl, inr,
  Option-cases, Bool-cases, ==→eq, some_inj,
}
use leme.Layout.View.{View}
use leme.Layout.Sequence.{contains, contains-append}
use leme.Layout.Node.{
  Branch, Node, leaf, branch, Frame, in_first, in_second, Found, plug, plug_frame, find_from,
  first_from, leaves,
}

module _ {F : Type 0} where
  -- The leaves to the left (right) of a position.
  unfoldable pub before : List (Frame F) → List View
  before [] = []
  before (in_first b other ∷ up) = before up
  before (in_second b other ∷ up) = before up ++ leaves other

  unfoldable pub after : List (Frame F) → List View
  after [] = []
  after (in_first b other ∷ up) = leaves other ++ after up
  after (in_second b other ∷ up) = after up

  pub leaves-plug :
      (up : List (Frame F)) (n : Node F) → leaves (plug up n) ≡ before up ++ (leaves n ++ after up)
  unfolding before after plug leaves
  leaves-plug [] n = sym (append-nil (leaves n))
  leaves-plug (in_first b o ∷ up) n = simp (leaves-plug up, append_assoc)
  leaves-plug (in_second b o ∷ up) n = simp (leaves-plug up, append_assoc)

  -- What the search returns is a leaf of the tree, holds the view, and is the leftmost such leaf.
  pub record FindSpec (up : List (Frame F)) (n : Node F) (v : View) (f : Found F) : Type 0 where
    pub holds : f.view ≡ v
    pub rebuilds : plug f.parents (leaf f.address f.view) ≡ plug up n
    pub passed : List View
    pub rest : List View
    pub splits : leaves n ≡ passed ++ (v ∷ rest)
    pub before_is : before f.parents ≡ before up ++ passed
    pub after_is : after f.parents ≡ rest ++ after up
    pub not_passed : contains v passed ≡ false

  pub find_from-none :
      (up : List (Frame F)) (n : Node F) (v : View)
      → find_from up n v ≡ none
      → contains v (leaves n) ≡ false
  unfolding find_from leaves contains
  find_from-none up (leaf a w) v e = ground arith
  find_from-none up (branch b l r) v e = elim (Option-cases (find_from (in_first b r ∷ up) l v)) [
    | inl p ↦
        rw
          (
            contains-append v (leaves l) (leaves r),
            find_from-none (in_first b r ∷ up) l v p,
            find_from-none (in_second b l ∷ up) r v (rw (p, find_from) at e),
          )
          refl
    | inr (f, p) ↦ absurd (cc (rw (p, find_from) at e))
  ]

  found_first :
      (up : List (Frame F)) (b : Branch F) (l r : Node F) (v : View) (f : Found F)
      → FindSpec (in_first b r ∷ up) l v f
      → FindSpec up (branch b l r) v f
  unfolding leaves before after plug plug_frame
  found_first up b l r v f s = record {
    holds = s.holds;
    rebuilds = s.rebuilds;
    passed = s.passed;
    rest = s.rest ++ leaves r;
    splits = rw (s.splits) (append_assoc s.passed (v ∷ s.rest) (leaves r));
    before_is = s.before_is;
    after_is = s.after_is ∙ sym (append_assoc s.rest (leaves r) (after up));
    not_passed = s.not_passed;
  }

  found_second :
      (up : List (Frame F)) (b : Branch F) (l r : Node F) (v : View) (f : Found F)
      → contains v (leaves l) ≡ false
      → FindSpec (in_second b l ∷ up) r v f
      → FindSpec up (branch b l r) v f
  unfolding leaves before after plug plug_frame
  found_second up b l r v f e s = record {
    holds = s.holds;
    rebuilds = s.rebuilds;
    passed = leaves l ++ s.passed;
    rest = s.rest;
    splits = rw (s.splits) (sym (append_assoc (leaves l) s.passed (v ∷ s.rest)));
    before_is = s.before_is ∙ append_assoc (before up) (leaves l) s.passed;
    after_is = s.after_is;
    not_passed = rw (contains-append v (leaves l) s.passed, e, s.not_passed) refl;
  }

  found_leaf :
      (up : List (Frame F)) (a w v : ℕ) (f : Found F)
      → find_from up (leaf a w) v ≡ some f
      → FindSpec up (leaf a w) v f
  unfolding find_from leaves contains
  found_leaf up a w v f e = elim (Bool-cases (w == v)) [
    | inl p ↦ subst (FindSpec up (leaf a w) v) (some_inj (rw p at e)) (record {
      holds = ==→eq w v p;
      rebuilds = refl;
      passed = [];
      rest = [];
      splits = rw (==→eq w v p) refl;
      before_is = sym (append-nil (before up));
      after_is = refl;
      not_passed = refl;
    })
    | inr p ↦ absurd (cc (rw p at e))
  ]

  pub find_from-FindSpec :
      (up : List (Frame F)) (n : Node F) (v : View) (f : Found F)
      → find_from up n v ≡ some f
      → FindSpec up n v f
  unfolding find_from leaves contains
  find_from-FindSpec up (leaf a w) v f e = found_leaf up a w v f e
  find_from-FindSpec up (branch b l r) v f e =
      elim (Option-cases (find_from (in_first b r ∷ up) l v)) [
        | inl p ↦
            found_second up b l r v f (find_from-none (in_first b r ∷ up) l v p)
              (find_from-FindSpec (in_second b l ∷ up) r v f (rw (p, find_from) at e))
        | inr (g, p) ↦
            found_first up b l r v f
              (find_from-FindSpec (in_first b r ∷ up) l v f (p ∙ (rw (p, find_from) at e)))
      ]

  -- The leftmost leaf: nothing stands before it.
  pub record FirstSpec (up : List (Frame F)) (n : Node F) (f : Found F) : Type 0 where
    pub rebuilds : plug f.parents (leaf f.address f.view) ≡ plug up n
    pub rest : List View
    pub splits : leaves n ≡ f.view ∷ rest
    pub before_is : before f.parents ≡ before up
    pub after_is : after f.parents ≡ rest ++ after up

  pub first_from-FirstSpec : (up : List (Frame F)) (n : Node F) → FirstSpec up n (first_from up n)
  unfolding first_from leaves before after plug plug_frame
  first_from-FirstSpec up (leaf a w) = record {
    rebuilds = refl;
    rest = [];
    splits = refl;
    before_is = refl;
    after_is = refl;
  }
  first_from-FirstSpec up (branch b l r) =
      let s = first_from-FirstSpec (in_first b r ∷ up) l in
      record {
        rebuilds = s.rebuilds;
        rest = s.rest ++ leaves r;
        splits = rw s.splits refl;
        before_is = s.before_is;
        after_is = s.after_is ∙ sym (append_assoc s.rest (leaves r) (after up));
      }
