-- ===== src/Layout/Arrange/Boxes.antt =====
-- src/workspace/layout.c: the boxes of all windows of `leme_layout_arrange`.
use mathlib.Core.List.{map-append}
use leme.Base.{
  ◌≡◌, refl, ap₂, subst, ◌∙◌, Option, none, some, List, [], ◌∷◌, ◌++◌, map, All, All-append,
  All-map, arith,
}
use leme.Base.Int.{ℤ, pos, ◌≤ℤ◌, int_laws}
use leme.Base.Floats.{Floats}
use leme.Box.{Box, HasArea, Within, Apart, Within-refl, Within-trans, Apart-Within}
use leme.Layout.View.{View}
use leme.Layout.Node.{Split, horizontal, vertical, Branch, Node, leaf, branch, leaves, order}
use leme.Layout.Arrange.{cut, split_gap, extent_of, first_box, second_box, arrange_node, arrange}
use leme.Layout.Arrange.Fits.{cut-CutFits, cut_exact, first-Within, second-Within, parts-Apart}

abbrev pub view_of : View × Box → View
view_of c = c.0

abbrev pub Inside : Box → View × Box → Type 0
Inside area c = HasArea c.1 × Within c.1 area

abbrev pub BoxesApart : View × Box → View × Box → Type 0
BoxesApart c d = Apart c.1 d.1

-- Any two entries of a list are related, the earlier one first.
abbrev pub Pairs {ℓ κ} : {A : Type ℓ} → (A → A → Type κ) → List A → Type κ
Pairs P [] = Unit
Pairs P (x ∷ xs) = All (P x) xs × Pairs P xs

pub Pairs-append {ℓ κ} :
    {A : Type ℓ} (P : A → A → Type κ) (xs ys : List A)
    → Pairs P xs
    → Pairs P ys
    → All (λ x. All (P x) ys) xs
    → Pairs P (xs ++ ys)
Pairs-append P [] ys p q c = q
Pairs-append P (x ∷ xs) ys p q c = (All-append (P x) xs ys p.0 c.0, Pairs-append P xs ys p.1 q c.1)

split_gap_nonneg : (e g : ℤ) → pos 0 ≤ℤ g → pos 0 ≤ℤ split_gap e g
unfolding split_gap
split_gap_nonneg e g h = ground arith

extent_pos : (s : Split) (box : Box) → HasArea box → pos 1 ≤ℤ extent_of s box
unfolding extent_of
extent_pos horizontal box h = h.wide
extent_pos vertical box h = h.high

module _ (R : Floats) (gap : ℤ) where
  -- Every box that is split has two pixels along the split.
  unfoldable pub Roomy : Node R.F → Box → Type 0
  unfolding extent_of first_box second_box
  Roomy (leaf a v) box = Unit
  Roomy (branch b l r) box =
      (pos 2 ≤ℤ extent_of b.split box)
      × Roomy l (first_box b.split (cut R b box gap) box)
      × Roomy r (second_box b.split (cut R b box gap) box)

  arrange_node-leaves :
      (n : Node R.F) (box : Box)
      → (map view_of (arrange_node R n box gap).1 ≡ leaves n)
        × (leaves (arrange_node R n box gap).0 ≡ leaves n)
  unfolding arrange_node leaves
  arrange_node-leaves (leaf a v) box = (refl, refl)
  arrange_node-leaves (branch b l r) box =
      let (p, q) = arrange_node-leaves l (first_box b.split (cut R b box gap) box) in
      let (p', q') = arrange_node-leaves r (second_box b.split (cut R b box gap) box) in
      (map-append _ _ _ ∙ ap₂ ◌++◌ p p', ap₂ ◌++◌ q q')

  module _ (gap_nonneg : pos 0 ≤ℤ gap) where
    arrange_node-Inside :
        (n : Node R.F) (box : Box) → HasArea box → All (Inside box) (arrange_node R n box gap).1
    unfolding arrange_node
    arrange_node-Inside (leaf a v) box h = ((h, Within-refl box), tt)
    arrange_node-Inside (branch b l r) box h =
        let fits = cut-CutFits R b box gap gap_nonneg (extent_pos b.split box h) in
        let (h₁, w₁) = first-Within box (cut R b box gap) b.split h fits in
        let (h₂, w₂) = second-Within box (cut R b box gap) b.split h fits in
        All-append (Inside box) _ _
          (All-map _ (Inside box) (λ c p. (p.0, Within-trans p.1 w₁)) _
            (arrange_node-Inside l _ h₁))
          (All-map _ (Inside box) (λ c p. (p.0, Within-trans p.1 w₂)) _
            (arrange_node-Inside r _ h₂))

    cut_ordered :
        (b : Branch R.F) (box : Box)
        → pos 2 ≤ℤ extent_of b.split box
        → (cut R b box gap).first_size ≤ℤ (cut R b box gap).second_offset
    cut_ordered b box wide =
        subst (λ t. (cut R b box gap).first_size ≤ℤ t) (cut_exact R b box gap gap_nonneg wide).0
          (omega (int_laws, split_gap_nonneg (extent_of b.split box) gap gap_nonneg))

    arrange_node-Apart :
        (n : Node R.F) (box : Box)
        → HasArea box
        → Roomy n box
        → Pairs BoxesApart (arrange_node R n box gap).1
    unfolding arrange_node Roomy
    arrange_node-Apart (leaf a v) box h room = (tt, tt)
    arrange_node-Apart (branch b l r) box h (wide, roomₗ, roomᵣ) =
        let fits = cut-CutFits R b box gap gap_nonneg (extent_pos b.split box h) in
        let (h₁, w₁) = first-Within box (cut R b box gap) b.split h fits in
        let (h₂, w₂) = second-Within box (cut R b box gap) b.split h fits in
        let apart = parts-Apart box (cut R b box gap) b.split (cut_ordered b box wide) in
        let first = arrange_node-Inside l _ h₁ in
        let second = arrange_node-Inside r _ h₂ in
        Pairs-append BoxesApart _ _ (arrange_node-Apart l _ h₁ roomₗ)
          (arrange_node-Apart r _ h₂ roomᵣ)
          (All-map _ _ (λ c p. All-map _ _ (λ d q. Apart-Within p.1 q.1 apart) _ second) _ first)

    -- Each window gets a box of at least one pixel each way within the area, where the area has one
    -- each way and the gap is not negative.
    pub arrange-Inside :
        (root : Option (Node R.F)) (area : Box)
        → HasArea area
        → All (Inside area) (arrange R root area gap).1
    unfolding arrange
    arrange-Inside none area h = tt
    arrange-Inside (some n) area h = arrange_node-Inside n area h

    -- No two windows overlap where the area has a pixel each way, the gap is not negative and every
    -- box that is split has two pixels along the split.
    pub arrange-Apart :
        (n : Node R.F) (area : Box)
        → HasArea area
        → Roomy n area
        → Pairs BoxesApart (arrange R (some n) area gap).1
    unfolding arrange
    arrange-Apart n area h room = arrange_node-Apart n area h room

  -- Each window is placed once, in the order of the tree, and the tree keeps its windows.
  pub arrange-order :
      (root : Option (Node R.F)) (area : Box)
      → (map view_of (arrange R root area gap).1 ≡ order root)
        × (order (arrange R root area gap).0 ≡ order root)
  unfolding arrange order
  arrange-order none area = (refl, refl)
  arrange-order (some n) area = arrange_node-leaves n area
