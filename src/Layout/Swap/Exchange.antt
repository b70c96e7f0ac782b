-- ===== src/Layout/Swap/Exchange.antt =====
-- src/workspace/layout.c: `leme_layout_swap_views`, seen from the order of the views.
use leme.Base.{
  ℕ, ◌==◌, ◌||◌, if◌then◌else◌, ◌&&◌, Bool, true, false, some, List, [], ◌∷◌, ◌++◌, map, ◌≡◌, ◌≢◌,
  refl, sym, ap, ap₂, ◌∙◌, arith, Option-cases, inl, inr, ==-refl,
}
use mathlib.Core.List.{map-append}
use leme.Layout.View.{View, null}
use leme.Layout.Sequence.{contains, Unrepeated}
use leme.Layout.Node.{
  Node, leaf, branch, Frame, in_first, in_second, Found, find_from, find, leaves,
}
use leme.Layout.Node.Leaves.{find_from-none}
use leme.Layout.Detach.Move.{leaf_addresses}
use leme.Layout.Swap.{set_view, swap_found, swap_views}

abbrev pub Entry : Type 0
Entry = ℕ × View

abbrev address_of : Entry → ℕ
address_of e = e.0

abbrev view_of : Entry → View
view_of e = e.1

has_entry : ℕ → View → List Entry → Bool
has_entry a v [] = false
has_entry a v ((b, w) ∷ es) = (b == a && w == v) || has_entry a v es

unfoldable pub exchange : View → View → View → View
exchange first second x = if x == first then second else if x == second then first else x

has_entry-contains :
    (a : ℕ) (v : View) (es : List Entry)
    → has_entry a v es ≡ true
    → (contains a (map address_of es) ≡ true) × (contains v (map view_of es) ≡ true)
unfolding has_entry contains
has_entry-contains a v [] h = absurd (cc h)
has_entry-contains a v ((b, w) ∷ es) h = ground (arith, has_entry-contains a v es)

write : ℕ → View → Entry → Entry
write a v (b, w) = (b, if b == a then v else w)

-- Without repetitions the entry at an address is the entry of the view.
matches :
    (a : ℕ) (v : View) (b : ℕ) (w : View) (es : List Entry)
    → Unrepeated (map address_of es)
    → Unrepeated (map view_of es)
    → has_entry a v es ≡ true
    → has_entry b w es ≡ true
    → (b == a) ≡ (w == v)
unfolding has_entry contains
matches a v b w [] u k h i = absurd (cc h)
matches a v b w ((c, x) ∷ es) u k h i = ground (
  arith,
  u.0,
  k.0,
  has_entry-contains a v es,
  has_entry-contains b w es,
  matches a v b w es u.1 k.1,
)

has_entry-append :
    (a : ℕ) (v : View) (xs ys : List Entry)
    → has_entry a v (xs ++ ys) ≡ (has_entry a v xs || has_entry a v ys)
unfolding has_entry
has_entry-append a v [] ys = refl
has_entry-append a v ((b, w) ∷ xs) ys = ground (arith, has_entry-append a v xs ys)

module _ {F : Type 0} where
  entries : Node F → List Entry
  entries (leaf a v) = (a, v) ∷ []
  entries (branch b l r) = entries l ++ entries r

  entries_parts :
      (n : Node F)
      → (map address_of (entries n) ≡ leaf_addresses n) × (map view_of (entries n) ≡ leaves n)
  unfolding entries leaf_addresses leaves
  entries_parts (leaf a v) = (refl, refl)
  entries_parts (branch b l r) =
      let (p, q) = entries_parts l in
      let (p', q') = entries_parts r in
      (map-append _ _ _ ∙ ap₂ ◌++◌ p p', map-append _ _ _ ∙ ap₂ ◌++◌ q q')

  entries-set_view :
      (a : ℕ) (v : View) (n : Node F) → entries (set_view a v n) ≡ map (write a v) (entries n)
  unfolding entries set_view write
  entries-set_view a v (leaf b w) = refl
  entries-set_view a v (branch b l r) =
      ap₂ ◌++◌ (entries-set_view a v l) (entries-set_view a v r) ∙ sym (map-append _ _ _)

  found_entry :
      (up : List (Frame F)) (n : Node F) (v : View) (f : Found F)
      → find_from up n v ≡ some f
      → has_entry f.address v (entries n) ≡ true
  unfolding find_from entries has_entry
  found_entry up (leaf a w) v f e = ground (arith, ==-refl a)
  found_entry up (branch b l r) v f e = elim (Option-cases (find_from (in_first b r ∷ up) l v)) [
    | inl p ↦ ground (
      arith,
      has_entry-append f.address v (entries l) (entries r),
      found_entry (in_second b l ∷ up) r v f (rw (p, find_from) at e),
    )
    | inr (g, p) ↦ ground (
      arith,
      has_entry-append f.address v (entries l) (entries r),
      found_entry (in_first b r ∷ up) l v f (p ∙ (rw (p, find_from) at e)),
    )
  ]

-- Both writes, entry by entry.
written :
    (first second : View) (a c : ℕ) (es all : List Entry)
    → ((b : ℕ) (w : View) → has_entry b w es ≡ true → has_entry b w all ≡ true)
    → Unrepeated (map address_of all)
    → Unrepeated (map view_of all)
    → has_entry a first all ≡ true
    → has_entry c second all ≡ true
    → first == second ≡ false
    → map view_of (map (write c first) (map (write a second) es))
      ≡ map (exchange first second) (map view_of es)
unfolding write exchange has_entry
written first second a c [] all sub u k h i ne = refl
written first second a c ((b, w) ∷ es) all sub u k h i ne =
    let p = matches a first b w all u k h (sub b w (ground (arith, ==-refl b, ==-refl w))) in
    let q = matches c second b w all u k i (sub b w (ground (arith, ==-refl b, ==-refl w))) in
    ground
      (arith, p, q, written first second a c es all (λ x y m. sub x y (ground arith)) u k h i ne)

module _ {F : Type 0} (root : Node F) (first second : View) (f g : Found F)
    (e : find_from [] root first ≡ some f) (e' : find_from [] root second ≡ some g) where
  exchanged :
      first ≢ second
      → Unrepeated (leaves root)
      → Unrepeated (leaf_addresses root)
      → leaves (set_view g.address first (set_view f.address second root))
        ≡ map (exchange first second) (leaves root)
  exchanged ne u k =
      let whole = set_view g.address first (set_view f.address second root) in
      let parts = entries_parts root in
      sym (entries_parts whole).1
      ∙ ap (map view_of) (
          entries-set_view g.address first (set_view f.address second root)
          ∙ ap (map (write g.address first)) (entries-set_view f.address second root))
      ∙ written first second f.address g.address (entries root) (entries root) (λ b w h. h)
          (rw (parts.0) k) (rw (parts.1) u) (found_entry [] root first f e)
          (found_entry [] root second g e') (ground arith)
      ∙ ap (map (exchange first second)) parts.1

  proceeds :
      first ≢ null
      → second ≢ null
      → first ≢ second
      → swap_views root first second
        ≡ (set_view g.address first (set_view f.address second root), true)
  unfolding swap_views swap_found find
  proceeds a b ne = ground (arith, e, e')

-- Two different views of a tree change places, and no other view moves, if no view and no leaf
-- address is there twice.
pub swap_views-exchange :
    {F : Type 0} (root : Node F) (first second : View)
    → first ≢ null
    → second ≢ null
    → first ≢ second
    → contains first (leaves root) ≡ true
    → contains second (leaves root) ≡ true
    → Unrepeated (leaves root)
    → Unrepeated (leaf_addresses root)
    → (leaves (swap_views root first second).0 ≡ map (exchange first second) (leaves root))
      × ((swap_views root first second).1 ≡ true)
unfolding swap_views find
swap_views-exchange root first second a b ne m n u k =
    elim (Option-cases (find_from [] root first)) [
      | inl e ↦ absurd (cc (sym m ∙ find_from-none [] root first e))
      | inr (f, e) ↦ elim (Option-cases (find_from [] root second)) [
        | inl e' ↦ absurd (cc (sym n ∙ find_from-none [] root second e'))
        | inr (g, e') ↦
            let p = proceeds root first second f g e e' a b ne in
            (ap (λ t. leaves t.0) p ∙ exchanged root first second f g e e' ne u k, ap (λ t. t.1) p)
      ]
    ]
