-- ===== src/Layout/Sequence.antt =====
-- Lists of views: what the tree operations do to the order of the windows.
use leme.Base.{
  ℕ, ◌==◌, if◌then◌else◌, Bool, true, false, ◌||◌, List, [], ◌∷◌, ◌++◌, ◌≡◌, refl, arith, ==-refl,
}
use leme.Layout.View.{View}

unfoldable pub contains : View → List View → Bool
contains v [] = false
contains v (x ∷ xs) = x == v || contains v xs

unfoldable pub insert_after : View → View → List View → List View
insert_after v a [] = []
insert_after v a (x ∷ xs) = if x == v then x ∷ a ∷ xs else x ∷ insert_after v a xs

unfoldable pub insert_second : View → List View → List View
insert_second a [] = a ∷ []
insert_second a (x ∷ xs) = x ∷ a ∷ xs

-- A new view goes behind the focused one, or behind the first where that is absent.
unfoldable pub insert_beside : View → View → List View → List View
insert_beside v a xs = if contains v xs then insert_after v a xs else insert_second a xs

unfoldable pub erase_first : View → List View → List View
erase_first v [] = []
erase_first v (x ∷ xs) = if x == v then xs else x ∷ erase_first v xs

unfoldable pub insert_before : View → View → List View → List View
insert_before v a [] = []
insert_before v a (x ∷ xs) = if x == v then a ∷ x ∷ xs else x ∷ insert_before v a xs

pub contains-append :
    (v : View) (xs ys : List View) → contains v (xs ++ ys) ≡ (contains v xs || contains v ys)
unfolding contains
contains-append v [] ys = refl
contains-append v (x ∷ xs) ys = ground (arith, contains-append v xs ys)

module _ (v : View) where
  pub contains_split : (pre rest : List View) → contains v (pre ++ (v ∷ rest)) ≡ true
  unfolding contains
  contains_split [] rest = ground (arith, ==-refl v)
  contains_split (x ∷ pre) rest = ground (arith, contains_split pre rest)

  pub insert_after_split :
      (a : View) (pre rest : List View)
      → contains v pre ≡ false
      → insert_after v a (pre ++ (v ∷ rest)) ≡ pre ++ (v ∷ a ∷ rest)
  unfolding contains insert_after
  insert_after_split a [] rest h = ground (arith, ==-refl v)
  insert_after_split a (x ∷ pre) rest h = ground (arith, insert_after_split a pre rest)

  pub insert_before_split :
      (a : View) (pre rest : List View)
      → contains v pre ≡ false
      → insert_before v a (pre ++ (v ∷ rest)) ≡ pre ++ (a ∷ v ∷ rest)
  unfolding contains insert_before
  insert_before_split a [] rest h = ground (arith, ==-refl v)
  insert_before_split a (x ∷ pre) rest h = ground (arith, insert_before_split a pre rest)

  pub insert_beside_split :
      (a : View) (pre rest : List View)
      → contains v pre ≡ false
      → insert_beside v a (pre ++ (v ∷ rest)) ≡ pre ++ (v ∷ a ∷ rest)
  unfolding insert_beside
  insert_beside_split a pre rest h = rw (contains_split pre rest) (insert_after_split a pre rest h)

  pub erase_first_split :
      (pre rest : List View)
      → contains v pre ≡ false
      → erase_first v (pre ++ (v ∷ rest)) ≡ pre ++ rest
  unfolding contains erase_first
  erase_first_split [] rest h = ground (arith, ==-refl v)
  erase_first_split (x ∷ pre) rest h = ground (arith, erase_first_split pre rest)

  pub erase_first_absent : (xs : List View) → contains v xs ≡ false → erase_first v xs ≡ xs
  unfolding contains erase_first
  erase_first_absent [] h = refl
  erase_first_absent (x ∷ xs) h = ground (arith, erase_first_absent xs)

-- Nothing twice, for views and for addresses.
abbrev pub Unrepeated : List ℕ → Type 0
Unrepeated [] = Unit
Unrepeated (x ∷ xs) = (contains x xs ≡ false) × Unrepeated xs

pub Unrepeated-right : (xs ys : List ℕ) → Unrepeated (xs ++ ys) → Unrepeated ys
Unrepeated-right [] ys u = u
Unrepeated-right (x ∷ xs) ys u = Unrepeated-right xs ys u.1

pub Unrepeated-left : (xs ys : List ℕ) → Unrepeated (xs ++ ys) → Unrepeated xs
Unrepeated-left [] ys u = tt
Unrepeated-left (x ∷ xs) ys u =
    (ground (arith, contains-append x xs ys, u.0), Unrepeated-left xs ys u.1)

pub Unrepeated-apart :
    (t : ℕ) (xs ys : List ℕ) → Unrepeated (xs ++ ys) → contains t ys ≡ true → contains t xs ≡ false
unfolding contains
Unrepeated-apart t [] ys u h = refl
Unrepeated-apart t (x ∷ xs) ys u h =
    ground (arith, contains-append x xs ys, u.0, Unrepeated-apart t xs ys u.1 h)
