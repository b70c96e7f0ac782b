-- ===== src/Layout/Resize/Ratio.antt =====
-- src/workspace/layout.c: what `leme_layout_resize_focused` may change.
use leme.Base.{
  Bool, true, false, Option, none, some, List, [], ◌∷◌, ◌++◌, ◌≡◌, refl, sym, ap, ◌∙◌, ◌⊎◌, inl,
  inr, arith, Option-cases, Bool-cases, if_cases, some_inj,
}
use leme.Base.Int.{ℤ, pos, ltb_ℤ, ltb_ℤ→lt}
use leme.Base.Floats.{Floats, IsNumber, ComparesNumbers}
use leme.Layout.View.{View}
use leme.Layout.Node.{
  Branch, Node, leaf, branch, Frame, in_first, in_second, Found, plug, plug_frame, find_from, find,
  leaves, order,
}
use leme.Layout.Node.Leaves.{before, after, leaves-plug, find_from-FindSpec}
use leme.Layout.Detach.{frame_branch}
use leme.Layout.Resize.{
  Edge, needs_first, shifted, set_frame_ratio, clamp_ratio, stops_at, resize_frame, resize_walk,
  resize_found, resize_focused,
}

module _ (R : Floats) where
  open R use {F, lt, le, tenth, nine_tenths}

  -- From a tenth to nine tenths, and so no NaN.
  abbrev pub InRange : F → Type 0
  InRange r = (le tenth r ≡ true) × (le r nine_tenths ≡ true)

  pub InRange-IsNumber : ComparesNumbers R → (r : F) → InRange r → IsNumber R r
  InRange-IsNumber c r h = c.number_of_le tenth r h.0

  pub clamp_ratio-InRange : ComparesNumbers R → (r : F) → IsNumber R r → InRange (clamp_ratio R r)
  unfolding clamp_ratio
  clamp_ratio-InRange c r h =
      if_cases InRange (lt r tenth) _ _ (λ e. (c.tenth_number, c.tenth_le_nine_tenths))
        (λ e.
          if_cases InRange (lt nine_tenths r) _ _
            (λ f. (c.tenth_le_nine_tenths, c.nine_tenths_number))
            (λ f.
              (c.total r tenth h c.tenth_number e, c.total nine_tenths r c.nine_tenths_number h f)))

  unfoldable pub RatiosInRange : Node F → Type 0
  RatiosInRange (leaf a v) = Unit
  RatiosInRange (branch b l r) = InRange b.ratio × RatiosInRange l × RatiosInRange r

  unfoldable pub FramesInRange : List (Frame F) → Type 0
  FramesInRange [] = Unit
  FramesInRange (in_first b o ∷ above) = InRange b.ratio × RatiosInRange o × FramesInRange above
  FramesInRange (in_second b o ∷ above) = InRange b.ratio × RatiosInRange o × FramesInRange above

  pub RatiosInRange-plug :
      (above : List (Frame F)) (n : Node F)
      → FramesInRange above
      → RatiosInRange n
      → RatiosInRange (plug above n)
  unfolding FramesInRange RatiosInRange plug plug_frame
  RatiosInRange-plug [] n h k = k
  RatiosInRange-plug (in_first b o ∷ above) n (p, q, r) k = RatiosInRange-plug above _ r (p, k, q)
  RatiosInRange-plug (in_second b o ∷ above) n (p, q, r) k = RatiosInRange-plug above _ r (p, q, k)

  pub plug-FramesInRange :
      (above : List (Frame F)) (n : Node F)
      → RatiosInRange (plug above n)
      → FramesInRange above × RatiosInRange n
  unfolding FramesInRange RatiosInRange plug plug_frame
  plug-FramesInRange [] n h = (tt, h)
  plug-FramesInRange (in_first b o ∷ above) n h =
      let (f, (p, k, q)) = plug-FramesInRange above (branch b n o) h in ((p, q, f), k)
  plug-FramesInRange (in_second b o ∷ above) n h =
      let (f, (p, q, k)) = plug-FramesInRange above (branch b o n) h in ((p, q, f), k)

  -- A step of the walk: it stops at the frame, or goes on above it.
  Walked : Edge → ℤ → Frame F → List (Frame F) → List (Frame F) → Type 0
  Walked edge delta f above above' =
      ((stops_at R edge f ≡ true) × (above' ≡ resize_frame R edge delta f ∷ above))
      ⊎ ((rest : List (Frame F)) × (resize_walk R edge delta above ≡ some rest)
          × (above' ≡ f ∷ rest))

  walk_step :
      (edge : Edge) (delta : ℤ) (f : Frame F) (above above' : List (Frame F))
      → resize_walk R edge delta (f ∷ above) ≡ some above'
      → Walked edge delta f above above'
  unfolding resize_walk Walked
  walk_step edge delta f above above' e = elim (Bool-cases (stops_at R edge f)) [
    | inl stop ↦ inl (stop, sym (some_inj (rw stop at e)))
    | inr on ↦ elim (Option-cases (resize_walk R edge delta above)) [
      | inl q ↦ absurd (cc (rw (q, resize_walk) at (rw on at e)))
      | inr (rest, q) ↦ inr (rest, q, sym (some_inj (rw (q, resize_walk) at (rw on at e))))
    ]
  ]

  frame_order :
      (r : F) (f : Frame F) (above : List (Frame F))
      → (before (set_frame_ratio r f ∷ above) ≡ before (f ∷ above))
        × (after (set_frame_ratio r f ∷ above) ≡ after (f ∷ above))
  unfolding before after set_frame_ratio
  frame_order r (in_first b o) above = (refl, refl)
  frame_order r (in_second b o) above = (refl, refl)

  frame_cons :
      (f : Frame F) (above above' : List (Frame F))
      → (before above' ≡ before above) × (after above' ≡ after above)
      → (before (f ∷ above') ≡ before (f ∷ above)) × (after (f ∷ above') ≡ after (f ∷ above))
  unfolding before after
  frame_cons (in_first b o) above above' (p, q) = (p, ap (◌++◌ (leaves o)) q)
  frame_cons (in_second b o) above above' (p, q) = (ap (λ t. t ++ leaves o) p, q)

  frame_InRange :
      (r : F) (f : Frame F) (above : List (Frame F))
      → InRange r
      → FramesInRange (f ∷ above)
      → FramesInRange (set_frame_ratio r f ∷ above)
  unfolding FramesInRange set_frame_ratio
  frame_InRange r (in_first b o) above h (p, q, k) = (h, q, k)
  frame_InRange r (in_second b o) above h (p, q, k) = (h, q, k)

  pub first_InRange :
      (f : Frame F) (above : List (Frame F))
      → FramesInRange (f ∷ above)
      → InRange (frame_branch f).ratio
  unfolding FramesInRange frame_branch
  first_InRange (in_first b o) above (p, q, k) = p
  first_InRange (in_second b o) above (p, q, k) = p

  -- The walk stops at an inner node that was laid out.
  stops_laid_out :
      (edge : Edge) (f : Frame F)
      → stops_at R edge f ≡ true
      → ltb_ℤ (pos 0) (frame_branch f).axis_length ≡ true
  unfolding stops_at
  stops_laid_out edge f h = ground (arith, h)

  shifted-IsNumber :
      ComparesNumbers R
      → (toward_first : Bool) (delta : ℤ) (b : Branch F) → InRange b.ratio
      → ltb_ℤ (pos 0) b.axis_length ≡ true
      → IsNumber R (shifted R toward_first b.ratio delta b.axis_length)
  unfolding shifted
  shifted-IsNumber c true delta b h e =
      c.add_quotient b.ratio delta b.axis_length (InRange-IsNumber c b.ratio h) (ltb_ℤ→lt _ _ e)
  shifted-IsNumber c false delta b h e =
      c.sub_quotient b.ratio delta b.axis_length (InRange-IsNumber c b.ratio h) (ltb_ℤ→lt _ _ e)

  frame_InRange_cons :
      (f : Frame F) (above above' : List (Frame F))
      → (FramesInRange above → FramesInRange above')
      → FramesInRange (f ∷ above)
      → FramesInRange (f ∷ above')
  unfolding FramesInRange
  frame_InRange_cons (in_first b o) above above' g (p, q, k) = (p, q, g k)
  frame_InRange_cons (in_second b o) above above' g (p, q, k) = (p, q, g k)

  -- The parents of a found leaf have the ratios of the tree.
  pub found-FramesInRange :
      (root : Node F) (v : View) (f : Found F)
      → find_from [] root v ≡ some f
      → RatiosInRange root
      → FramesInRange f.parents
  unfolding plug
  found-FramesInRange root v f e h =
      let s = find_from-FindSpec [] root v f e in
      (plug-FramesInRange f.parents (leaf f.address f.view) (rw (s.rebuilds) h)).0

  walk_none :
      (edge : Edge) (delta : ℤ) {above' : List (Frame F)}
      → resize_walk R edge delta [] ≡ some above'
      → ⊥
  unfolding resize_walk
  walk_none edge delta e = cc e

  abbrev pub AllInRange : Option (Node F) → Type 0
  AllInRange none = Unit
  AllInRange (some n) = RatiosInRange n

  -- What a call that may change ratios does to a tree.
  pub record Keeps (root : Option (Node F)) (result : Option (Node F) × Bool) : Type 0 where
    pub same_order : order result.0 ≡ order root
    pub in_range : AllInRange root → AllInRange result.0
    pub no_change : result.1 ≡ false → result.0 ≡ root

  Keeps-refl : (root : Option (Node F)) → Keeps root (root, false)
  Keeps-refl root = record { same_order = refl; in_range = λ h. h; no_change = λ h. refl }

  module _ (c : ComparesNumbers R) (edge : Edge) (delta : ℤ) where
    resize_walk_keeps :
        (above above' : List (Frame F))
        → resize_walk R edge delta above ≡ some above'
        → (before above' ≡ before above)
          × (after above' ≡ after above)
          × (FramesInRange above → FramesInRange above')
    unfolding Walked resize_frame
    resize_walk_keeps [] above' e = absurd (walk_none edge delta e)
    resize_walk_keeps (f ∷ above) above' e = elim (walk_step edge delta f above above' e) [
      | inl (stop, p) ↦
          let r = frame_order _ f above in
          rw p (
            r.0,
            r.1,
            λ h.
                frame_InRange _ f above
                  (clamp_ratio-InRange c _ (
                    shifted-IsNumber c (needs_first edge) delta (frame_branch f)
                      (first_InRange f above h) (stops_laid_out edge f stop)))
                  h,
          )
      | inr (rest, q, p) ↦
          let ih = resize_walk_keeps above rest q in
          let r = frame_cons f above rest (ih.0, ih.1) in
          rw p (r.0, r.1, frame_InRange_cons f above rest ih.2)
    ]

    resize_found-Keeps :
        (root : Node F) (v : View) (f : Found F)
        → find_from [] root v ≡ some f
        → Keeps (some root) (resize_found R edge delta (some root) f)
    unfolding resize_found order RatiosInRange plug
    resize_found-Keeps root v f e =
        let s = find_from-FindSpec [] root v f e in
        elim (Option-cases (resize_walk R edge delta f.parents)) [
          | inl q ↦ rw (q, resize_found) (Keeps-refl (some root))
          | inr (parents, q) ↦
              let k = resize_walk_keeps f.parents parents q in
              rw (q, resize_found)
                (record {
                  same_order =
                      leaves-plug parents _
                      ∙ rw (k.0, k.1)
                          (sym (leaves-plug f.parents (leaf f.address f.view))
                            ∙ ap leaves s.rebuilds);
                  in_range = λ r.
                      let split =
                        plug-FramesInRange f.parents (leaf f.address f.view) (rw (s.rebuilds) r) in
                      RatiosInRange-plug parents _ (k.2 split.0) split.1;
                  no_change = λ h. absurd (cc h);
                })
        ]

    pub resize_focused-Keeps :
        (root : Option (Node F)) (v : View) → Keeps root (resize_focused R root v edge delta)
    unfolding resize_focused find
    resize_focused-Keeps none v = Keeps-refl none
    resize_focused-Keeps (some root) v = elim (Option-cases (find_from [] root v)) [
      | inl e ↦ rw (e, resize_focused) (Keeps-refl (some root))
      | inr (f, e) ↦
          rw (e, resize_focused)
            (elim (Bool-cases (ltb_ℤ (pos 0) delta)) [
              | inl grow ↦ rw grow (resize_found-Keeps root v f e)
              | inr not_grow ↦ rw not_grow (Keeps-refl (some root))
            ])
    ]

    -- A resize keeps the windows and their order, and every ratio between a tenth and nine tenths and
    -- no NaN, if all ratios were; it returns true, or false and the tree is unchanged. Of `double` it is
    -- assumed that comparisons are as IEEE 754 says, that 0.1 ≤ 0.9, and that a number plus or minus an
    -- `int` over a positive one is a number.
    pub resize_focused_keeps :
        (root : Option (Node F)) (v : View)
        → AllInRange root
        → (order (resize_focused R root v edge delta).0 ≡ order root)
          × AllInRange (resize_focused R root v edge delta).0
          × (((resize_focused R root v edge delta).1 ≡ true)
              ⊎ ((resize_focused R root v edge delta).0 ≡ root))
    resize_focused_keeps root v h =
        let k = resize_focused-Keeps root v in
        (
          k.same_order,
          k.in_range h,
          elim (Bool-cases (resize_focused R root v edge delta).1) [
            | inl e ↦ inl e
            | inr e ↦ inr (k.no_change e)
          ],
        )
