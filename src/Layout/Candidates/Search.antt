-- ===== src/Layout/Candidates/Search.antt =====
-- src/workspace/layout.c: the loop that both searches for a candidate end with, for any test and distance.
use leme.Base.{
  ◌&&◌, Bool, true, false, List, [], ◌∷◌, ◌≡◌, ◌↔◌, refl, sym, ◌∙◌, ◌⊎◌, inl, inr, arith,
  Bool-cases, All,
}
use leme.Base.Floats.{Floats, IsOrdered}
use leme.Layout.View.{View, null}
use leme.Layout.Candidates.{Candidate, nearest_from}

abbrev pub Among : Candidate → List Candidate → Type 0
Among c [] = ⊥
Among c (d ∷ ds) = (c ≡ d) ⊎ Among c ds

-- A candidate with the property that no other such candidate is closer than; NULL if there is none.
pub data IsNearest (R : Floats) (P : Candidate → Type 0) (distance : Candidate → R.F)
    (cs : List Candidate) : View → Type 0 where
  nothing : All (λ d. ¬ P d) cs → IsNearest R P distance cs null
  nearest :
      (c : Candidate)
      → Among c cs
      → P c
      → All (λ d. P d → R.lt (distance d) (distance c) ≡ false) cs
      → IsNearest R P distance cs c.view

module _ (R : Floats) (ordered : IsOrdered R) (test : Candidate → Bool)
    (distance : Candidate → R.F) where
  open R use {F, lt, largest}

  -- No candidate that passes the test is closer than `bound`.
  abbrev NoneCloser : F → List Candidate → Type 0
  NoneCloser bound = All (λ d. test d ≡ true → lt (distance d) bound ≡ false)

  -- The result is the start, or a candidate closer than it; nothing beats it.
  data Improves (bound : F) (best : View) (cs : List Candidate) : F × View → Type 0 where
    kept : NoneCloser bound cs → Improves bound best cs (bound, best)
    found :
        (c : Candidate)
        → Among c cs
        → test c ≡ true
        → lt (distance c) bound ≡ true
        → NoneCloser (distance c) cs
        → Improves bound best cs (distance c, c.view)

  beaten : (a b c : F) → lt b c ≡ true → lt a c ≡ false → lt a b ≡ false
  beaten a b c p q = elim (Bool-cases (lt a b)) [
    | inl e ↦ absurd (cc (sym (ordered.transitive a b c e p) ∙ q))
    | inr e ↦ e
  ]

  asymmetric : (a b : F) → lt a b ≡ true → lt b a ≡ false
  asymmetric a b p = beaten b a b p (ordered.irreflexive b)

  take_step :
      (bound : F) (best : View) (c : Candidate) (cs : List Candidate) (r : F × View)
      → test c ≡ true
      → lt (distance c) bound ≡ true
      → Improves (distance c) c.view cs r
      → Improves bound best (c ∷ cs) r
  take_step bound best c cs r t l (kept h) =
      found c (inl refl) t l ((λ _. ordered.irreflexive (distance c)), h)
  take_step bound best c cs r t l (found d a u k h) =
      found d (inr a) u (ordered.transitive (distance d) (distance c) bound k l)
        ((λ _. asymmetric (distance d) (distance c) k), h)

  skip_step :
      (bound : F) (best : View) (c : Candidate) (cs : List Candidate) (r : F × View)
      → (test c ≡ true → lt (distance c) bound ≡ false)
      → Improves bound best cs r
      → Improves bound best (c ∷ cs) r
  skip_step bound best c cs r t (kept h) = kept (t, h)
  skip_step bound best c cs r t (found d a u k h) =
      found d (inr a) u k ((λ e. beaten (distance c) (distance d) bound k (t e)), h)

  nearest_from-Improves :
      (bound : F) (best : View) (cs : List Candidate)
      → Improves bound best cs (nearest_from R test distance bound best cs)
  unfolding nearest_from
  nearest_from-Improves bound best [] = kept tt
  nearest_from-Improves bound best (c ∷ cs) = elim (Bool-cases (test c && lt (distance c) bound)) [
    | inl e ↦ rw e (
        take_step bound best c cs _ (ground (arith, e)) (ground (arith, e))
          (nearest_from-Improves (distance c) c.view cs))
    | inr e ↦
        rw e (
          skip_step bound best c cs _ (λ t. ground (arith, e))
            (nearest_from-Improves bound best cs))
  ]

  -- The same for a predicate that the test decides.
  module _ (P : Candidate → Type 0) (decides : (c : Candidate) → (test c ≡ true) ↔ P c) where
    holds_for_none : (cs : List Candidate) → All (λ d. test d ≡ false) cs → All (λ d. ¬ P d) cs
    holds_for_none [] h = tt
    holds_for_none (c ∷ cs) (h, hs) =
        ((λ p. absurd (cc (sym h ∙ (decides c).1 p))), holds_for_none cs hs)

    none_beats :
        (bound : F) (cs : List Candidate)
        → NoneCloser bound cs
        → All (λ d. P d → lt (distance d) bound ≡ false) cs
    none_beats bound [] h = tt
    none_beats bound (c ∷ cs) (h, hs) = ((λ p. h ((decides c).1 p)), none_beats bound cs hs)

  -- The squares are finite numbers.
  abbrev pub Finite : List Candidate → Type 0
  Finite = All (λ c. lt (distance c) largest ≡ true)

  none_passes :
      (cs : List Candidate) → Finite cs → NoneCloser largest cs → All (λ d. test d ≡ false) cs
  none_passes [] f h = tt
  none_passes (c ∷ cs) (f, fs) (h, hs) = (fails (Bool-cases (test c)), none_passes cs fs hs)
    where
      fails : (test c ≡ true) ⊎ (test c ≡ false) → test c ≡ false
      fails (inl e) = absurd (cc (sym f ∙ h e))
      fails (inr e) = e

  module _ (P : Candidate → Type 0) (decides : (c : Candidate) → (test c ≡ true) ↔ P c) where
    Improves-IsNearest :
        (cs : List Candidate) (r : F × View)
        → Finite cs
        → Improves largest null cs r
        → IsNearest R P distance cs r.1
    Improves-IsNearest cs r f (kept h) = nothing (holds_for_none P decides cs (none_passes cs f h))
    Improves-IsNearest cs r f (found c a t l h) =
        nearest c a ((decides c).0 t) (none_beats P decides (distance c) cs h)

    pub nearest_from-IsNearest :
        (cs : List Candidate)
        → Finite cs
        → IsNearest R P distance cs (nearest_from R test distance largest null cs).1
    nearest_from-IsNearest cs f = Improves-IsNearest cs _ f (nearest_from-Improves largest null cs)
