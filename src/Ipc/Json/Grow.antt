-- ===== src/Ipc/Json/Grow.antt =====
-- src/ipc/json.c: the growth of the buffer.
use leme.Base.{
  ℕ, zero, suc, ◌+◌, ◌-◌, ◌*◌, ◌/◌, ◌≤◌, ◌<◌, ◌==◌, ltb, leb, if◌then◌else◌, Bool, true, false,
  Option, none, some, ◌++◌, length, length-append, ◌≡◌, refl, ap, ◌⊎◌, inl, inr, arith, Bool-cases,
  if_cases, ltb→le,
}
use leme.Ipc.Request.{Bytes}
use leme.Ipc.Json.{
  Json, contents, size_max, fail, Growth, out_of_fuel, too_large, grown, grow, reallocate, reserve,
  append,
}

-- The terminating NUL has its place within the capacity, and the capacity is a `size_t`.
abbrev pub HasRoom : Option Bytes → ℕ → Type 0
HasRoom none capacity = capacity ≡ 0
HasRoom (some text) capacity = length text + 1 ≤ capacity

abbrev pub IsValid : Json → Type 0
IsValid json = HasRoom json.buffer json.capacity × (json.capacity ≤ size_max)

-- What the loop of the doubling comes to.
abbrev pub Grows : ℕ → Growth → Type 0
Grows needed out_of_fuel = ⊥
Grows needed too_large = Unit
Grows needed (grown capacity) = (needed ≤ capacity) × (capacity ≤ size_max)

doubled : ℕ → ℕ → ℕ
doubled zero c = c
doubled (suc n) c = doubled n (c * 2)

grow-Grows :
    (fuel capacity needed : ℕ)
    → size_max < doubled fuel capacity
    → capacity ≤ size_max
    → Grows needed (grow (suc fuel) capacity needed)
unfolding grow doubled
grow-Grows zero capacity needed h k = absurd (omega arith)
grow-Grows (suc fuel) capacity needed h k = elim (Bool-cases (ltb capacity needed)) [
  | inr e ↦ rw e (ltb→le capacity needed e, k)
  | inl e ↦ elim (Bool-cases (ltb (size_max / 2) capacity)) [
    | inl f ↦ rw (e, f) tt
    | inr f ↦
        rw (e, f)
          (grow-Grows fuel (capacity * 2) needed h
            (omega (arith, ltb→le (size_max / 2) capacity f)))
  ]
]

grow-enough :
    (capacity needed : ℕ)
    → 1 ≤ capacity
    → capacity ≤ size_max
    → Grows needed (grow 65 capacity needed)
unfolding doubled
grow-enough capacity needed h k = grow-Grows 64 capacity needed (omega arith) k

module _ (grant : ℕ → Bool) where
  reallocate-IsValid :
      (json : Json) (needed : ℕ) (growth : Growth)
      → IsValid json
      → Grows needed growth
      → length (contents json) + 1 ≤ needed
      → IsValid (reallocate grant json growth)
  unfolding reallocate fail
  reallocate-IsValid json needed out_of_fuel v g h = elim g [ ]
  reallocate-IsValid json needed too_large v g h = v
  reallocate-IsValid json needed (grown capacity) v g h = elim (Bool-cases (grant capacity)) [
    | inl e ↦ rw e (omega (arith, g.0, h), g.1)
    | inr e ↦ rw e v
  ]

  -- The space that was asked for is there.
  abbrev Reserved : Json → ℕ → Type 0
  Reserved json extra = (json.failed ≡ true) ⊎ (length (contents json) + extra + 1 ≤ json.capacity)

  contents-reallocate :
      (json : Json) (growth : Growth) → contents (reallocate grant json growth) ≡ contents json
  unfolding reallocate fail
  contents-reallocate json out_of_fuel = refl
  contents-reallocate json too_large = refl
  contents-reallocate json (grown capacity) =
      if_cases (λ j. contents j ≡ contents json) (grant capacity) _ _ (λ e. refl) (λ e. refl)

  first_capacity : ℕ → ℕ
  first_capacity c = if c == 0 then 128 else c

  first_capacity_bounds :
      (c : ℕ) → c ≤ size_max → (1 ≤ first_capacity c) × (first_capacity c ≤ size_max)
  unfolding first_capacity
  first_capacity_bounds c h = ground arith

  needed : Json → ℕ → ℕ
  needed json extra = length (contents json) + extra + 1

  reserve_cases {κ} :
      (P : Json → Type κ) (json : Json) (extra : ℕ)
      → (json.failed ≡ true → P json)
      → P (fail json)
      → (leb (needed json extra) json.capacity ≡ true → P json)
      → P (reallocate grant json (grow 65 (first_capacity json.capacity) (needed json extra)))
      → P (reserve grant json extra)
  unfolding reserve needed first_capacity
  reserve_cases P json extra a b c d = if_cases P json.failed _ _ a (λ e.
      if_cases P (ltb (size_max - 1 - length (contents json)) extra) _ _ (λ f. b)
        (λ f. if_cases P (leb (length (contents json) + extra + 1) json.capacity) _ _ c (λ g. d)))

  pub contents-reserve :
      (json : Json) (extra : ℕ) → contents (reserve grant json extra) ≡ contents json
  unfolding fail
  contents-reserve json extra =
      reserve_cases (λ j. contents j ≡ contents json) json extra (λ e. refl) refl (λ e. refl)
        (contents-reallocate json _)

  pub reserve-IsValid :
      (json : Json) (extra : ℕ) → IsValid json → IsValid (reserve grant json extra)
  unfolding fail needed
  reserve-IsValid json extra v =
      let bounds = first_capacity_bounds json.capacity v.1 in
      reserve_cases IsValid json extra (λ e. v) v (λ e. v)
        (reallocate-IsValid json (needed json extra) _ v (grow-enough _ _ bounds.0 bounds.1)
          (omega arith))

  reallocate-Reserved :
      (json : Json) (extra : ℕ) (growth : Growth)
      → Grows (needed json extra) growth
      → Reserved (reallocate grant json growth) extra
  unfolding reallocate fail needed
  reallocate-Reserved json extra out_of_fuel g = elim g [ ]
  reallocate-Reserved json extra too_large g = inl refl
  reallocate-Reserved json extra (grown capacity) g =
      if_cases (λ j. Reserved j extra) (grant capacity) _ _ (λ e. inr g.0) (λ e. inl refl)

  pub reserve-Reserved :
      (json : Json) (extra : ℕ) → IsValid json → Reserved (reserve grant json extra) extra
  unfolding fail needed
  reserve-Reserved json extra v =
      let bounds = first_capacity_bounds json.capacity v.1 in
      reserve_cases (λ j. Reserved j extra) json extra (λ e. inl e) (inl refl)
        (λ e. inr (ground arith))
        (reallocate-Reserved json extra _ (grow-enough _ _ bounds.0 bounds.1))

  -- Either nothing was written and the writer has failed, or the text stands behind what stood there.
  abbrev pub Appended : Json → Bytes → Json → Type 0
  Appended json text after =
      ((after.failed ≡ true) × (contents after ≡ contents json))
      ⊎ ((after.failed ≡ false) × (contents after ≡ contents json ++ text))

  room :
      (json : Json) (text : Bytes)
      → json.failed ≡ false
      → Reserved json (length text)
      → length (contents json ++ text) + 1 ≤ json.capacity
  room json text e (inl f) = absurd (ground (arith, e, f))
  room json text e (inr h) = omega (arith, h, length-append (contents json) text)

  -- On a writer whose buffer holds its text and the NUL behind it, and whose
  -- capacity is a `size_t`, an append keeps both: text and NUL stay within the capacity, whatever
  -- `realloc` answers. The text then stands behind the contents, or the contents are as before and
  -- the writer has failed.
  pub append-Appended :
      (json : Json) (text : Bytes)
      → IsValid json
      → IsValid (append grant json text) × Appended json text (append grant json text)
  unfolding append
  append-Appended json text v =
      let reserved = reserve grant json (length text) in
      let valid = reserve-IsValid json (length text) v in
      let same = contents-reserve json (length text) in
      if_cases (λ j. IsValid j × Appended json text j) reserved.failed _ _
        (λ e. (valid, inl (e, same)))
        (λ e. (
          (room reserved text e (reserve-Reserved json (length text) v), valid.1),
          inr (e, ap (λ t. t ++ text) same),
        ))

  -- A writer that has failed stays as it is.
  pub append_failed :
      (json : Json) (text : Bytes) → json.failed ≡ true → append grant json text ≡ json
  unfolding append reserve
  append_failed json text e = rw e refl
