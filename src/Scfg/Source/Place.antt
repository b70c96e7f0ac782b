-- ===== src/Scfg/Source/Place.antt =====
-- src/config/scfg_source.c: the place of an offset is the one that counting the line feeds gives.
use leme.Base.{
  ℕ, zero, suc, ◌+◌, ◌-◌, ◌/◌, ◌≤◌, ◌<◌, ◌==◌, not, ltb, leb, if◌then◌else◌, List, [], ◌∷◌, length,
  take, ◌≡◌, ◌⊎◌, inl, inr, refl, subst, ap, ◌∙◌, arith, if_cases, All, All-map,
}
use leme.Scfg.{Span, line_feed}
use leme.Scfg.Source.{starts_from, entry, search_from, search, locate}

-- The line that holds an offset: it begins there or before, and the next one, if any, begins behind.
abbrev Holds : List ℕ → ℕ → ℕ → Type 0
Holds offsets offset line =
    (line < length offsets)
    × (entry offsets line ≤ offset)
    × ((suc line ≡ length offsets) ⊎ (offset < entry offsets (suc line)))

search_from-Holds :
    (offsets : List ℕ) (offset n low high : ℕ)
    → high - low ≤ n + 1
    → low < high
    → high ≤ length offsets
    → entry offsets low ≤ offset
    → (high ≡ length offsets) ⊎ (offset < entry offsets high)
    → Holds offsets offset (search_from offsets offset n low high)
unfolding search_from
search_from-Holds offsets offset zero low high f l h e b =
    let same : high ≡ suc low = omega arith in
    (omega arith, e, subst (λ k. (k ≡ length offsets) ⊎ (offset < entry offsets k)) same b)
search_from-Holds offsets offset (suc n) low high f l h e b =
    let middle = low + (high - low) / 2 in
    if_cases (Holds offsets offset) (not (ltb (low + 1) high)) _ _
      (λ c.
        let same : high ≡ suc low = ground (arith, c, l) in
        (omega arith, e, subst (λ k. (k ≡ length offsets) ⊎ (offset < entry offsets k)) same b))
      (λ c.
        let wide : low + 1 < high = ground (arith, c) in
        if_cases (Holds offsets offset) (leb (entry offsets middle) offset) _ _
          (λ d.
            search_from-Holds offsets offset n middle high (omega arith) (omega arith) h
              (ground (arith, d)) b)
          (λ d.
            search_from-Holds offsets offset n low middle (omega arith) (omega arith) (omega arith)
              e (inr (ground (arith, d)))))

abbrev Sorted : List ℕ → Type 0
Sorted [] = Unit {0}
Sorted (x ∷ xs) = All (λ y. x < y) xs × Sorted xs

-- How many entries an offset has reached.
abbrev reached : ℕ → List ℕ → ℕ
reached offset [] = 0
reached offset (x ∷ xs) = if leb x offset then suc (reached offset xs) else reached offset xs

reached_none : (offset : ℕ) (xs : List ℕ) → All (λ y. offset < y) xs → reached offset xs ≡ 0
reached_none offset [] a = refl
reached_none offset (x ∷ xs) (h, a) = ground (arith, h, reached_none offset xs a)

entry-All : (x : ℕ) (xs : List ℕ) (k : ℕ) → All (λ y. x < y) xs → k < length xs → x < entry xs k
unfolding entry
entry-All x [] k a h = absurd (omega arith)
entry-All x (y ∷ ys) zero (h, a) k = h
entry-All x (y ∷ ys) (suc k) (h, a) l = entry-All x ys k a (omega arith)

behind_first :
    (offset : ℕ) (ys : List ℕ)
    → Sorted ys
    → (1 ≡ suc (length ys)) ⊎ (offset < entry ys 0)
    → reached offset ys ≡ 0
unfolding entry
behind_first offset [] s b = refl
behind_first offset (y ∷ ys) (a, s) (inl e) = absurd (omega arith)
behind_first offset (y ∷ ys) (a, s) (inr l) =
    reached_none offset (y ∷ ys)
      (l, All-map (λ z. y < z) (λ z. offset < z) (λ z h. omega arith) ys a)

next_Holds :
    (x : ℕ) (ys : List ℕ) (offset k : ℕ) → Holds (x ∷ ys) offset (suc k) → Holds ys offset k
unfolding entry
next_Holds x ys offset k (h, e, inl l) = (omega arith, e, inl (omega arith))
next_Holds x ys offset k (h, e, inr l) = (omega arith, e, inr l)

reached-Holds :
    (xs : List ℕ) (offset k : ℕ) → Sorted xs → Holds xs offset k → reached offset xs ≡ k + 1
unfolding entry
reached-Holds [] offset k s h = absurd (omega (arith, h.0))
reached-Holds (x ∷ ys) offset zero (a, s) (h, e, b) = ground (arith, e, behind_first offset ys s b)
reached-Holds (x ∷ ys) offset (suc k) (a, s) h =
    let n = next_Holds x ys offset k h in
    ground (arith, reached-Holds ys offset k s n, entry-All x ys k a n.0, n.1)

abbrev pub newlines : List ℕ → ℕ
newlines [] = 0
newlines (c ∷ cs) = if c == line_feed then suc (newlines cs) else newlines cs

starts_behind : (i : ℕ) (cs : List ℕ) → All (λ y. i < y) (starts_from i cs)
unfolding starts_from
starts_behind i [] = tt
starts_behind i (c ∷ cs) =
    let rest =
      All-map (λ y. i + 1 < y) (λ y. i < y) (λ y h. omega arith) (starts_from (i + 1) cs)
        (starts_behind (i + 1) cs) in
    if_cases (All (λ y. i < y)) (c == line_feed) _ _ (λ e. (omega arith, rest)) (λ e. rest)

starts-Sorted : (i : ℕ) (cs : List ℕ) → Sorted (starts_from i cs)
unfolding starts_from
starts-Sorted i [] = tt
starts-Sorted i (c ∷ cs) =
    if_cases Sorted (c == line_feed) _ _ (λ e. (starts_behind (i + 1) cs, starts-Sorted (i + 1) cs))
      (λ e. starts-Sorted (i + 1) cs)

reached_later : (i : ℕ) (xs : List ℕ) → All (λ y. i < y) xs → reached (i + 0) xs ≡ 0
reached_later i xs a = ap (λ n. reached n xs) (omega arith) ∙ reached_none i xs a

reached_move : (i k : ℕ) (xs : List ℕ) → reached (i + suc k) xs ≡ reached (i + 1 + k) xs
reached_move i k xs = ap (λ n. reached n xs) (omega arith)

first_reached : (offset : ℕ) (xs : List ℕ) → reached offset (0 ∷ xs) ≡ suc (reached offset xs)
first_reached offset xs = ground arith

reached-starts_from :
    (i k : ℕ) (cs : List ℕ) → reached (i + k) (starts_from i cs) ≡ newlines (take k cs)
unfolding starts_from
reached-starts_from i zero [] = refl
reached-starts_from i (suc k) [] = refl
reached-starts_from i zero (c ∷ cs) =
    reached_later i (starts_from i (c ∷ cs)) (starts_behind i (c ∷ cs))
reached-starts_from i (suc k) (c ∷ cs) =
    ground (arith, reached_move i k (starts_from (i + 1) cs), reached-starts_from (i + 1) k cs)

reached_zero : (k : ℕ) (cs : List ℕ) → reached k (starts_from 0 cs) ≡ newlines (take k cs)
reached_zero k cs =
    ap (λ n. reached n (starts_from 0 cs)) (omega arith) ∙ reached-starts_from 0 k cs

-- The binary search over the indexed line offsets gives as the line of a span one more than the number
-- of line feeds in front of the span's offset, for any bytes and any offset.
pub locate-newlines :
    (bytes : List ℕ) (span : Span)
    → ((locate (record { bytes = bytes; line_offsets = 0 ∷ starts_from 0 bytes }) span).0
        ≡ newlines (take span.offset bytes) + 1)
unfolding locate search entry
locate-newlines bytes span =
    let offsets = 0 ∷ starts_from 0 bytes in
    let found =
      search_from-Holds offsets span.offset (length offsets) 0 (length offsets) (omega arith)
        (omega arith) (omega arith) (omega arith) (inl refl) in
    let count =
      reached-Holds offsets span.offset _ (starts_behind 0 bytes, starts-Sorted 0 bytes) found in
    omega (
      arith,
      count,
      first_reached span.offset (starts_from 0 bytes),
      reached_zero span.offset bytes,
    )
