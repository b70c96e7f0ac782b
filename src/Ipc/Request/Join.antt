-- ===== src/Ipc/Request/Join.antt =====
-- src/ipc/request.c: texts that consist of tokens and separators, and what the split makes of them.
use mathlib.Core.List.{append_assoc, append-nil}
use leme.Base.{
  ℕ, zero, suc, ◌+◌, ◌≤◌, ◌<◌, ltb, if◌then◌else◌, true, false, some, List, [], ◌∷◌, ◌++◌, ◌≡◌, ◌≢◌,
  refl, sym, ap, ap₂, ◌∙◌, arith, subst, le→ltb, lt→ltb, min, All, length, length-append, take,
}
use leme.Ipc.Request.{
  Bytes, is_separator, skip_separators, take_part, store, split_from, at_most, split,
}

-- A token: some bytes, none of which separates.
abbrev pub IsToken : ℕ → ℕ → Bytes → Type 0
IsToken first second t = (t ≢ []) × All (λ c. is_separator first second c ≡ false) t

-- Runs of separators with the tokens between them; a run in front of a token but the first is not
-- empty, as its shape says.
pub data Spaced (first second : ℕ) : List Bytes → Bytes → Type 0 where
  done :
      (gap : Bytes) → All (λ c. is_separator first second c ≡ true) gap → Spaced first second [] gap
  final :
      (gap token : Bytes)
      → All (λ c. is_separator first second c ≡ true) gap
      → IsToken first second token
      → Spaced first second (token ∷ []) (gap ++ token)
  next :
      (gap token : Bytes) (c : ℕ) (tokens : List Bytes) (rest : Bytes)
      → All (λ c. is_separator first second c ≡ true) gap
      → IsToken first second token
      → is_separator first second c ≡ true
      → Spaced first second tokens rest
      → Spaced first second (token ∷ tokens) (gap ++ (token ++ (c ∷ rest)))

module _ (first second : ℕ) where
  abbrev Separates : Bytes → Type 0
  Separates = All (λ c. is_separator first second c ≡ true)

  abbrev Plain : Bytes → Type 0
  Plain = All (λ c. is_separator first second c ≡ false)

  skip_gap :
      (gap rest : Bytes)
      → Separates gap
      → skip_separators first second (gap ++ rest) ≡ skip_separators first second rest
  unfolding skip_separators
  skip_gap [] rest h = refl
  skip_gap (c ∷ gap) rest (h, hs) = rw h (skip_gap gap rest hs)

  skip_token :
      (token rest : Bytes)
      → IsToken first second token
      → skip_separators first second (token ++ rest) ≡ token ++ rest
  unfolding skip_separators
  skip_token [] rest (ne, h) = absurd (ne refl)
  skip_token (c ∷ token) rest (ne, (h, hs)) = rw h refl

  take_token : (token : Bytes) → Plain token → take_part first second token ≡ (token, [])
  unfolding take_part
  take_token [] h = refl
  take_token (c ∷ token) (h, hs) = rw (h, take_token token hs) refl

  take_token_more :
      (token : Bytes) (c : ℕ) (rest : Bytes)
      → Plain token
      → is_separator first second c ≡ true
      → take_part first second (token ++ (c ∷ rest)) ≡ (token, rest)
  unfolding take_part
  take_token_more [] c rest h k = rw k refl
  take_token_more (d ∷ token) c rest (h, hs) k = rw (h, take_token_more token c rest hs k) refl

  -- The parts that the array holds in the end.
  stored : ℕ → ℕ → List Bytes → List Bytes → List Bytes
  stored capacity count parts [] = parts
  stored capacity count parts (t ∷ ts) =
      stored capacity (count + 1) (store capacity count t parts) ts

  round :
      (fuel capacity count : ℕ) (parts : List Bytes) (text : Bytes) (c : ℕ) (cs part rest : Bytes)
      → skip_separators first second text ≡ c ∷ cs
      → take_part first second (c ∷ cs) ≡ (part, rest)
      → split_from (suc fuel) first second capacity count parts text
        ≡ split_from fuel first second capacity (count + 1) (store capacity count part parts) rest
  unfolding split_from
  round fuel capacity count parts text c cs part rest e f = rw (e, split_from) (rw f refl)

  skipped_end : (gap : Bytes) → Separates gap → skip_separators first second gap ≡ []
  unfolding skip_separators
  skipped_end [] h = refl
  skipped_end (c ∷ gap) (h, hs) = rw h (skipped_end gap hs)

  skipped_token :
      (gap token rest : Bytes)
      → Separates gap
      → IsToken first second token
      → skip_separators first second (gap ++ (token ++ rest)) ≡ token ++ rest
  skipped_token gap token rest g t = skip_gap gap (token ++ rest) g ∙ skip_token token rest t

  finished :
      (fuel capacity count : ℕ) (parts : List Bytes) (text : Bytes)
      → skip_separators first second text ≡ []
      → 0 < fuel
      → split_from fuel first second capacity count parts text ≡ some (parts, count)
  unfolding split_from
  finished zero capacity count parts text e h = absurd (omega arith)
  finished (suc fuel) capacity count parts text e h = rw (split_from, e) refl

  split_from-Spaced :
      (fuel capacity count : ℕ) (parts tokens : List Bytes) (text : Bytes)
      → Spaced first second tokens text
      → length text < fuel
      → split_from fuel first second capacity count parts text
        ≡ some (stored capacity count parts tokens, count + length tokens)
  unfolding stored skip_separators
  split_from-Spaced zero capacity count parts tokens text s h = absurd (omega arith)
  split_from-Spaced (suc fuel) capacity count parts _ _ (done gap g) h =
      finished (suc fuel) capacity count parts gap (skipped_end gap g) (omega arith)
      ∙ ap (λ n. some (parts, n)) (omega arith)
  split_from-Spaced (suc fuel) capacity count parts _ _ (final gap [] g t) h = absurd (t.0 refl)
  split_from-Spaced (suc fuel) capacity count parts _ _ (final gap (d ∷ token) g t) h =
      round fuel capacity count parts (gap ++ (d ∷ token)) d token (d ∷ token) []
        (skip_gap gap (d ∷ token) g ∙ rw t.1.0 refl) (take_token (d ∷ token) t.1)
      ∙ finished fuel capacity (count + 1) (store capacity count (d ∷ token) parts) [] refl
          (omega (arith, h, length-append gap (d ∷ token)))
  split_from-Spaced (suc fuel) capacity count parts _ _ (next gap [] c ts rest g t k s) h =
      absurd (t.0 refl)
  split_from-Spaced (suc fuel) capacity count parts _ _ (next gap (d ∷ token) c ts rest g t k s) h =
      round fuel capacity count parts (gap ++ ((d ∷ token) ++ (c ∷ rest))) d (token ++ (c ∷ rest))
        (d ∷ token) rest (skipped_token gap (d ∷ token) (c ∷ rest) g t)
        (take_token_more (d ∷ token) c rest t.1 k)
      ∙ split_from-Spaced fuel capacity (count + 1) (store capacity count (d ∷ token) parts) ts rest
          s
          (omega (
            arith,
            h,
            length-append gap ((d ∷ token) ++ (c ∷ rest)),
            length-append token (c ∷ rest),
          ))
      ∙ ap (λ n. some (stored capacity (count + 1) (store capacity count (d ∷ token) parts) ts, n))
          (omega arith)

  stored_full :
      (capacity count : ℕ) (parts tokens : List Bytes)
      → capacity ≤ count
      → stored capacity count parts tokens ≡ parts
  unfolding stored store
  stored_full capacity count parts [] h = refl
  stored_full capacity count parts (t ∷ ts) h =
      rw (le→ltb count capacity h) (stored_full capacity (count + 1) parts ts (omega arith))

  stored-take :
      (room count : ℕ) (parts tokens : List Bytes)
      → stored (count + room) count parts tokens ≡ parts ++ take room tokens
  unfolding stored store
  stored-take zero count parts tokens =
      stored_full (count + 0) count parts tokens (omega arith) ∙ sym (append-nil parts)
  stored-take (suc room) count parts [] = sym (append-nil parts)
  stored-take (suc room) count parts (t ∷ ts) = rw (lt→ltb count (count + suc room) (omega arith)) (
      subst (λ n. stored n (count + 1) (parts ++ (t ∷ [])) ts ≡ parts ++ (t ∷ take room ts))
        (omega arith)
        (stored-take room (count + 1) (parts ++ (t ∷ [])) ts
          ∙ append_assoc parts (t ∷ []) (take room ts)))

  first_parts :
      (capacity : ℕ) (tokens : List Bytes) → stored capacity 0 [] tokens ≡ take capacity tokens
  first_parts capacity tokens =
      subst (λ n. stored n 0 [] tokens ≡ take capacity tokens) (omega arith)
        (stored-take capacity 0 [] tokens)

  smaller : (capacity n : ℕ) → (if ltb capacity (0 + n) then capacity else 0 + n) ≡ min capacity n
  smaller capacity n = ground arith

  -- On a text that consists of separators and tokens, where separators stand between any two
  -- tokens, the loop ends within its fuel. The array then holds the tokens in order, as many as
  -- its capacity admits, and the result is their number.
  pub split-Spaced :
      (capacity : ℕ) (tokens : List Bytes) (text : Bytes)
      → Spaced first second tokens text
      → split first second capacity text ≡ some (take capacity tokens, min capacity (length tokens))
  unfolding split at_most
  split-Spaced capacity tokens text s =
      ap (at_most capacity)
        (split_from-Spaced (length text + 1) capacity 0 [] tokens text s (omega arith))
      ∙ ap₂ (λ ts n. some (ts, n)) (first_parts capacity tokens) (smaller capacity (length tokens))
