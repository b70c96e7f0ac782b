-- ===== src/Ipc/Request.antt =====
-- src/ipc/request.c: a request line is cut into tokens, a token into fields. The text is the bytes
-- before the terminating NUL; a part is the bytes from its start to the NUL written behind it.
pub mod Join
use leme.Base.{
  ℕ, zero, suc, ◌+◌, ◌==◌, ◌||◌, ltb, if◌then◌else◌, Bool, true, false, Option, none, some, List,
  [], ◌∷◌, ◌++◌, length,
}

abbrev pub Bytes : Type 0
Bytes = List ℕ

unfoldable pub is_separator : ℕ → ℕ → ℕ → Bool
is_separator first second c = c == first || c == second

-- `while (*cursor == first || *cursor == second) cursor++;`
unfoldable pub skip_separators : ℕ → ℕ → Bytes → Bytes
skip_separators first second [] = []
skip_separators first second (c ∷ cs) =
    if is_separator first second c then skip_separators first second cs else c ∷ cs

-- The bytes up to the next separator, and what follows that separator.
unfoldable pub take_part : ℕ → ℕ → Bytes → Bytes × Bytes
take_part first second [] = ([], [])
take_part first second (c ∷ cs) =
    let (part, rest) = take_part first second cs in
    if is_separator first second c then ([], cs) else (c ∷ part, rest)

-- A part beyond the capacity is counted and not stored.
unfoldable pub store : ℕ → ℕ → Bytes → List Bytes → List Bytes
store capacity count part parts = if ltb count capacity then parts ++ (part ∷ []) else parts

-- The loop, one round for each unit of fuel; `none` where it runs out.
unfoldable pub split_from : ℕ → ℕ → ℕ → ℕ → ℕ → List Bytes → Bytes → Option (List Bytes × ℕ)
split_from zero first second capacity count parts text = none
split_from (suc fuel) first second capacity count parts text =
    elim (skip_separators first second text) [
      | [] ↦ some (parts, count)
      | c ∷ cs ↦
          let (part, rest) = take_part first second (c ∷ cs) in
          split_from fuel first second capacity (count + 1) (store capacity count part parts) rest
    ]

-- `return count > capacity ? capacity : count;`
unfoldable pub at_most : ℕ → Option (List Bytes × ℕ) → Option (List Bytes × ℕ)
at_most capacity none = none
at_most capacity (some (parts, count)) =
    some (parts, if ltb capacity count then capacity else count)

-- Each round but the last takes a byte, so the length and one more is enough fuel.
unfoldable pub split : ℕ → ℕ → ℕ → Bytes → Option (List Bytes × ℕ)
split first second capacity text =
    at_most capacity (split_from (length text + 1) first second capacity 0 [] text)

unfoldable pub tokenize : ℕ → Bytes → Option (List Bytes × ℕ)
tokenize capacity line = split b' ' b'\t' capacity line

unfoldable pub fields : ℕ → Bytes → Option (List Bytes × ℕ)
fields capacity token = split b',' b',' capacity token
