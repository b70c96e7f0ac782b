-- ===== src/Examples/Texts.antt =====
-- Requests, replies and the configured outputs.
use leme.Base.{
  ℕ, ◌≡◌, ◌++◌, refl, Bool, true, false, Option, none, some, List, [], ◌∷◌, length, take, min, All,
  arith,
}
use leme.Base.Int.{pos}
use leme.Ipc.Request.{Bytes, is_separator, split}
use leme.Ipc.Request.Join.{Spaced, final, next, split-Spaced}
use leme.Ipc.Json.{
  contents, init, fail, reserve, reallocate, grow, append, escape, hex_digit, escape_all,
  raw_string,
}
use leme.Ipc.Json.Grow.{IsValid, Appended, append-Appended}
use leme.Ipc.Json.Escape.{Encodes, raw_string-Encodes}
use leme.Output.Placement.{Request, Slot, Relation, left_of, right_of, initials, resolve}
use leme.Output.Placement.Places.{IsPlaced, Grows, resolve_total}

abbrev words : List Bytes
words = (97 ∷ 98 ∷ []) ∷ (99 ∷ []) ∷ []

-- "ab", a space, a tab, "c"
command-Spaced : Spaced 32 9 words (97 ∷ 98 ∷ 32 ∷ 9 ∷ 99 ∷ [])
unfolding is_separator
command-Spaced =
    next [] (97 ∷ 98 ∷ []) 32 ((99 ∷ []) ∷ []) (9 ∷ 99 ∷ []) tt
      ((λ e. absurd (cc e)), (refl, (refl, tt))) refl
      (final (9 ∷ []) (99 ∷ []) (refl, tt) ((λ e. absurd (cc e)), (refl, tt)))

split-Spaced_example :
    split 32 9 1 (97 ∷ 98 ∷ 32 ∷ 9 ∷ 99 ∷ []) ≡ some (take 1 words, min 1 (length words))
split-Spaced_example = split-Spaced 32 9 1 words (97 ∷ 98 ∷ 32 ∷ 9 ∷ 99 ∷ []) command-Spaced

abbrev generous : ℕ → Bool
generous size = true

init-IsValid : IsValid init
unfolding init
init-IsValid = (refl, omega arith)

append-Appended_example :
    IsValid (append generous init (123 ∷ []))
    × Appended generous init (123 ∷ []) (append generous init (123 ∷ []))
append-Appended_example = append-Appended generous init (123 ∷ []) init-IsValid

-- A quote, a line feed, a control byte and a letter.
abbrev title : Bytes
title = 34 ∷ 10 ∷ 27 ∷ 97 ∷ []

raw_string-Encodes_example :
    IsValid (raw_string generous init title)
    × (body : Bytes) × Encodes body title
    × (contents (raw_string generous init title)
        ≡ contents init ++ ((34 ∷ []) ++ (body ++ (34 ∷ []))))
unfolding raw_string escape_all escape hex_digit append reserve reallocate grow fail init
raw_string-Encodes_example = raw_string-Encodes generous init title init-IsValid refl

abbrev output : ℕ → Option ℕ → Relation → Request
output name relative relation = record {
  name = some (name ∷ []);
  width = pos 1920;
  height = pos 1080;
  x = pos 0;
  y = pos 0;
  relative_to = elim relative [ none ↦ none | some r ↦ some (r ∷ []) ];
  relation = relation;
  has_position = false;
}

-- Two outputs that each want to stand left of the other, and one right of the first.
abbrev requests : List Request
requests =
    output 65 (some 66) left_of ∷ output 66 (some 65) left_of ∷ output 67 (some 65) right_of ∷ []

resolve_total_example :
    (ss : List Slot) × (resolve requests ≡ some ss) × All IsPlaced ss × Grows (initials requests) ss
resolve_total_example = resolve_total requests
