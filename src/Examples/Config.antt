-- ===== src/Examples/Config.antt =====
-- A configuration file of a few bytes.
use leme.Base.{is_some, ℕ, ◌+◌, ◌≡◌, refl, arith, true, false, List, [], ◌∷◌, take}
use leme.Scfg.{lex}
use leme.Scfg.Total.{Lexed, lex-Lexed}
use leme.Scfg.Words.{Reads, printed, no_break_each, lex-printed}
use leme.Scfg.Quoted.{no_break}
use leme.Scfg.Parse.{parse}
use leme.Scfg.Parse.Ends.{parse-is_some}
use leme.Scfg.Source.{starts_from, locate}
use leme.Scfg.Source.Place.{newlines, locate-newlines}

-- a { and a quote that is not closed
abbrev broken_text : List ℕ
broken_text = 97 ∷ 32 ∷ 123 ∷ 10 ∷ 34 ∷ 98 ∷ 10 ∷ []

lex-Lexed_example : Lexed (
    lex
      (λ n. true)
      (λ s n. true)
      (λ n. true)
      (record { errors = []; truncated = false })
      broken_text)
lex-Lexed_example =
    lex-Lexed (λ n. true) (λ s n. true) (λ n. true) (record { errors = []; truncated = false })
      broken_text (omega arith)

-- a"b and a word of one backslash
abbrev two_words : List (List ℕ)
two_words = (97 ∷ 34 ∷ 98 ∷ []) ∷ (92 ∷ []) ∷ []

lex-printed_example :
    Reads
      (λ n. true)
      two_words
      (lex
        (λ n. true)
        (λ s n. true)
        (λ n. true)
        (record { errors = []; truncated = false })
        (printed two_words))
unfolding no_break_each no_break
lex-printed_example = lex-printed (λ n. true) two_words refl

locate-newlines_example :
    (locate
      (record { bytes = broken_text; line_offsets = 0 ∷ starts_from 0 broken_text })
      (record { offset = 5; size = 1 })).0
    ≡ newlines (take 5 broken_text) + 1
locate-newlines_example = locate-newlines broken_text (record { offset = 5; size = 1 })

parse-is_some_example :
    is_some (
      parse
        (λ n. true)
        (λ s n. true)
        (λ n. true)
        (λ i n. true)
        (record { bytes = broken_text; line_offsets = 0 ∷ starts_from 0 broken_text })
        (record { errors = []; truncated = false }))
    ≡ true
parse-is_some_example =
    parse-is_some (λ n. true) (λ i n. true)
      (record { bytes = broken_text; line_offsets = 0 ∷ starts_from 0 broken_text }) (λ n. true)
      (λ s n. true) (record { errors = []; truncated = false }) (omega arith)
