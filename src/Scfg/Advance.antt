-- ===== src/Scfg/Advance.antt =====
-- src/config/scfg_lex.c: every turn of the lexer takes a byte or more.
use leme.Base.{
  ℕ, ◌+◌, ◌-◌, ◌≤◌, ◌==◌, ◌||◌, Bool, true, false, Option, none, some, List, [], ◌∷◌, length, ◌≡◌,
  refl, arith, if_cases,
}
use leme.Scfg.{
  mark, word, Span, Text, empty_text, text_push, pushing, refused, c_string, given_up, emit_word,
  unterminated, Lexer, Place, token_push, skip_line, Ending, complete, broken, ends_word,
  breaks_word, atom_from, quoted_from, Turn, pushed, skipped, end_word, turn, blank, tab, line_feed,
  semicolon, brace, closing_brace, double_quote, single_quote, is_comment,
}

skip_line-length : (cs : List ℕ) (index : ℕ) → length (skip_line cs index).0 ≤ length cs
unfolding skip_line
skip_line-length [] index = omega arith
skip_line-length (c ∷ cs) index = ground (arith, skip_line-length cs (index + 1))

skip_line-moves :
    (c : ℕ) (cs : List ℕ) (index : ℕ)
    → is_comment c cs ≡ true
    → length (skip_line (c ∷ cs) index).0 ≤ length cs
unfolding skip_line is_comment
skip_line-moves c cs index e = ground (arith, e, skip_line-length cs (index + 1))

-- The bytes that are left after a word.
abbrev left : Ending → ℕ
left (complete place text) = length place.0
left (broken place span problem) = length place.0
left refused = 0

left-pushing :
    (o : Option Text) (next : Text → Ending) (n : ℕ)
    → ((t : Text) → left (next t) ≤ n)
    → left (pushing o next) ≤ n
unfolding pushing
left-pushing none next n h = omega arith
left-pushing (some t) next n h = h t

atom_from-left :
    (grant : ℕ → Bool) (cs : List ℕ) (index : ℕ) (text : Text)
    → left (atom_from grant cs index text) ≤ length cs
unfolding atom_from
atom_from-left grant [] index text = omega arith
atom_from-left grant (c ∷ []) index text = ground (
  arith,
  left-pushing (text_push grant text c) (λ t. complete ([], index + 1) t) 1 (λ t. omega arith),
)
atom_from-left grant (c ∷ d ∷ ds) index text = ground (
  arith,
  left-pushing (text_push grant text c) (λ t. atom_from grant (d ∷ ds) (index + 1) t)
      (length (c ∷ d ∷ ds)) (λ t. omega (arith, atom_from-left grant (d ∷ ds) (index + 1) t)),
  left-pushing (text_push grant text d) (λ t. atom_from grant ds (index + 2) t)
      (length (c ∷ d ∷ ds)) (λ t. omega (arith, atom_from-left grant ds (index + 2) t)),
)

quoted_from-left :
    (grant : ℕ → Bool) (quote start : ℕ) (cs : List ℕ) (index : ℕ) (text : Text)
    → left (quoted_from grant quote start cs index text) ≤ length cs
unfolding quoted_from
quoted_from-left grant quote start [] index text = omega arith
quoted_from-left grant quote start (c ∷ []) index text = ground (
  arith,
  left-pushing (text_push grant text c)
      (λ t. broken ([], index + 1) (record { offset = start; size = 1 }) (unterminated quote)) 1
      (λ t. omega arith),
)
quoted_from-left grant quote start (c ∷ d ∷ ds) index text = ground (
  arith,
  left-pushing (text_push grant text c) (λ t. quoted_from grant quote start (d ∷ ds) (index + 1) t)
      (length (c ∷ d ∷ ds))
      (λ t. omega (arith, quoted_from-left grant quote start (d ∷ ds) (index + 1) t)),
  left-pushing (text_push grant text d) (λ t. quoted_from grant quote start ds (index + 2) t)
      (length (c ∷ d ∷ ds))
      (λ t. omega (arith, quoted_from-left grant quote start ds (index + 2) t)),
)

-- A word that does not begin with what ends or breaks one is not empty.
atom_from-moves :
    (grant : ℕ → Bool) (c : ℕ) (cs : List ℕ) (index : ℕ) (text : Text)
    → ends_word c cs ≡ false
    → breaks_word c ≡ false
    → left (atom_from grant (c ∷ cs) index text) ≤ length cs
unfolding atom_from
atom_from-moves grant c [] index text e b = ground (
  arith,
  e,
  b,
  left-pushing (text_push grant text c) (λ t. complete ([], index + 1) t) 0 (λ t. omega arith),
)
atom_from-moves grant c (d ∷ ds) index text e b = ground (
  arith,
  e,
  b,
  left-pushing (text_push grant text c) (λ t. atom_from grant (d ∷ ds) (index + 1) t)
      (length (d ∷ ds)) (λ t. atom_from-left grant (d ∷ ds) (index + 1) t),
  left-pushing (text_push grant text d) (λ t. atom_from grant ds (index + 2) t) (length (d ∷ ds))
      (λ t. omega (arith, atom_from-left grant ds (index + 2) t)),
)

place-pushed : (place : Place) (r : Lexer × Bool) → (pushed place r).place ≡ place
unfolding pushed
place-pushed place (lexer, done) = refl

place-emit_word :
    (memory : ℕ → Bool) (lexer : Lexer) (rest : List ℕ) (index : ℕ) (span : Span)
    (text : Option Text)
    → length (emit_word memory lexer (rest, index) span text).place.0 ≤ length rest
unfolding emit_word given_up
place-emit_word memory lexer rest index span none = omega arith
place-emit_word memory lexer rest index span (some text) =
    ground (
      arith,
      place-pushed (rest, index) (token_push memory lexer (word (c_string text.bytes) span)),
    )

place-end_word :
    (memory : ℕ → Bool) (text_memory : ℕ → ℕ → Bool) (error_memory : ℕ → Bool) (lexer : Lexer)
    (start : ℕ) (ending : Ending)
    → length (end_word memory text_memory error_memory lexer start ending).place.0 ≤ left ending
unfolding end_word skipped given_up
place-end_word memory text_memory error_memory lexer start (complete (rest, index) text) =
    place-emit_word memory lexer rest index (record { offset = start; size = index - start })
      (text_push (text_memory start) text 0)
place-end_word memory text_memory error_memory lexer start refused = omega arith
place-end_word memory text_memory error_memory lexer start (broken (rest, index) span problem) =
    skip_line-length rest index

no_end :
    (c : ℕ) (cs : List ℕ)
    → c == blank || c == tab ≡ false
    → is_comment c cs ≡ false
    → c == line_feed || c == semicolon ≡ false
    → ends_word c cs ≡ false
unfolding ends_word
no_end c cs e f g = ground (arith, e, f, g)

no_break :
    (c : ℕ)
    → c == brace || c == closing_brace ≡ false
    → c == double_quote || c == single_quote ≡ false
    → breaks_word c ≡ false
unfolding breaks_word
no_break c e f = ground (arith, e, f)

abbrev Moves : List ℕ → Turn → Type 0
Moves cs t = length t.place.0 ≤ length cs

pub turn-Moves :
    (memory : ℕ → Bool) (text_memory : ℕ → ℕ → Bool) (error_memory : ℕ → Bool) (lexer : Lexer)
    (c : ℕ) (cs : List ℕ) (index : ℕ)
    → Moves cs (turn memory text_memory error_memory lexer c cs index)
unfolding turn skipped
turn-Moves memory text_memory error_memory lexer c cs index =
    if_cases (Moves cs) (c == blank || c == tab) _ _ (λ e. omega arith)
      (λ e.
        if_cases (Moves cs) (is_comment c cs) _ _ (λ f. skip_line-moves c cs index f)
          (λ f.
            if_cases (Moves cs)
              (c == line_feed || c == semicolon || c == brace || c == closing_brace) _ _
              (λ g. ground (
                arith,
                place-pushed (cs, index + 1)
                    (token_push memory lexer (mark c (record { offset = index; size = 1 }))),
              ))
              (λ g.
                if_cases (Moves cs) (c == double_quote || c == single_quote) _ _
                  (λ h. omega (
                    arith,
                    place-end_word memory text_memory error_memory lexer index
                        (quoted_from (text_memory index) c index cs (index + 1) empty_text),
                    quoted_from-left (text_memory index) c index cs (index + 1) empty_text,
                  ))
                  (λ h. omega (
                    arith,
                    place-end_word memory text_memory error_memory lexer index
                        (atom_from (text_memory index) (c ∷ cs) index empty_text),
                    atom_from-moves (text_memory index) c cs index empty_text
                        (no_end c cs (ground (arith, e)) f (ground (arith, g)))
                        (no_break c (ground (arith, g)) h),
                  )))))
