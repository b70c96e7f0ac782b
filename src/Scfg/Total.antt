-- ===== src/Scfg/Total.antt =====
-- src/config/scfg_lex.c: the lexer ends, and the errors that it records are bounded.
use leme.Base.{
  ℕ, zero, suc, ◌+◌, ◌-◌, ◌≤◌, ◌==◌, ◌&&◌, ◌||◌, not, leb, Bool, false, Option, none, some, List,
  [], ◌∷◌, length, ◌≡◌, refl, sym, subst, ◌∙◌, arith, if_cases, length-append,
}
use leme.Scfg.{
  no_errors, max_errors, Span, Problem, Report, Token, Lexer, Place, error_add, token_push, Ending,
  complete, broken, refused, Text, text_push, Turn, given_up, emit_word, pushed, skipped, end_word,
  turn, finished, lex_from, lex, blank, tab, line_feed, semicolon, brace, closing_brace,
  double_quote, single_quote, is_comment, finish,
}
use leme.Scfg.Advance.{turn-Moves}

-- At most the bound of the header is recorded.
abbrev pub Bounded : Report → Type 0
Bounded report = length report.errors ≤ max_errors

pub error_add-Bounded :
    (error_memory : ℕ → Bool) (report : Report) (span : Span) (problem : Problem)
    → Bounded report
    → Bounded (error_add error_memory report span problem)
unfolding error_add
error_add-Bounded error_memory report span problem b =
    if_cases Bounded (leb max_errors (length report.errors)) _ _ (λ e. b)
      (λ e.
        if_cases Bounded (error_memory (length report.errors)) _ _
          (λ f. ground (
            arith,
            e,
            length-append report.errors (record { span = span; problem = problem } ∷ []),
          ))
          (λ f. b))

abbrev BoundedTurn : Turn → Type 0
BoundedTurn t = Bounded t.lexer.report

report-token_push :
    (memory : ℕ → Bool) (lexer : Lexer) (token : Token)
    → (token_push memory lexer token).0.report ≡ lexer.report
unfolding token_push
report-token_push memory lexer token =
    if_cases {A = Lexer × Bool} (λ r. r.0.report ≡ lexer.report) (memory (length lexer.tokens)) _ _
      (λ e. refl) (λ e. refl)

report-pushed : (place : Place) (r : Lexer × Bool) → (pushed place r).lexer.report ≡ r.0.report
unfolding pushed
report-pushed place (lexer, done) = refl

pushed-Bounded :
    (memory : ℕ → Bool) (place : Place) (lexer : Lexer) (token : Token)
    → Bounded lexer.report
    → BoundedTurn (pushed place (token_push memory lexer token))
pushed-Bounded memory place lexer token b =
    subst Bounded (sym (report-pushed place _ ∙ report-token_push memory lexer token)) b

emit_word-Bounded :
    (memory : ℕ → Bool) (lexer : Lexer) (place : Place) (span : Span) (text : Option Text)
    → Bounded lexer.report
    → BoundedTurn (emit_word memory lexer place span text)
unfolding emit_word given_up
emit_word-Bounded memory lexer (rest, index) span none b = b
emit_word-Bounded memory lexer (rest, index) span (some text) b =
    pushed-Bounded memory (rest, index) lexer _ b

end_word-Bounded :
    (memory : ℕ → Bool) (text_memory : ℕ → ℕ → Bool) (error_memory : ℕ → Bool) (lexer : Lexer)
    (start : ℕ) (ending : Ending)
    → Bounded lexer.report
    → BoundedTurn (end_word memory text_memory error_memory lexer start ending)
unfolding end_word skipped given_up
end_word-Bounded memory text_memory error_memory lexer start (complete (rest, index) text) b =
    emit_word-Bounded memory lexer (rest, index) (record { offset = start; size = index - start })
      (text_push (text_memory start) text 0) b
end_word-Bounded memory text_memory error_memory lexer start refused b = b
end_word-Bounded memory text_memory error_memory lexer start (broken (rest, index) span problem) b =
    error_add-Bounded error_memory lexer.report span problem b

turn-Bounded :
    (memory : ℕ → Bool) (text_memory : ℕ → ℕ → Bool) (error_memory : ℕ → Bool) (lexer : Lexer)
    (c : ℕ) (cs : List ℕ) (index : ℕ)
    → Bounded lexer.report
    → BoundedTurn (turn memory text_memory error_memory lexer c cs index)
unfolding turn skipped
turn-Bounded memory text_memory error_memory lexer c cs index b =
    if_cases BoundedTurn (c == blank || c == tab) _ _ (λ e. b)
      (λ e.
        if_cases BoundedTurn (is_comment c cs) _ _ (λ f. b)
          (λ f.
            if_cases BoundedTurn
              (c == line_feed || c == semicolon || c == brace || c == closing_brace) _ _
              (λ g. pushed-Bounded memory (cs, index + 1) lexer _ b)
              (λ g.
                if_cases BoundedTurn (c == double_quote || c == single_quote) _ _
                  (λ h. end_word-Bounded memory text_memory error_memory lexer index _ b)
                  (λ h. end_word-Bounded memory text_memory error_memory lexer index _ b))))

-- There is a result, it has at most that many errors, and it is no success with errors.
abbrev pub Lexed : Option (Lexer × Bool) → Type 0
Lexed none = ⊥
Lexed (some r) = Bounded r.0.report × (r.1 && not (no_errors r.0.report.errors) ≡ false)

finished-Lexed : (r : Lexer × Bool) → Bounded r.0.report → Lexed (some (finished r))
unfolding finished
finished-Lexed (lexer, done) b = (b, ground arith)

lex_from-Lexed :
    (memory : ℕ → Bool) (text_memory : ℕ → ℕ → Bool) (error_memory : ℕ → Bool) (n : ℕ)
    (lexer : Lexer) (cs : List ℕ) (index : ℕ)
    → length cs ≤ n
    → Bounded lexer.report
    → Lexed (lex_from memory text_memory error_memory n lexer (cs, index))
unfolding lex_from
lex_from-Lexed memory text_memory error_memory n lexer [] index h b =
    finished-Lexed (token_push memory lexer (finish (record { offset = index; size = 0 })))
      (subst Bounded (sym (report-token_push memory lexer _)) b)
lex_from-Lexed memory text_memory error_memory zero lexer (c ∷ cs) index h b = absurd (omega arith)
lex_from-Lexed memory text_memory error_memory (suc n) lexer (c ∷ cs) index h b =
    let t = turn memory text_memory error_memory lexer c cs index in
    if_cases Lexed t.going _ _
      (λ e.
        lex_from-Lexed memory text_memory error_memory n t.lexer t.place.0 t.place.1
          (omega (arith, turn-Moves memory text_memory error_memory lexer c cs index))
          (turn-Bounded memory text_memory error_memory lexer c cs index b))
      (λ e. (turn-Bounded memory text_memory error_memory lexer c cs index b, refl))

-- Whatever the bytes and the answers of the allocator, for tokens, errors and the buffers of words alike,
-- the lexer ends within as many turns as there are bytes: it gives a result, which records at most 20
-- errors if there were at most 20 before, and never reports success with an error recorded.
pub lex-Lexed :
    (memory : ℕ → Bool) (text_memory : ℕ → ℕ → Bool) (error_memory : ℕ → Bool) (report : Report)
    (source : List ℕ)
    → Bounded report
    → Lexed (lex memory text_memory error_memory report source)
unfolding lex
lex-Lexed memory text_memory error_memory report source b =
    lex_from-Lexed memory text_memory error_memory (length source) _ source 0 (omega arith) b
