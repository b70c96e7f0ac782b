-- ===== src/Scfg/Parse/Ends.antt =====
-- src/config/scfg_parse.c: the parser ends, with as many rounds as there are tokens and one more.
use leme.Base.{
  ℕ, zero, suc, ◌+◌, ◌≤◌, not, ltb, Bool, true, Option, none, some, List, [], ◌∷◌, length, is_some,
  ◌≡◌, refl, arith, if_cases,
}
use leme.Scfg.{Report, Lexer, Span, Problem, Token, word, opening, closing, newline, finish}
use leme.Scfg.Source.{Source, locate}
use leme.Scfg.Parse.{
  Block, Parser, over, skip_block, param_memory, take_params, Outcome, cut_short, out_of_memory,
  add_error, enters, next_span, advance, leave, closed_or_error, parse_from, ends_at, parsed,
  parse_tokens, parse,
}
use leme.Scfg.Total.{Bounded, Lexed, lex-Lexed}

skip_block-length :
    (p : Parser) (depth : ℕ) (ts : List Token) → length (skip_block p depth ts).ahead ≤ length ts
unfolding skip_block
skip_block-length p zero ts = omega arith
skip_block-length p (suc depth) [] = omega arith
skip_block-length p (suc depth) (finish span ∷ ts) = omega arith
skip_block-length p (suc depth) (opening span ∷ ts) =
    omega (arith, skip_block-length (over p (opening span) ts) (suc (suc depth)) ts)
skip_block-length p (suc depth) (closing span ∷ ts) =
    omega (arith, skip_block-length (over p (closing span) ts) depth ts)
skip_block-length p (suc depth) (newline span ∷ ts) =
    omega (arith, skip_block-length (over p (newline span) ts) (suc depth) ts)
skip_block-length p (suc depth) (word text span ∷ ts) =
    omega (arith, skip_block-length (over p (word text span) ts) (suc depth) ts)

take_params-length :
    (entry_memory : ℕ → ℕ → Bool) (p : Parser) (ts : List Token)
    → length (take_params entry_memory p ts).0.ahead ≤ length ts
unfolding take_params
take_params-length entry_memory p [] = omega arith
take_params-length entry_memory p (word text span ∷ ts) =
    if_cases {A = Parser × List (List ℕ × Span) × Bool}
      (λ r. length (Parser.ahead r.0) ≤ length (word text span ∷ ts))
      (param_memory (entry_memory (length p.passed))) _ _
      (λ e. omega (arith, take_params-length entry_memory (over p (word text span) ts) ts))
      (λ e. omega arith)
take_params-length entry_memory p (opening span ∷ ts) = omega arith
take_params-length entry_memory p (closing span ∷ ts) = omega arith
take_params-length entry_memory p (newline span ∷ ts) = omega arith
take_params-length entry_memory p (finish span ∷ ts) = omega arith

advance-length :
    (p : Parser) (ts : List Token)
    → length p.ahead ≤ length ts
    → length (advance p ts).ahead ≤ length ts
unfolding advance over
advance-length p [] h = h
advance-length p (t ∷ ts) h = omega arith

leave-length :
    (error_memory : ℕ → Bool) (p : Parser) (ts : List Token)
    → length p.ahead ≤ length ts
    → length (leave error_memory p ts).ahead ≤ length ts
unfolding leave over
leave-length error_memory p [] h = h
leave-length error_memory p (opening span ∷ ts) h = omega (
  arith,
  skip_block-length (add_error error_memory (over p (opening span) ts) span Problem.too_deep) 1 ts,
)
leave-length error_memory p (newline span ∷ ts) h = omega arith
leave-length error_memory p (word text span ∷ ts) h = h
leave-length error_memory p (closing span ∷ ts) h = h
leave-length error_memory p (finish span ∷ ts) h = h

-- There is an outcome, with no more tokens ahead than a number.
abbrev pub EndsWithin : ℕ → Option Outcome → Type 0
EndsWithin m none = ⊥
EndsWithin m (some o) = length o.parser.ahead ≤ m

closed-length :
    (error_memory : ℕ → Bool) (span : Span) (o : Outcome)
    → length (closed_or_error error_memory span o).ahead ≤ length o.parser.ahead
unfolding closed_or_error add_error
closed-length error_memory span o =
    if_cases (λ p. length (Parser.ahead p) ≤ length o.parser.ahead) o.closed _ _ (λ e. omega arith)
      (λ e. omega arith)

EndsWithin-elim :
    (m : ℕ) (next : Outcome → Option Outcome) (o : Option Outcome)
    → EndsWithin m o
    → ((child : Outcome) → length child.parser.ahead ≤ m → EndsWithin m (next child))
    → EndsWithin m (elim o [ none ↦ none | some child ↦ next child ])
EndsWithin-elim m next none e f = e
EndsWithin-elim m next (some child) e f = f child e

EndsWithin-le : (m k : ℕ) (o : Option Outcome) → m ≤ k → EndsWithin m o → EndsWithin k o
EndsWithin-le m k none h e = e
EndsWithin-le m k (some o) h e = omega arith

-- Where memory ran out, or else in the next outcome, no more tokens are ahead than a number.
StopsWithin : ℕ → Option Outcome → Type 0
StopsWithin m none = Unit
StopsWithin m (some o) = length o.parser.ahead ≤ m

EndsWithin-stopped :
    (m : ℕ) (o next : Option Outcome)
    → StopsWithin m o
    → EndsWithin m next
    → EndsWithin m (elim o [ some x ↦ some x | none ↦ next ])
unfolding StopsWithin
EndsWithin-stopped m none next s e = e
EndsWithin-stopped m (some o) next s e = s

out_of_memory-StopsWithin :
    (entry_memory : ℕ → ℕ → Bool) (p : Parser) (text : List ℕ) (span : Span) (ts : List Token)
    (named : Parser) (params : List (List ℕ × Span)) (going : Bool) (line : ℕ)
    → length named.ahead ≤ length ts
    → StopsWithin
        (length (word text span ∷ ts))
        (out_of_memory entry_memory p text span ts named params going line)
unfolding out_of_memory StopsWithin cut_short
out_of_memory-StopsWithin entry_memory p text span ts named params going line h =
    let P = StopsWithin (length (word text span ∷ ts)) in
    if_cases P (not (entry_memory (length p.passed) 0)) _ _ (λ e. omega arith)
      (λ e.
        if_cases P (not (entry_memory (length p.passed) 1)) _ _ (λ f. omega arith)
          (λ f. if_cases P (not going) _ _ (λ g. omega arith) (λ g. tt)))

module _ (error_memory : ℕ → Bool) (entry_memory : ℕ → ℕ → Bool) (source : Source) where
  -- With more rounds than tokens ahead the parser ends, at a place with no more tokens ahead.
  parse_from-EndsWithin :
      (n : ℕ) (p : Parser) (depth : ℕ) (ts : List Token)
      → length ts + 1 ≤ n
      → length p.ahead ≤ length ts
      → EndsWithin (length ts) (parse_from error_memory entry_memory source n p depth ts)
  unfolding parse_from over cut_short
  parse_from-EndsWithin zero p depth ts h a = absurd (omega arith)
  parse_from-EndsWithin (suc n) p depth [] h a = a
  parse_from-EndsWithin (suc n) p depth (finish span ∷ ts) h a = a
  parse_from-EndsWithin (suc n) p depth (newline span ∷ ts) h a =
      EndsWithin-le (length ts) (length (newline span ∷ ts)) _ (omega arith)
        (parse_from-EndsWithin n (over p (newline span) ts) depth ts (omega arith) (omega arith))
  parse_from-EndsWithin (suc n) p depth (closing span ∷ ts) h a =
      if_cases (EndsWithin (length (closing span ∷ ts))) (ltb 0 depth) _ _ (λ e. omega arith)
        (λ e. EndsWithin-le (length ts) (length (closing span ∷ ts)) _ (omega arith) (
          parse_from-EndsWithin n
            (over (add_error error_memory p span Problem.unexpected_closing) (closing span) ts)
            depth ts (omega arith) (omega arith)))
  parse_from-EndsWithin (suc n) p depth (opening span ∷ ts) h a =
      let p' =
        skip_block (over (add_error error_memory p span Problem.unnamed_block) (opening span) ts) 1
          ts in
      let l =
        skip_block-length
          (over (add_error error_memory p span Problem.unnamed_block) (opening span) ts) 1 ts in
      EndsWithin-le (length p'.ahead) (length (opening span ∷ ts)) _ (omega (arith, l))
        (parse_from-EndsWithin n p' depth p'.ahead (omega (arith, l)) (omega arith))
  parse_from-EndsWithin (suc n) p depth (word text span ∷ ts) h a =
      let (named, params, going) = take_params entry_memory (over p (word text span) ts) ts in
      let inner = advance named named.ahead in
      let l = take_params-length entry_memory (over p (word text span) ts) ts in
      let k = advance-length named named.ahead (omega arith) in
      let m = length (word text span ∷ ts) in
      EndsWithin-stopped m
        (out_of_memory entry_memory p text span ts named params going (locate source span).0) _
        (out_of_memory-StopsWithin entry_memory p text span ts named params going
          (locate source span).0 l)
        (EndsWithin-le (length ts) m _ (omega arith) (
          EndsWithin-elim (length ts) _ _
            (if_cases (EndsWithin (length ts)) (enters depth named.ahead) _ _
              (λ e. EndsWithin-le (length inner.ahead) (length ts) _ (omega (arith, l, k)) (
                parse_from-EndsWithin n inner (depth + 1) inner.ahead (omega (arith, l, k))
                  (omega arith)))
              (λ e. omega (arith, l, leave-length error_memory named named.ahead (omega arith))))
            (λ child d.
              let behind = closed_or_error error_memory (next_span named.ahead) child in
              let b = closed-length error_memory (next_span named.ahead) child in
              if_cases (EndsWithin (length ts)) child.going _ _
                (λ e.
                  EndsWithin-elim (length ts) _ _
                    (EndsWithin-le (length behind.ahead) (length ts) _ (omega (arith, b, d)) (
                      parse_from-EndsWithin n behind depth behind.ahead (omega (arith, b, d))
                        (omega arith)))
                    (λ rest r. r))
                (λ e. d))))

  parsed-is_some : (m : ℕ) (o : Option Outcome) → EndsWithin m o → is_some (parsed o) ≡ true
  unfolding parsed
  parsed-is_some m none e = absurd e
  parsed-is_some m (some o) e = refl

  parse_tokens-is_some :
      (o : Option (Lexer × Bool))
      → Lexed o
      → is_some (parse_tokens error_memory entry_memory source o) ≡ true
  unfolding parse_tokens
  parse_tokens-is_some none e = absurd e
  parse_tokens-is_some (some (lexer, done)) e =
      if_cases {A = Option (Report × Block × Bool)} (λ r. is_some r ≡ true) (ends_at lexer.tokens) _
        _
        (λ f. parsed-is_some (length lexer.tokens) _ (
          parse_from-EndsWithin (length lexer.tokens + 1)
            (record { passed = []; ahead = lexer.tokens; report = lexer.report }) 0 lexer.tokens
            (omega arith) (omega arith)))
        (λ f. refl)

  -- Whatever the bytes and the answers of the allocator to the lexer and to the parser, reading a
  -- configuration ends, where at most 20 errors were recorded before: the lexer needs as many turns as there are bytes, and the
  -- parser as many rounds as there are tokens and one more.
  pub parse-is_some :
      (memory : ℕ → Bool) (text_memory : ℕ → ℕ → Bool) (report : Report)
      → Bounded report
      → is_some (parse memory text_memory error_memory entry_memory source report) ≡ true
  unfolding parse
  parse-is_some memory text_memory report b =
      parse_tokens-is_some _ (lex-Lexed memory text_memory error_memory report source.bytes b)
