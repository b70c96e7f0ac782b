-- ===== src/Scfg/Parse.antt =====
-- src/config/scfg_parse.c: directives and blocks from the tokens. The parser's place is what it has passed,
-- the latest first, and what is ahead. `entry_memory` says for a word, by its place among the tokens, and
-- for each of the allocations that are made for it in their order, whether the allocator gives it.
pub mod Ends
use leme.Base.{
  ℕ, zero, suc, ◌+◌, ◌-◌, ◌≤◌, ◌==◌, ◌&&◌, ◌||◌, not, ltb, leb, if◌then◌else◌, Bool, true, false,
  Option, none, some, List, [], ◌∷◌, ◌++◌, length, is_some, ◌≡◌, refl, arith, if_cases,
}
use leme.Scfg.{
  Span, Problem, Report, Token, Lexer, lex, word, opening, closing, newline, finish, error_add,
  no_errors, too_deep, never_closed, unexpected_closing, unnamed_block,
}
use leme.Scfg.Source.{Source, locate}

abbrev pub max_depth : ℕ
max_depth = 64

-- The name is NULL where there was no memory for it.
mutual
  pub data Directive : Type 0 where
    directive : Option (List ℕ) → Span → List (List ℕ × Span) → ℕ → Span → Bool → Block → Directive

  pub data Block : Type 0 where
    empty_block : Block
    then_directive : Directive → Block → Block

pub record Parser : Type 0 where
  pub passed : List Token
  pub ahead : List Token
  pub report : Report

unfoldable pub span_of : Token → Span
span_of (word text span) = span
span_of (opening span) = span
span_of (closing span) = span
span_of (newline span) = span
span_of (finish span) = span

-- `leme_scfg_advance` over a token that is not the end.
unfoldable pub over : Parser → Token → List Token → Parser
over p token rest = record p { passed = token ∷ p.passed; ahead = rest }

-- `leme_scfg_skip_block` at a depth.
unfoldable pub skip_block : Parser → ℕ → List Token → Parser
skip_block p zero ahead = record p { ahead = ahead }
skip_block p (suc depth) [] = record p { ahead = [] }
skip_block p (suc depth) (finish span ∷ ts) = record p { ahead = finish span ∷ ts }
skip_block p (suc depth) (opening span ∷ ts) =
    skip_block (over p (opening span) ts) (suc (suc depth)) ts
skip_block p (suc depth) (closing span ∷ ts) = skip_block (over p (closing span) ts) depth ts
skip_block p (suc depth) (newline span ∷ ts) = skip_block (over p (newline span) ts) (suc depth) ts
skip_block p (suc depth) (word text span ∷ ts) =
    skip_block (over p (word text span) ts) (suc depth) ts

-- `leme_scfg_directive_end`, from what was passed.
unfoldable pub directive_end : List Token → ℕ
directive_end [] = 0
directive_end (newline span ∷ ts) = directive_end ts
directive_end (word text span ∷ ts) = span.offset + span.size
directive_end (opening span ∷ ts) = span.offset + span.size
directive_end (closing span ∷ ts) = span.offset + span.size
directive_end (finish span ∷ ts) = span.offset + span.size

-- `leme_scfg_param_push`: the value, the array of the values, and the array of their spans.
unfoldable pub param_memory : (ℕ → Bool) → Bool
param_memory grants = grants 0 && (grants 1 && grants 2)

-- The words that follow a directive's name, as far as there is memory; the flag says whether there was.
unfoldable pub take_params :
    (ℕ → ℕ → Bool) → Parser → List Token → Parser × List (List ℕ × Span) × Bool
take_params entry_memory p [] = (record p { ahead = [] }, [], true)
take_params entry_memory p (word text span ∷ ts) =
    let (p', params, going) = take_params entry_memory (over p (word text span) ts) ts in
    if param_memory (entry_memory (length p.passed))
    then (p', (text, span) ∷ params, going)
    else (record p { ahead = word text span ∷ ts }, [], false)
take_params entry_memory p (opening span ∷ ts) = (record p { ahead = opening span ∷ ts }, [], true)
take_params entry_memory p (closing span ∷ ts) = (record p { ahead = closing span ∷ ts }, [], true)
take_params entry_memory p (newline span ∷ ts) = (record p { ahead = newline span ∷ ts }, [], true)
take_params entry_memory p (finish span ∷ ts) = (record p { ahead = finish span ∷ ts }, [], true)

-- `going` is false where memory ran out.
pub record Outcome : Type 0 where
  pub parser : Parser
  pub block : Block
  pub closed : Bool
  pub going : Bool

abbrev pub no_span : Span
no_span = record { offset = 0; size = 0 }

-- The directive that stands in the block where memory ran out.
unfoldable pub cut_short : Parser → Directive → Outcome
cut_short p made = record {
  parser = p;
  block = then_directive made empty_block;
  closed = false;
  going = false;
}

-- Behind a directive's words: a block that may be entered, or what stands there instead.
unfoldable pub enters : ℕ → List Token → Bool
enters depth [] = false
enters depth (opening span ∷ ts) = not (leb max_depth (depth + 1))
enters depth (word text span ∷ ts) = false
enters depth (closing span ∷ ts) = false
enters depth (newline span ∷ ts) = false
enters depth (finish span ∷ ts) = false

unfoldable pub has_block : List Token → Bool
has_block [] = false
has_block (opening span ∷ ts) = true
has_block (word text span ∷ ts) = false
has_block (closing span ∷ ts) = false
has_block (newline span ∷ ts) = false
has_block (finish span ∷ ts) = false

unfoldable pub next_span : List Token → Span
next_span [] = record { offset = 0; size = 0 }
next_span (t ∷ ts) = span_of t

-- Over the next token.
unfoldable pub advance : Parser → List Token → Parser
advance p [] = p
advance p (t ∷ ts) = over p t ts

unfoldable pub directive_span : Span → ℕ → Span
directive_span name last = record {
  offset = name.offset;
  size = if ltb name.offset last then last - name.offset else 0;
}

module _ (entry_memory : ℕ → ℕ → Bool) where
  -- The allocations of a directive: its entry in the block, its name, and its parameters.
  unfoldable pub out_of_memory :
      Parser
      → List ℕ
      → Span
      → List Token
      → Parser
      → List (List ℕ × Span)
      → Bool
      → ℕ
      → Option Outcome
  out_of_memory p text span ts named params going line =
      let here : Parser = record p { ahead = word text span ∷ ts } in
      if not (entry_memory (length p.passed) 0)
      then some (record { parser = here; block = empty_block; closed = false; going = false })
      else if not (entry_memory (length p.passed) 1)
      then some (cut_short here (directive none no_span [] 0 no_span false empty_block))
      else if not going
      then some (cut_short named (directive (some text) span params line no_span false empty_block))
      else none

module _ (error_memory : ℕ → Bool) where
  unfoldable pub add_error : Parser → Span → Problem → Parser
  add_error p span problem = record p { report = error_add error_memory (p.report) span problem }

  -- A block that is too deep is skipped, and a line's end is passed.
  unfoldable pub leave : Parser → List Token → Parser
  leave p [] = p
  leave p (opening span ∷ ts) = skip_block (add_error (over p (opening span) ts) span too_deep) 1 ts
  leave p (newline span ∷ ts) = over p (newline span) ts
  leave p (word text span ∷ ts) = p
  leave p (closing span ∷ ts) = p
  leave p (finish span ∷ ts) = p

  unfoldable pub closed_or_error : Span → Outcome → Parser
  closed_or_error span o = if o.closed then o.parser else add_error o.parser span never_closed

  module _ (entry_memory : ℕ → ℕ → Bool) (source : Source) where
    -- `leme_scfg_parse_block` and `leme_scfg_parse_directive` on fuel.
    unfoldable pub parse_from : ℕ → Parser → ℕ → List Token → Option Outcome
    parse_from zero p depth ts = none
    parse_from (suc n) p depth [] =
        some (record { parser = p; block = empty_block; closed = false; going = true })
    parse_from (suc n) p depth (finish span ∷ ts) =
        some (record { parser = p; block = empty_block; closed = false; going = true })
    parse_from (suc n) p depth (newline span ∷ ts) =
        parse_from n (over p (newline span) ts) depth ts
    parse_from (suc n) p depth (closing span ∷ ts) =
        let rest =
          parse_from n (over (add_error p span unexpected_closing) (closing span) ts) depth ts in
        if ltb 0 depth
        then some (record {
          parser = over p (closing span) ts;
          block = empty_block;
          closed = true;
          going = true;
        })
        else rest
    parse_from (suc n) p depth (opening span ∷ ts) =
        let p' = skip_block (over (add_error p span unnamed_block) (opening span) ts) 1 ts in
        parse_from n p' depth p'.ahead
    parse_from (suc n) p depth (word text span ∷ ts) =
        let (named, params, going) = take_params entry_memory (over p (word text span) ts) ts in
        let inner = advance named named.ahead in
        let entered = parse_from n inner (depth + 1) inner.ahead in
        let left : Option Outcome = some (record {
          parser = leave named named.ahead;
          block = empty_block;
          closed = true;
          going = true;
        }) in
        let line = (locate source span).0 in
        elim (out_of_memory entry_memory p text span ts named params going line) [
          | some o ↦ some o
          | none ↦ elim (if enters depth named.ahead then entered else left) [
            | none ↦ none
            | some child ↦
                let behind = closed_or_error (next_span named.ahead) child in
                let made =
                  directive (some text) span params line
                    (directive_span span (directive_end behind.passed)) (has_block named.ahead)
                    child.block in
                let later : Option Outcome = elim (parse_from n behind depth behind.ahead) [
                  | none ↦ none
                  | some rest ↦ some (record rest { block = then_directive made rest.block })
                ] in
                if child.going
                then later
                else some (
                    cut_short child.parser
                      (directive (some text) span params line no_span true child.block))
          ]
        ]

unfoldable pub ends_at : List Token → Bool
ends_at [] = false
ends_at (finish span ∷ []) = true
ends_at (t ∷ ts) = ends_at ts

unfoldable pub parsed : Option Outcome → Option (Report × Block × Bool)
parsed none = none
parsed (some o) = some (o.parser.report, o.block, o.going && no_errors o.parser.report.errors)

unfoldable pub parse_tokens :
    (ℕ → Bool) → (ℕ → ℕ → Bool) → Source → Option (Lexer × Bool) → Option (Report × Block × Bool)
parse_tokens error_memory entry_memory source none = none
parse_tokens error_memory entry_memory source (some (lexer, done)) =
    let start : Parser = record { passed = []; ahead = lexer.tokens; report = lexer.report } in
    if ends_at lexer.tokens
    then parsed
        (parse_from error_memory entry_memory source (length lexer.tokens + 1) start 0 lexer.tokens)
    else some (lexer.report, empty_block, false)

-- `leme_scfg_parse`: the errors, the top block, and the result.
unfoldable pub parse :
    (ℕ → Bool)
    → (ℕ → ℕ → Bool)
    → (ℕ → Bool)
    → (ℕ → ℕ → Bool)
    → Source
    → Report
    → Option (Report × Block × Bool)
parse memory text_memory error_memory entry_memory source report =
    parse_tokens error_memory entry_memory source
      (lex memory text_memory error_memory report source.bytes)
