-- ===== src/Scfg.antt =====
-- src/config/scfg.h, scfg_internal.h and scfg_lex.c: the tokens of a configuration file. Text is a list
-- of bytes; the lexer's place is its index with the bytes from there on. `memory` says at each token,
-- and `error_memory` at each error, whether the allocator gives an entry, and `text_memory` at each word,
-- by its place, which capacities of its buffer `realloc` gives.
pub mod Advance
pub mod Total
pub mod Quoted
pub mod Words
pub mod Source
pub mod Parse
use leme.Base.{
  ℕ, zero, suc, ◌+◌, ◌-◌, ◌*◌, ◌==◌, ◌&&◌, ◌||◌, not, ltb, leb, if◌then◌else◌, Bool, true, false,
  Option, none, some, List, [], ◌∷◌, ◌++◌, length,
}

abbrev pub max_errors : ℕ
max_errors = 20

abbrev pub blank : ℕ
blank = 32

abbrev pub tab : ℕ
tab = 9

abbrev pub line_feed : ℕ
line_feed = 10

abbrev pub double_quote : ℕ
double_quote = 34

abbrev pub number_sign : ℕ
number_sign = 35

abbrev pub single_quote : ℕ
single_quote = 39

abbrev pub semicolon : ℕ
semicolon = 59

abbrev pub backslash : ℕ
backslash = 92

abbrev pub brace : ℕ
brace = 123

abbrev pub closing_brace : ℕ
closing_brace = 125

pub record Span : Type 0 where
  pub offset : ℕ
  pub size : ℕ

-- The message of an error.
pub data Problem : Type 0 where
  unexpected : ℕ → Problem
  escaped_line_end unterminated_double unterminated_single : Problem
  too_deep never_closed unexpected_closing unnamed_block : Problem

pub record Fault : Type 0 where
  pub span : Span
  pub problem : Problem

-- The errors of `struct leme_scfg_result`.
pub record Report : Type 0 where
  pub errors : List Fault
  pub truncated : Bool

pub data Token : Type 0 where
  word : List ℕ → Span → Token
  opening closing newline finish : Span → Token

pub record Lexer : Type 0 where
  pub tokens : List Token
  pub report : Report

-- The bytes from the index on, and the index.
abbrev pub Place : Type 0
Place = List ℕ × ℕ

unfoldable pub error_add : (ℕ → Bool) → Report → Span → Problem → Report
error_add error_memory report span problem =
    if leb max_errors (length report.errors)
    then record report { truncated = true }
    else if error_memory (length report.errors)
    then record report {
      errors = report.errors ++ (record { span = span; problem = problem } ∷ []);
    }
    else report

unfoldable pub token_push : (ℕ → Bool) → Lexer → Token → Lexer × Bool
token_push memory lexer token =
    if memory (length lexer.tokens)
    then (record lexer { tokens = lexer.tokens ++ (token ∷ []) }, true)
    else (lexer, false)

unfoldable pub ends_comment_mark : List ℕ → Bool
ends_comment_mark [] = true
ends_comment_mark (c ∷ cs) = c == blank || c == tab || c == line_feed

unfoldable pub is_comment : ℕ → List ℕ → Bool
is_comment c cs = c == number_sign && ends_comment_mark cs

unfoldable pub skip_line : List ℕ → ℕ → Place
skip_line [] index = ([], index)
skip_line (c ∷ cs) index = if c == line_feed then (c ∷ cs, index) else skip_line cs (index + 1)

-- `struct leme_scfg_text`: the buffer of a word.
pub record Text : Type 0 where
  pub bytes : List ℕ
  pub capacity : ℕ

abbrev pub empty_text : Text
empty_text = record { bytes = []; capacity = 0 }

-- `leme_scfg_text_push`: `none` where `realloc` refuses. `grant` says which capacities it gives; those
-- that one word asks for never repeat.
unfoldable pub text_push : (ℕ → Bool) → Text → ℕ → Option Text
text_push grant text c =
    let wider = if text.capacity == 0 then 32 else text.capacity * 2 in
    let bytes = text.bytes ++ (c ∷ []) in
    if ltb text.capacity (length text.bytes + 1)
    then (if grant wider then some (record { bytes = bytes; capacity = wider }) else none)
    else some (record text { bytes = bytes })

-- How a word ended: with its text, with an error at a place, or where its buffer could not grow.
pub data Ending : Type 0 where
  complete : Place → Text → Ending
  broken : Place → Span → Problem → Ending
  refused : Ending

unfoldable pub pushing : Option Text → (Text → Ending) → Ending
pushing none next = refused
pushing (some text) next = next text

-- A token's value is a C string, which ends at the first NUL.
unfoldable pub c_string : List ℕ → List ℕ
c_string [] = []
c_string (c ∷ cs) = if c == 0 then [] else c ∷ c_string cs

unfoldable pub ends_word : ℕ → List ℕ → Bool
ends_word c cs = c == blank || c == tab || c == line_feed || c == semicolon || is_comment c cs

unfoldable pub breaks_word : ℕ → Bool
breaks_word c = c == double_quote || c == single_quote || c == brace || c == closing_brace

-- The loop of `leme_scfg_lex_atom`.
unfoldable pub atom_from : (ℕ → Bool) → List ℕ → ℕ → Text → Ending
atom_from grant [] index text = complete ([], index) text
atom_from grant (c ∷ []) index text =
    if ends_word c []
    then complete (c ∷ [], index) text
    else if breaks_word c
    then broken (c ∷ [], index) (record { offset = index; size = 1 }) (unexpected c)
    else if c == backslash
    then broken ([], index + 1) (record { offset = index; size = 1 }) escaped_line_end
    else pushing (text_push grant text c) (λ t. complete ([], index + 1) t)
atom_from grant (c ∷ d ∷ ds) index text =
    let plain = pushing (text_push grant text c) (λ t. atom_from grant (d ∷ ds) (index + 1) t) in
    let escaped = pushing (text_push grant text d) (λ t. atom_from grant ds (index + 2) t) in
    if ends_word c (d ∷ ds)
    then complete (c ∷ d ∷ ds, index) text
    else if breaks_word c
    then broken (c ∷ d ∷ ds, index) (record { offset = index; size = 1 }) (unexpected c)
    else if not (c == backslash)
    then plain
    else if d == line_feed
    then broken (d ∷ ds, index + 1) (record { offset = index; size = 1 }) escaped_line_end
    else escaped

unfoldable pub unterminated : ℕ → Problem
unterminated quote = if quote == double_quote then unterminated_double else unterminated_single

-- The loop of `leme_scfg_lex_quoted` behind a quote at `start`.
unfoldable pub quoted_from : (ℕ → Bool) → ℕ → ℕ → List ℕ → ℕ → Text → Ending
quoted_from grant quote start [] index text =
    broken ([], index) (record { offset = start; size = 1 }) (unterminated quote)
quoted_from grant quote start (c ∷ []) index text =
    let span : Span = record { offset = start; size = 1 } in
    if c == line_feed
    then broken (c ∷ [], index) span (unterminated quote)
    else if c == quote
    then complete ([], index + 1) text
    else if c == backslash && quote == double_quote
    then broken ([], index + 1) span (unterminated quote)
    else pushing (text_push grant text c) (λ t. broken ([], index + 1) span (unterminated quote))
quoted_from grant quote start (c ∷ d ∷ ds) index text =
    let plain =
      pushing (text_push grant text c)
        (λ t. quoted_from grant quote start (d ∷ ds) (index + 1) t) in
    let escaped =
      pushing (text_push grant text d) (λ t. quoted_from grant quote start ds (index + 2) t) in
    let span : Span = record { offset = start; size = 1 } in
    if c == line_feed
    then broken (c ∷ d ∷ ds, index) span (unterminated quote)
    else if c == quote
    then complete (d ∷ ds, index + 1) text
    else if not (c == backslash && quote == double_quote)
    then plain
    else if d == line_feed
    then broken (d ∷ ds, index + 1) span (unterminated quote)
    else escaped

-- What a turn of the main loop leaves; `going` is false where memory ran out.
pub record Turn : Type 0 where
  pub place : Place
  pub lexer : Lexer
  pub going : Bool

unfoldable pub pushed : Place → Lexer × Bool → Turn
pushed place (lexer, done) = record { place = place; lexer = lexer; going = done }

unfoldable pub skipped : Place → Lexer → Turn
skipped place lexer = record { place = place; lexer = lexer; going = true }

-- Memory ran out in a word; the place is not read again.
unfoldable pub given_up : Lexer → ℕ → Turn
given_up lexer index = record { place = ([], index); lexer = lexer; going = false }

-- `leme_scfg_emit_word` behind the NUL that it pushes.
unfoldable pub emit_word : (ℕ → Bool) → Lexer → Place → Span → Option Text → Turn
emit_word memory lexer (rest, index) span none = given_up lexer index
emit_word memory lexer place span (some text) =
    pushed place (token_push memory lexer (word (c_string text.bytes) span))

unfoldable pub end_word : (ℕ → Bool) → (ℕ → ℕ → Bool) → (ℕ → Bool) → Lexer → ℕ → Ending → Turn
end_word memory text_memory error_memory lexer start (complete (rest, index) text) =
    emit_word memory lexer (rest, index) (record { offset = start; size = index - start })
      (text_push (text_memory start) text 0)
end_word memory text_memory error_memory lexer start (broken (rest, index) span problem) =
    skipped (skip_line rest index)
      (record lexer { report = error_add error_memory (lexer.report) span problem })
end_word memory text_memory error_memory lexer start refused = given_up lexer start

unfoldable pub mark : ℕ → Span → Token
mark c span =
    if c == line_feed || c == semicolon
    then newline span
    else if c == brace
    then opening span
    else closing span

unfoldable pub turn : (ℕ → Bool) → (ℕ → ℕ → Bool) → (ℕ → Bool) → Lexer → ℕ → List ℕ → ℕ → Turn
turn memory text_memory error_memory lexer c cs index =
    if c == blank || c == tab
    then skipped (cs, index + 1) lexer
    else if is_comment c cs
    then skipped (skip_line (c ∷ cs) index) lexer
    else if c == line_feed || c == semicolon || c == brace || c == closing_brace
    then pushed (cs, index + 1)
        (token_push memory lexer (mark c (record { offset = index; size = 1 })))
    else if c == double_quote || c == single_quote
    then end_word memory text_memory error_memory lexer index
        (quoted_from (text_memory index) c index cs (index + 1) empty_text)
    else end_word memory text_memory error_memory lexer index
        (atom_from (text_memory index) (c ∷ cs) index empty_text)

unfoldable pub no_errors : List Fault → Bool
no_errors [] = true
no_errors (f ∷ fs) = false

unfoldable pub finished : Lexer × Bool → Lexer × Bool
finished (lexer, done) = (lexer, done && no_errors lexer.report.errors)

-- The main loop on fuel; `none` when it runs out.
unfoldable pub lex_from :
    (ℕ → Bool) → (ℕ → ℕ → Bool) → (ℕ → Bool) → ℕ → Lexer → Place → Option (Lexer × Bool)
lex_from memory text_memory error_memory n lexer ([], index) =
    some (finished (token_push memory lexer (finish (record { offset = index; size = 0 }))))
lex_from memory text_memory error_memory zero lexer (c ∷ cs, index) = none
lex_from memory text_memory error_memory (suc n) lexer (c ∷ cs, index) =
    let t = turn memory text_memory error_memory lexer c cs index in
    let rest = lex_from memory text_memory error_memory n t.lexer t.place in
    if t.going then rest else some (t.lexer, false)

-- `leme_scfg_lex` with no tokens before.
unfoldable pub lex :
    (ℕ → Bool) → (ℕ → ℕ → Bool) → (ℕ → Bool) → Report → List ℕ → Option (Lexer × Bool)
lex memory text_memory error_memory report source =
    lex_from memory text_memory error_memory (length source)
      (record { tokens = []; report = report }) (source, 0)
