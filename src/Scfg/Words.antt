-- ===== src/Scfg/Words.antt =====
-- src/config/scfg_lex.c: words that are written in double quotes are read back.
use leme.Base.{
  ℕ, zero, suc, ◌+◌, ◌-◌, ◌≤◌, ◌&&◌, if◌then◌else◌, Bool, true, false, Option, none, some, List, [],
  ◌∷◌, ◌++◌, length, ◌≡◌, refl, sym, subst, ap, ◌∙◌, arith, length-append,
}
use leme.Scfg.{
  Span, Text, empty_text, text_push, c_string, emit_word, Token, word, opening, closing, newline,
  finish, Lexer, Place, token_push, quoted_from, pushed, skipped, end_word, turn, finished,
  no_errors, lex_from, lex, blank, double_quote, is_comment,
}
use leme.Scfg.Quoted.{
  escaped, no_break, append_assoc, granted, appended, appended_all, bytes-appended_all,
  text_push-granted, c_string-nul, quoted_from-escaped,
}

unfoldable pub quoted : List ℕ → List ℕ → List ℕ
quoted text rest = double_quote ∷ (escaped text ++ (double_quote ∷ rest))

unfoldable pub printed : List (List ℕ) → List ℕ
printed [] = []
printed (w ∷ ws) = quoted w (blank ∷ printed ws)

unfoldable pub no_break_each : List (List ℕ) → Bool
no_break_each [] = true
no_break_each (w ∷ ws) = no_break w && no_break_each ws

unfoldable pub text_of : Token → List (List ℕ) → List (List ℕ)
text_of (word text span) rest = text ∷ rest
text_of (opening span) rest = rest
text_of (closing span) rest = rest
text_of (newline span) rest = rest
text_of (finish span) rest = rest

-- The texts of the words among the tokens.
unfoldable pub texts : List Token → List (List ℕ)
texts [] = []
texts (t ∷ ts) = text_of t (texts ts)

text_of-append : (t : Token) (xs ys : List (List ℕ)) → text_of t (xs ++ ys) ≡ text_of t xs ++ ys
unfolding text_of
text_of-append (word text span) xs ys = refl
text_of-append (opening span) xs ys = refl
text_of-append (closing span) xs ys = refl
text_of-append (newline span) xs ys = refl
text_of-append (finish span) xs ys = refl

texts-append : (xs ys : List Token) → texts (xs ++ ys) ≡ texts xs ++ texts ys
unfolding texts
texts-append [] ys = refl
texts-append (x ∷ xs) ys =
    ap (text_of x) (texts-append xs ys) ∙ text_of-append x (texts xs) (texts ys)

module _ (error_memory : ℕ → Bool) where
  abbrev given : ℕ → Bool
  given n = true

  abbrev grows : ℕ → ℕ → Bool
  grows start n = true

  pushed_word :
      (place : Place) (lexer : Lexer) (token : Token)
      → pushed place (token_push given lexer token) ≡ record {
        place = place;
        lexer = record lexer { tokens = lexer.tokens ++ (token ∷ []) };
        going = true;
      }
  unfolding pushed token_push
  pushed_word place lexer token = refl

  emit_word-granted :
      (lexer : Lexer) (rest : List ℕ) (index : ℕ) (span : Span) (text : Text) (cs : List ℕ)
      → text.bytes ≡ cs
      → no_break cs ≡ true
      → emit_word given lexer (rest, index) span (text_push granted text 0) ≡ record {
        place = (rest, index);
        lexer = record lexer { tokens = lexer.tokens ++ (word cs span ∷ []) };
        going = true;
      }
  unfolding emit_word appended
  emit_word-granted lexer rest index span text cs e o =
      ap (emit_word given lexer (rest, index) span) (text_push-granted text 0)
      ∙ pushed_word _ lexer _
      ∙ ap
          (λ w. record {
            place = (rest, index);
            lexer = record lexer { tokens = lexer.tokens ++ (word w span ∷ []) };
            going = true;
          })
          (ap (λ b. c_string (b ++ (0 ∷ []))) e ∙ c_string-nul cs o)

  -- The turn on a quoted word.
  turn-quoted :
      (lexer : Lexer) (text rest : List ℕ) (index : ℕ)
      → no_break text ≡ true
      → turn given grows error_memory lexer double_quote
          (escaped text ++ (double_quote ∷ rest))
          index
        ≡ record {
          place = (rest, index + 1 + length (escaped text) + 1);
          lexer = record lexer {
            tokens =
                lexer.tokens
                ++ (word text (record {
                  offset = index;
                  size = index + 1 + length (escaped text) + 1 - index;
                })
                    ∷ []);
          };
          going = true;
        }
  unfolding turn end_word is_comment quoted_from
  turn-quoted lexer text rest index o =
      ap (end_word given grows error_memory lexer index)
        (quoted_from-escaped index text rest (index + 1) empty_text o)
      ∙ emit_word-granted lexer rest (index + 1 + length (escaped text) + 1) _
          (appended_all empty_text text) text (bytes-appended_all empty_text text) o

  turn-blank :
      (lexer : Lexer) (rest : List ℕ) (index : ℕ)
      → turn given grows error_memory lexer blank rest index
        ≡ record { place = (rest, index + 1); lexer = lexer; going = true }
  unfolding turn skipped
  turn-blank lexer rest index = refl

  abbrev pub Reads : List (List ℕ) → Option (Lexer × Bool) → Type 0
  Reads ws none = ⊥
  Reads ws (some r) = (r.1 ≡ true) × (texts r.0.tokens ≡ ws)

  lex_next :
      (n : ℕ) (lexer l : Lexer) (c : ℕ) (cs : List ℕ) (index : ℕ) (place : Place)
      → turn given grows error_memory lexer c cs index
        ≡ record { place = place; lexer = l; going = true }
      → lex_from given grows error_memory (suc n) lexer (c ∷ cs, index)
        ≡ lex_from given grows error_memory n l place
  unfolding lex_from
  lex_next n lexer l c cs index place e =
      ap {B = Option (Lexer × Bool)}
        (λ t.
          if t.going
          then lex_from given grows error_memory n t.lexer t.place
          else some (t.lexer, false))
        e

  length-printed :
      (w : List ℕ) (ws : List (List ℕ))
      → length (printed (w ∷ ws)) ≡ 3 + length (escaped w) + length (printed ws)
  unfolding printed quoted
  length-printed w ws = omega (arith, length-append (escaped w) (double_quote ∷ blank ∷ printed ws))

  lex_words :
      (ws : List (List ℕ)) (n : ℕ) (lexer : Lexer) (index : ℕ)
      → no_break_each ws ≡ true
      → no_errors lexer.report.errors ≡ true
      → length (printed ws) ≤ n
      → Reads
          (texts lexer.tokens ++ ws)
          (lex_from given grows error_memory n lexer (printed ws, index))
  unfolding printed quoted no_break_each lex_from finished token_push texts text_of
  lex_words [] n lexer index o e h = (e, texts-append lexer.tokens _)
  lex_words (w ∷ ws) zero lexer index o e h = absurd (omega (arith, length-printed w ws))
  lex_words (w ∷ ws) (suc zero) lexer index o e h = absurd (omega (arith, length-printed w ws))
  lex_words (w ∷ ws) (suc (suc n)) lexer index o e h =
      let after = index + 1 + length (escaped w) + 1 in
      let next : Lexer = record lexer {
        tokens = lexer.tokens ++ (word w (record { offset = index; size = after - index }) ∷ []);
      } in
      let line : no_break w ≡ true = ground (arith, o) in
      let rest : Reads (texts next.tokens ++ ws)
          (lex_from given grows error_memory n next (printed ws, after + 1)) =
        lex_words ws n next (after + 1) (ground (arith, o)) e
          (omega (arith, length-printed w ws)) in
      let steps =
        lex_next (suc n) lexer next double_quote (escaped w ++ (double_quote ∷ blank ∷ printed ws))
          index (blank ∷ printed ws, after) (turn-quoted lexer w (blank ∷ printed ws) index line)
        ∙ lex_next n next next blank (printed ws) after (printed ws, after + 1)
            (turn-blank next (printed ws) after) in
      subst (Reads (texts lexer.tokens ++ (w ∷ ws))) (sym steps) (
        subst (λ l. Reads l (lex_from given grows error_memory n next (printed ws, after + 1)))
          (ap (λ l. l ++ ws) (texts-append lexer.tokens _)
            ∙ append_assoc (texts lexer.tokens) (w ∷ []) ws)
          rest)

  -- Words without line feeds and NULs, printed in double quotes with a backslash in front of each quote
  -- and each backslash and with a blank behind each word, are read back: where the allocator gives the
  -- entries of the tokens and the buffers of the words, the lexer succeeds, and the texts of its word
  -- tokens are the words in their order.
  pub lex-printed :
      (ws : List (List ℕ))
      → no_break_each ws ≡ true
      → Reads ws
          (lex given grows error_memory (record { errors = []; truncated = false }) (printed ws))
  unfolding lex no_errors texts
  lex-printed ws o = lex_words ws (length (printed ws)) _ 0 o refl (omega arith)
