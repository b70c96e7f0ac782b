-- ===== src/Scfg/Quoted.antt =====
-- src/config/scfg_lex.c: a word in double quotes is read up to its closing quote, where its buffer grows.
use leme.Base.{
  ℕ, ◌+◌, ◌*◌, ◌==◌, ◌&&◌, ◌||◌, not, ltb, if◌then◌else◌, Bool, true, false, some, List, [], ◌∷◌,
  ◌++◌, length, ◌≡◌, refl, sym, ap, ◌∙◌, arith, if_cases, Bool-cases, inl, inr,
}
use leme.Scfg.{
  Text, text_push, pushing, c_string, complete, quoted_from, line_feed, double_quote, backslash,
}

-- A word with a backslash in front of each quote and each backslash.
unfoldable pub escaped : List ℕ → List ℕ
escaped [] = []
escaped (c ∷ cs) =
    if c == double_quote || c == backslash then backslash ∷ c ∷ escaped cs else c ∷ escaped cs

-- No line feed and no NUL.
unfoldable pub no_break : List ℕ → Bool
no_break [] = true
no_break (c ∷ cs) = not (c == line_feed) && not (c == 0) && no_break cs

pub append_assoc : {A : Type 0} (xs ys zs : List A) → (xs ++ ys) ++ zs ≡ xs ++ (ys ++ zs)
append_assoc [] ys zs = refl
append_assoc (x ∷ xs) ys zs = ap (λ l. x ∷ l) (append_assoc xs ys zs)

pub append_nil : {A : Type 0} (xs : List A) → xs ++ [] ≡ xs
append_nil [] = refl
append_nil (x ∷ xs) = ap (λ l. x ∷ l) (append_nil xs)

-- The allocator gives every capacity.
abbrev pub granted : ℕ → Bool
granted n = true

-- The buffer with a byte more, and with some more.
unfoldable pub appended : Text → ℕ → Text
appended text c = record {
  bytes = text.bytes ++ (c ∷ []);
  capacity =
      if ltb text.capacity (length text.bytes + 1)
      then (if text.capacity == 0 then 32 else text.capacity * 2)
      else text.capacity;
}

unfoldable pub appended_all : Text → List ℕ → Text
appended_all text [] = text
appended_all text (c ∷ cs) = appended_all (appended text c) cs

pub bytes-appended_all :
    (text : Text) (cs : List ℕ) → (appended_all text cs).bytes ≡ text.bytes ++ cs
unfolding appended_all appended
bytes-appended_all text [] = sym (append_nil text.bytes)
bytes-appended_all text (c ∷ cs) =
    bytes-appended_all (appended text c) cs ∙ append_assoc text.bytes (c ∷ []) cs

pub text_push-granted : (text : Text) (c : ℕ) → text_push granted text c ≡ some (appended text c)
unfolding text_push appended
text_push-granted text c = elim (Bool-cases (ltb text.capacity (length text.bytes + 1))) [
  | inl e ↦ rw e
  | inr e ↦ rw e
]

pub c_string-nul : (cs : List ℕ) → no_break cs ≡ true → c_string (cs ++ (0 ∷ [])) ≡ cs
unfolding c_string no_break
c_string-nul [] o = refl
c_string-nul (c ∷ cs) o = ground (arith, o, c_string-nul cs)

quoted_plain :
    (start c : ℕ) (ys : List ℕ) (index : ℕ) (text : Text)
    → c == line_feed ≡ false
    → c == double_quote || c == backslash ≡ false
    → quoted_from granted double_quote start (c ∷ ys) index text
      ≡ quoted_from granted double_quote start ys (index + 1) (appended text c)
unfolding quoted_from pushing
quoted_plain start c [] index text l p = ground (arith, l, p, text_push-granted text c)
quoted_plain start c (d ∷ ds) index text l p = ground (arith, l, p, text_push-granted text c)

quoted_escape :
    (start c : ℕ) (ys : List ℕ) (index : ℕ) (text : Text)
    → c == line_feed ≡ false
    → quoted_from granted double_quote start (backslash ∷ c ∷ ys) index text
      ≡ quoted_from granted double_quote start ys (index + 2) (appended text c)
unfolding quoted_from pushing
quoted_escape start c ys index text l = ground (arith, l, text_push-granted text c)

quoted_close :
    (start : ℕ) (ys : List ℕ) (index : ℕ) (text : Text)
    → quoted_from granted double_quote start (double_quote ∷ ys) index text
      ≡ complete (ys, index + 1) text
unfolding quoted_from
quoted_close start [] index text = refl
quoted_close start (d ∷ ds) index text = refl

same_end :
    {rest : List ℕ} {t : Text} {i j : ℕ} → i ≡ j → complete (rest, i) t ≡ complete (rest, j) t
same_end {rest = rest} {t = t} e = ap (λ i. complete (rest, i) t) e

-- What is in front of the closing quote is the text.
pub quoted_from-escaped :
    (start : ℕ) (cs rest : List ℕ) (index : ℕ) (text : Text)
    → no_break cs ≡ true
    → quoted_from granted double_quote start (escaped cs ++ (double_quote ∷ rest)) index text
      ≡ complete (rest, index + length (escaped cs) + 1) (appended_all text cs)
unfolding escaped no_break appended_all
quoted_from-escaped start [] rest index text o =
    quoted_close start rest index text ∙ same_end (omega arith)
quoted_from-escaped start (c ∷ cs) rest index text o =
    let l : c == line_feed ≡ false = ground (arith, o) in
    if_cases
      (λ shown.
        quoted_from granted double_quote start (shown ++ (double_quote ∷ rest)) index text
        ≡ complete (rest, index + length shown + 1) (appended_all (appended text c) cs))
      (c == double_quote || c == backslash) _ _
      (λ e.
        quoted_escape start c (escaped cs ++ (double_quote ∷ rest)) index text l
        ∙ quoted_from-escaped start cs rest (index + 2) (appended text c) (ground (arith, o))
        ∙ same_end (omega arith))
      (λ e.
        quoted_plain start c (escaped cs ++ (double_quote ∷ rest)) index text l e
        ∙ quoted_from-escaped start cs rest (index + 1) (appended text c) (ground (arith, o))
        ∙ same_end (omega arith))
