-- ===== src/Ipc/Json/Escape.antt =====
-- src/ipc/json.c: `leme_json_raw_string`. What a reader of JSON takes the bytes between the quotes
-- to be.
use mathlib.Core.List.{append_assoc, append-nil}
use leme.Base.{
  ℕ, ◌+◌, ◌*◌, ◌/◌, ◌%◌, ◌≤◌, ◌<◌, ◌==◌, ==→eq, ltb, Bool, true, false, [], ◌∷◌, ◌++◌, ◌≡◌, ◌≢◌,
  ◌⊎◌, sym, ap, subst, ◌∙◌, inl, inr, arith, Bool-cases, if_cases, ltb→lt, ltb→le,
}
use leme.Ipc.Request.{Bytes}
use leme.Ipc.Json.{Json, contents, hex_digit, escape, escape_all, append, raw_string}
use leme.Ipc.Json.Grow.{IsValid, Appended, append-Appended, append_failed}

-- RFC 8259: the byte behind a backslash, and what the pair stands for.
pub data Short : ℕ → ℕ → Type 0 where
  quotation_mark : Short 34 34
  reverse_solidus : Short 92 92
  backspace : Short b'b' 8
  form_feed : Short b'f' 12
  line_feed : Short b'n' 10
  carriage_return : Short b'r' 13
  tab : Short b't' 9

pub data Hex : ℕ → ℕ → Type 0 where
  digit : (d : ℕ) → d < 10 → Hex (d + 48) d
  letter : (d : ℕ) → 10 ≤ d → d < 16 → Hex (d + 87) d

-- A code point outside the surrogates, below 2 ^ 16, and its bytes in UTF-8.
pub data Utf8 : ℕ → Bytes → Type 0 where
  one_byte : (p : ℕ) → p < 128 → Utf8 p (p ∷ [])
  two_bytes : (p : ℕ) → 128 ≤ p → p < 2048 → Utf8 p ((192 + p / 64) ∷ (128 + p % 64) ∷ [])
  three_bytes :
      (p : ℕ)
      → 2048 ≤ p
      → p < 65536
      → (p < 55296) ⊎ (57344 ≤ p)
      → Utf8 p ((224 + p / 4096) ∷ (128 + p / 64 % 64) ∷ (128 + p % 64) ∷ [])

-- The bytes between two quotes, and the text in UTF-8 that they encode. An unescaped byte stands for
-- itself, \uXXXX for the bytes of its code point; two such escapes that make a surrogate pair are left out.
pub data Encodes : Bytes → Bytes → Type 0 where
  empty : Encodes [] []
  unescaped :
      (c : ℕ) (body text : Bytes)
      → 32 ≤ c
      → c ≢ 34
      → c ≢ 92
      → Encodes body text
      → Encodes (c ∷ body) (c ∷ text)
  short :
      (k c : ℕ) (body text : Bytes)
      → Short k c
      → Encodes body text
      → Encodes (92 ∷ k ∷ body) (c ∷ text)
  unicode :
      (d3 d2 d1 d0 v3 v2 v1 v0 : ℕ) (bytes body text : Bytes)
      → Hex d3 v3
      → Hex d2 v2
      → Hex d1 v1
      → Hex d0 v0
      → Utf8 (v3 * 4096 + v2 * 256 + v1 * 16 + v0) bytes
      → Encodes body text
      → Encodes (92 ∷ b'u' ∷ d3 ∷ d2 ∷ d1 ∷ d0 ∷ body) (bytes ++ text)

hex_digit-Hex : (d : ℕ) → d < 16 → Hex (hex_digit d) d
unfolding hex_digit
hex_digit-Hex d h =
    if_cases (λ k. Hex k d) (ltb d 10) _ _ (λ e. digit d (ltb→lt d 10 e))
      (λ e. letter d (ltb→le d 10 e) h)

-- The escapes of the bytes in a row.
escapes : Bytes → Bytes
escapes [] = []
escapes (c ∷ cs) = escape c ++ escapes cs

two_digits : (c : ℕ) → 0 * 4096 + 0 * 256 + c / 16 * 16 + c % 16 ≡ c
two_digits c = omega arith

control :
    (c : ℕ) (body text : Bytes)
    → c < 32
    → Encodes body text
    → Encodes (92 ∷ b'u' ∷ b'0' ∷ b'0' ∷ hex_digit (c / 16) ∷ hex_digit (c % 16) ∷ body) (c ∷ text)
control c body text h s =
    unicode b'0' b'0' _ _ 0 0 (c / 16) (c % 16) (c ∷ []) body text (digit 0 (omega arith))
      (digit 0 (omega arith)) (hex_digit-Hex (c / 16) (omega arith))
      (hex_digit-Hex (c % 16) (omega arith))
      (subst (λ d. Utf8 d (c ∷ [])) (sym (two_digits c)) (one_byte c (omega arith))) s

differs : (c d : ℕ) → c == d ≡ false → c ≢ d
differs c d h e = absurd (ground arith)

escape-Encodes :
    (c : ℕ) (body text : Bytes) → Encodes body text → Encodes (escape c ++ body) (c ∷ text)
unfolding escape
escape-Encodes c body text s =
    let P : Bytes → Type 0 = λ x. Encodes (x ++ body) (c ∷ text) in
    if_cases P (c == 34) _ _ (λ e. rw (==→eq c 34 e) (short 34 34 body text quotation_mark s))
      (λ n34.
        if_cases P (c == 92) _ _ (λ e. rw (==→eq c 92 e) (short 92 92 body text reverse_solidus s))
          (λ n92.
            if_cases P (c == 10) _ _ (λ e. rw (==→eq c 10 e) (short b'n' 10 body text line_feed s))
              (λ n10.
                if_cases P (c == 9) _ _ (λ e. rw (==→eq c 9 e) (short b't' 9 body text tab s))
                  (λ n9.
                    if_cases P (c == 13) _ _
                      (λ e. rw (==→eq c 13 e) (short b'r' 13 body text carriage_return s))
                      (λ n13.
                        if_cases P (c == 8) _ _
                          (λ e. rw (==→eq c 8 e) (short b'b' 8 body text backspace s))
                          (λ n8.
                            if_cases P (c == 12) _ _
                              (λ e. rw (==→eq c 12 e) (short b'f' 12 body text form_feed s))
                              (λ n12.
                                if_cases P (ltb c 32) _ _
                                  (λ e. control c body text (ltb→lt c 32 e) s)
                                  (λ e.
                                    unescaped c body text (ltb→le c 32 e) (differs c 34 n34)
                                      (differs c 92 n92) s))))))))

escapes-Encodes : (text : Bytes) → Encodes (escapes text) text
unfolding escapes
escapes-Encodes [] = empty
escapes-Encodes (c ∷ cs) = escape-Encodes c (escapes cs) cs (escapes-Encodes cs)

true_ne_false : true ≢ false
true_ne_false h = absurd (ground (arith, h))

module _ (grant : ℕ → Bool) where
  -- The text was appended, unless the writer has failed; a failure stays.
  abbrev Wrote : Json → Bytes → Json → Type 0
  Wrote json text after =
      IsValid after
      × (after.failed ≡ false → (json.failed ≡ false) × (contents after ≡ contents json ++ text))

  still_failed :
      (json : Json) (text : Bytes)
      → json.failed ≡ true
      → (append grant json text).failed ≡ false
      → ⊥
  still_failed json text g e =
      true_ne_false (sym g ∙ ap (λ j. j.failed) (sym (append_failed grant json text g)) ∙ e)

  append-Wrote :
      (json : Json) (text : Bytes) → IsValid json → Wrote json text (append grant json text)
  append-Wrote json text v =
      ((append-Appended grant json text v).0, succeeded (append-Appended grant json text v).1)
    where
      succeeded :
          Appended grant json text (append grant json text)
          → (append grant json text).failed ≡ false
          → (json.failed ≡ false) × (contents (append grant json text) ≡ contents json ++ text)
      succeeded (inl (f, same)) e = absurd (ground (arith, e, f))
      succeeded (inr (f, same)) e = elim (Bool-cases json.failed) [
        | inr g ↦ (g, same)
        | inl g ↦ absurd (still_failed json text g e)
      ]

  Wrote-trans : (a b c : Json) (t u : Bytes) → Wrote a t b → Wrote b u c → Wrote a (t ++ u) c
  Wrote-trans a b c t u (va, f) (vb, g) = (
    vb,
    λ e. ((f (g e).0).0, (g e).1 ∙ ap (λ x. x ++ u) (f (g e).0).1 ∙ append_assoc (contents a) t u),
  )

  escape_all-Wrote :
      (value : Bytes) (json : Json)
      → IsValid json
      → Wrote json (escapes value) (escape_all grant json value)
  unfolding escape_all escapes
  escape_all-Wrote [] json v = (v, λ e. (e, sym (append-nil (contents json))))
  escape_all-Wrote (c ∷ value) json v =
      Wrote-trans json (append grant json (escape c))
        (escape_all grant (append grant json (escape c)) value) (escape c) (escapes value)
        (append-Wrote json (escape c) v)
        (escape_all-Wrote value (append grant json (escape c)) (append-Wrote json (escape c) v).0)

  raw_string-Wrote :
      (json : Json) (value : Bytes)
      → IsValid json
      → Wrote json ((34 ∷ []) ++ (escapes value ++ (34 ∷ []))) (raw_string grant json value)
  unfolding raw_string
  raw_string-Wrote json value v =
      let opened = append grant json (34 ∷ []) in
      let middle = escape_all grant opened value in
      let open_wrote = append-Wrote json (34 ∷ []) v in
      let middle_wrote = escape_all-Wrote value opened open_wrote.0 in
      Wrote-trans json opened (append grant middle (34 ∷ [])) (34 ∷ []) (escapes value ++ (34 ∷ []))
        open_wrote
        (Wrote-trans opened middle (append grant middle (34 ∷ [])) (escapes value) (34 ∷ [])
          middle_wrote (append-Wrote middle (34 ∷ []) middle_wrote.0))

  -- Where a valid writer has not failed after writing a string, it is still valid, and what was
  -- written behind its contents is a string in quotes that stands for the value by the escapes of
  -- RFC 8259: no byte below 32, quote or backslash stands for itself, every other unescaped byte does,
  -- and an escaped code point stands for its bytes in UTF-8.
  pub raw_string-Encodes :
      (json : Json) (value : Bytes)
      → IsValid json
      → (raw_string grant json value).failed ≡ false
      → IsValid (raw_string grant json value)
        × (body : Bytes) × Encodes body value
        × (contents (raw_string grant json value)
            ≡ contents json ++ ((34 ∷ []) ++ (body ++ (34 ∷ []))))
  raw_string-Encodes json value v e =
      let wrote = raw_string-Wrote json value v in
      (wrote.0, escapes value, escapes-Encodes value, (wrote.1 e).1)
