-- ===== src/Scfg/Source.antt =====
-- src/config/scfg_source.c: the lines of a file. Line and column are not cut to an `int`.
pub mod Place
use leme.Base.{
  ℕ, zero, suc, ◌+◌, ◌-◌, ◌/◌, ◌≤◌, ◌<◌, ◌==◌, ◌&&◌, ◌||◌, not, ltb, leb, if◌then◌else◌, Bool, true,
  false, Option, none, some, List, [], ◌∷◌, ◌++◌, length, take, drop, ◌≡◌, ◌⊎◌, inl, inr, refl, sym,
  subst, ap, ◌∙◌, arith, if_cases, All, Bool-cases,
}
use leme.Scfg.{Span, line_feed}

pub record Source : Type 0 where
  pub bytes : List ℕ
  pub line_offsets : List ℕ

-- The offsets behind the line feeds, from an index.
unfoldable pub starts_from : ℕ → List ℕ → List ℕ
starts_from index [] = []
starts_from index (c ∷ cs) =
    let rest = starts_from (index + 1) cs in if c == line_feed then (index + 1) ∷ rest else rest

-- `leme_scfg_source_index` on loaded bytes.
unfoldable pub index_source : Bool → List ℕ → Option Source
index_source memory bytes =
    if memory then some (record { bytes = bytes; line_offsets = 0 ∷ starts_from 0 bytes }) else none

-- An entry of the array.
unfoldable pub entry : List ℕ → ℕ → ℕ
entry [] n = 0
entry (x ∷ xs) zero = x
entry (x ∷ xs) (suc n) = entry xs n

-- The loop of `leme_scfg_source_locate`.
unfoldable pub search_from : List ℕ → ℕ → ℕ → ℕ → ℕ → ℕ
search_from offsets offset zero low high = low
search_from offsets offset (suc n) low high =
    let middle = low + (high - low) / 2 in
    let above = search_from offsets offset n middle high in
    let below = search_from offsets offset n low middle in
    if not (ltb (low + 1) high)
    then low
    else if leb (entry offsets middle) offset
    then above
    else below

unfoldable pub search : Source → ℕ → ℕ
search source offset =
    search_from source.line_offsets offset (length source.line_offsets) 0
      (length source.line_offsets)

-- The line and the column.
unfoldable pub locate : Source → Span → ℕ × ℕ
locate source span =
    let low = search source span.offset in
    (low + 1, span.offset - entry source.line_offsets low + 1)

unfoldable pub line_end : List ℕ → List ℕ
line_end [] = []
line_end (c ∷ cs) = if c == line_feed then [] else c ∷ line_end cs

unfoldable pub line_text : Source → ℕ → Option (List ℕ)
line_text source line =
    if line == 0 || ltb (length source.line_offsets) line
    then none
    else some (line_end (drop (entry source.line_offsets (line - 1)) source.bytes))
