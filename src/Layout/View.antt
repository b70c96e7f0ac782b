-- ===== src/Layout/View.antt =====
-- struct leme_view as the layouts see it: a pointer, 0 for NULL.
use leme.Base.{ℕ}

abbrev pub View : Type 0
View = ℕ

abbrev pub null : View
null = 0
