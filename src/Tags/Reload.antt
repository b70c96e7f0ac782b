-- ===== src/Tags/Reload.antt =====
-- src/workspace/tag.c: the tags take the settings of a configuration that was read again.
pub mod Kept
use leme.Base.{
  ℕ, zero, suc, ◌+◌, ◌==◌, ◌&&◌, if◌then◌else◌, Bool, true, false, Option, none, some, List,
}
use leme.Base.Int.{ℤ, eqb_ℤ}
use leme.Base.Floats.{Floats}
use leme.Layout.Drop.{DropMode, simple, edges}
use leme.Layout.Kinds.{same_kind, Alloc}
use leme.Tags.{Tag, TagSettings, apply_settings}
use leme.Tags.World.{World, edit_tag}
use leme.Tags.Arranged.{change_kind}

unfoldable pub same_mode : DropMode → DropMode → Bool
same_mode simple simple = true
same_mode simple edges = false
same_mode edges simple = false
same_mode edges edges = true

unfoldable pub same_flag : Bool → Bool → Bool
same_flag true true = true
same_flag true false = false
same_flag false true = false
same_flag false false = true

module _ (R : Floats) where
  open R use {F, eq, one_half}

  unfoldable pub settings_equal : TagSettings F → TagSettings F → Bool
  settings_equal left right =
      same_kind left.layout right.layout
      && same_mode left.drop_mode right.drop_mode
      && left.nmaster == right.nmaster
      && eqb_ℤ left.collapse_width right.collapse_width
      && same_flag left.has_gap right.has_gap
      && eqb_ℤ left.gap right.gap
      && eq left.mfact right.mfact
      && eq left.split_ratio right.split_ratio

  unfoldable pub is_same : Option (ℕ → TagSettings F) → TagSettings F → ℕ → Bool
  is_same none settings id = false
  is_same (some previous) settings id = settings_equal (previous id) settings

  -- One tag: `memory` is for the array of its tiled views, `allocs` for the nodes of a new tree.
  unfoldable pub reload_tag :
      Bool
      → List Alloc
      → World F
      → Option (ℕ → TagSettings F)
      → (ℕ → TagSettings F)
      → ℕ
      → Tag F
      → Tag F
  reload_tag memory allocs w previous next id tag =
      let settings = next id in
      let kept =
        if same_kind tag.layout.kind settings.layout
        then tag
        else (change_kind one_half memory allocs w settings.layout tag).0 in
      if is_same previous settings id then tag else apply_settings settings kept

  -- The loop from an id, for the rounds left.
  unfoldable pub reload_from :
      (ℕ → Bool)
      → (ℕ → List Alloc)
      → Option (ℕ → TagSettings F)
      → (ℕ → TagSettings F)
      → ℕ
      → ℕ
      → ℕ
      → World F
      → World F
  reload_from memory allocs previous next t zero id w = w
  reload_from memory allocs previous next t (suc n) id w =
      reload_from memory allocs previous next t n (id + 1)
        (edit_tag w t id (reload_tag (memory id) (allocs id) w previous next id))

  -- `leme_tags_apply_settings`
  unfoldable pub reload :
      (ℕ → Bool)
      → (ℕ → List Alloc)
      → Option (ℕ → TagSettings F)
      → (ℕ → TagSettings F)
      → ℕ
      → World F
      → World F
  reload memory allocs previous next t w =
      reload_from memory allocs previous next t (w.sets t).max_tags 1 w
