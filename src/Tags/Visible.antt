-- ===== src/Tags/Visible.antt =====
-- src/workspace/tag.c: `leme_tags_refresh_visibility`: the calls of `leme_render_set_view_visible` in
-- their order, and what becomes of the keyboard's focus.
pub mod Owned
use leme.Base.{
  ℕ, zero, suc, ◌+◌, ◌==◌, ◌&&◌, ◌||◌, not, if◌then◌else◌, Bool, true, false, Option, none, some,
  List, [], ◌∷◌, ◌++◌, is_some,
}
use leme.Layout.View.{View, null}
use leme.Tags.{Tag, TagSet}
use leme.Tags.World.{ViewState, World, views_of, members}

-- `leme_view_focus`, or the focus is released, or neither is called.
pub data Keyboard : Type 0 where
  unchanged released : Keyboard
  focus_on : View → Keyboard

-- The first visible view is focused where nothing else is.
unfoldable pub focus_among : View → List (View × Bool) → View
focus_among focus [] = focus
focus_among focus ((v, visible) ∷ rest) =
    focus_among (if visible && focus == null then v else focus) rest

-- `has_server` says that the tags have a server, `elsewhere` that its focused output is another
-- one than theirs, and `exclusive` that a layer surface has the keyboard.
unfoldable pub keyboard : Bool → Bool → Bool → View → Keyboard
keyboard has_server elsewhere exclusive focus =
    if has_server && elsewhere
    then unchanged
    else if not (focus == null)
    then focus_on focus
    else if has_server && not exclusive
    then released
    else unchanged

module _ {F : Type 0} where
  unfoldable pub first_fullscreen : World F → List View → View
  first_fullscreen w [] = null
  first_fullscreen w (v ∷ vs) =
      if (w.views v).mapped && (w.views v).fullscreen then v else first_fullscreen w vs

  -- The focused tag, unless it is a candidate.
  unfoldable pub current : TagSet F → Option (Tag F)
  current tags = if tags.focused_is_candidate then none else tags.table tags.focused_id

  unfoldable pub fullscreen_view : World F → ℕ → View
  fullscreen_view w t = first_fullscreen w (views_of (current (w.sets t)))

  unfoldable pub wanted_focus : World F → View → Option (Tag F) → View
  wanted_focus w fullscreen none = null
  wanted_focus w fullscreen (some tag) =
      if not (tag.focused_view == null)
        && (w.views tag.focused_view).mapped
        && (fullscreen == null || tag.focused_view == fullscreen)
      then tag.focused_view
      else null

  unfoldable pub is_visible : TagSet F → View → ℕ → View → Bool
  is_visible tags fullscreen id v =
      is_some (current tags) && tags.focused_id == id && (fullscreen == null || fullscreen == v)

  -- The calls for the views of one tag.
  unfoldable pub show_views : TagSet F → View → ℕ → List View → List (View × Bool)
  show_views tags fullscreen id [] = []
  show_views tags fullscreen id (v ∷ vs) =
      (v, is_visible tags fullscreen id v) ∷ show_views tags fullscreen id vs

  -- The calls for the tags from an id, for the rounds left.
  unfoldable pub show_from : World F → ℕ → View → ℕ → ℕ → List (View × Bool)
  show_from w t fullscreen zero id = []
  show_from w t fullscreen (suc n) id =
      show_views (w.sets t) fullscreen id (members w t id) ++ show_from w t fullscreen n (id + 1)

  unfoldable pub visibility : World F → ℕ → List (View × Bool)
  visibility w t = show_from w t (fullscreen_view w t) (w.sets t).max_tags 1

  unfoldable pub focused_after : World F → ℕ → View
  focused_after w t =
      focus_among (wanted_focus w (fullscreen_view w t) (current (w.sets t))) (visibility w t)

  unfoldable pub refresh_visibility :
      Bool → Bool → Bool → World F → ℕ → List (View × Bool) × Keyboard
  refresh_visibility has_server elsewhere exclusive w t =
      (visibility w t, keyboard has_server elsewhere exclusive (focused_after w t))
