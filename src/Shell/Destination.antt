-- ===== src/Shell/Destination.antt =====
-- src/shell/policy.c: the tag that a new window goes to. `leme_ownership_tag` is the field `tag` of
-- the parent; `by_name` is `leme_output_by_name` with the tags of the output that it finds.
pub mod Valid
use leme.Base.{ℕ, ◌&&◌, not, leb, if◌then◌else◌, Bool, false, Option, none, some, List}

-- `struct leme_tags`, as far as it is read here.
pub record Tags : Type 0 where
  pub address : ℕ
  pub focused_id : ℕ
  pub max_tags : ℕ

-- `struct leme_view_destination`; `tags` is `none` for NULL.
pub record Destination : Type 0 where
  pub tags : Option Tags
  pub tag_id : ℕ

pub record OwnedTag : Type 0 where
  pub owner : Option Tags
  pub id : ℕ

pub record ParentView : Type 0 where
  pub mapped : Bool
  pub unmanaged : Bool
  pub tag : Option OwnedTag

-- `sets_output`, `sets_tag` and `sets_floating` are the bits of `fields`.
pub record Rules : Type 0 where
  pub sets_output : Bool
  pub sets_tag : Bool
  pub sets_floating : Bool
  pub output : List ℕ
  pub tag_id : ℕ
  pub floating : Bool

abbrev pub nowhere : Destination
nowhere = record { tags = none; tag_id = 0 }

-- The owner of the parent's tag with the tag, if the parent counts.
unfoldable pub owner_of : Option OwnedTag → Option Destination
owner_of none = none
owner_of (some t) = elim t.owner [
  | none ↦ none
  | some o ↦ some (record { tags = some o; tag_id = t.id })
]

unfoldable pub parent_destination : Option ParentView → Option Destination
parent_destination none = none
parent_destination (some p) = if p.mapped && not p.unmanaged then owner_of p.tag else none

-- `focused` is the tags of the server's focused output, `none` where there is no server or output.
unfoldable pub focused_destination : Option Tags → Destination
focused_destination none = nowhere
focused_destination (some t) = record { tags = some t; tag_id = t.focused_id }

unfoldable pub destination : Option Tags → Option ParentView → Destination
destination focused parent = elim (parent_destination parent) [
  | some d ↦ d
  | none ↦ focused_destination focused
]

unfoldable pub on_output : Option Tags → Destination → Destination
on_output none d = d
on_output (some t) d = record { tags = some t; tag_id = t.focused_id }

unfoldable pub on_tag : ℕ → Option Tags → Destination → Destination
on_tag id none d = d
on_tag id (some t) d = if leb 1 id && leb id t.max_tags then record d { tag_id = id } else d

-- The destination and the floating flag after the call, for arguments that are not NULL.
unfoldable pub apply_rules :
    (List ℕ → Option Tags) → Rules → Destination → Bool → Bool → Destination × Bool
apply_rules by_name rules d floating from_parent =
    let d' =
      if not from_parent && rules.sets_output then on_output (by_name rules.output) d else d in
    let d'' = if not from_parent && rules.sets_tag then on_tag rules.tag_id d'.tags d' else d' in
    (d'', if rules.sets_floating then rules.floating else floating)

unfoldable pub hover_focus : Option ParentView → Bool
hover_focus none = false
hover_focus (some v) = not v.unmanaged
