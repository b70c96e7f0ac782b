-- ===== src/Shell/Destination/Valid.antt =====
-- src/shell/policy.c: the range of the tag that a new window goes to.
use leme.Base.{
  ℕ, ◌&&◌, ◌≤◌, ◌≡◌, not, leb, if◌then◌else◌, if_cases, Bool, Option, none, some, List, arith, refl,
  subst,
}
use leme.Shell.Destination.{Tags, Destination, Rules, on_output, on_tag, apply_rules}

-- The focused tag is one of the tags.
pub record IsFocused (t : Tags) : Type 0 where
  pub focused_low : 1 ≤ t.focused_id
  pub focused_high : t.focused_id ≤ t.max_tags

abbrev pub Holds : Option Tags → ℕ → Type 0
Holds none id = Unit
Holds (some t) id = (1 ≤ id) × (id ≤ t.max_tags)

-- The tag is one that the destination's output has, if there is an output.
abbrev pub IsReachable : Destination → Type 0
IsReachable d = Holds d.tags d.tag_id

on_output-IsReachable :
    (o : Option Tags) (d : Destination)
    → ((t : Tags) → o ≡ some t → IsFocused t)
    → IsReachable d
    → IsReachable (on_output o d)
unfolding on_output
on_output-IsReachable none d f h = h
on_output-IsReachable (some t) d f h = let k = f t refl in (k.focused_low, k.focused_high)

on_tag-IsReachable :
    (id : ℕ) (d : Destination) (o : Option Tags)
    → o ≡ d.tags
    → IsReachable d
    → IsReachable (on_tag id o d)
unfolding on_tag
on_tag-IsReachable id d none e h = h
on_tag-IsReachable id d (some t) e h =
    if_cases IsReachable (leb 1 id && leb id t.max_tags) _ _
      (λ k. subst (λ o. Holds o id) e (ground arith)) (λ k. h)

-- The rules lead from a tag that its output has to such a tag again, whatever they name, if the
-- focused tag of every output is one of its tags.
pub apply_rules-IsReachable :
    (by_name : List ℕ → Option Tags) (rules : Rules) (d : Destination) (floating from_parent : Bool)
    → ((name : List ℕ) (t : Tags) → by_name name ≡ some t → IsFocused t)
    → IsReachable d
    → IsReachable (apply_rules by_name rules d floating from_parent).0
unfolding apply_rules
apply_rules-IsReachable by_name rules d floating from_parent f h =
    let d' =
      if not from_parent && rules.sets_output then on_output (by_name rules.output) d else d in
    let h' : IsReachable d' =
      if_cases IsReachable (not from_parent && rules.sets_output) _ _
        (λ e. on_output-IsReachable (by_name rules.output) d (f rules.output) h) (λ e. h) in
    if_cases IsReachable (not from_parent && rules.sets_tag) _ _
      (λ e. on_tag-IsReachable rules.tag_id d' d'.tags refl h') (λ e. h')
