-- ===== src/Examples/Screens.antt =====
-- Boxes on a screen of 800 by 600 pixels.
use leme.Base.{
  Option, none, ℕ, some_inj, subst, ◌≡◌, refl, true, false, some, List, [], ◌∷◌, All, arith, map,
}
use leme.Base.Int.{ℤ, pos, negsuc, ◌+ℤ◌, ◌-ℤ◌, ◌*ℤ◌, ltb_ℤ, div_by, int_laws}
use leme.Box.{Box, IsIntBox, HasArea, Within}
use leme.Layout.Direction.{Direction}
use leme.Layout.Node.{horizontal, vertical, Branch, Node, leaf, branch, order}
use leme.Layout.Arrange.{arrange, cut, extent_of, first_box}
use leme.Layout.Arrange.Boxes.{
  view_of, Inside, Pairs, BoxesApart, Roomy, arrange-Inside, arrange-Apart, arrange-order,
}
use leme.Layout.Columns.{
  arrange_column, arrange_accordion, master_split, master_area, stack_area, shrink,
}
use leme.Layout.Columns.Column.{Chained, down_axis, across_axis, arrange_column-Chained}
use leme.Layout.Columns.Master.{SharesArea, master_stack-SharesArea}
use leme.Layout.Columns.Accordion.{IsGreatest, shrink-IsGreatest, arrange_accordion-Chained}
use leme.Layout.Geometry.{resize_box}
use leme.Layout.Geometry.Bounds.{BoxFits, ResizedFits, resize_box-ResizedFits}
use leme.Layout.Drag.{edges_valid, has_top, has_bottom, has_left, has_right}
use leme.Layout.Candidates.{Candidate, directional_candidate, nearest_candidate}
use leme.Layout.Candidates.Search.{IsNearest}
use leme.Layout.Candidates.Nearest.{
  LiesToward, separation, UnderOrNearest, directional_candidate-IsNearest,
  nearest_candidate-UnderOrNearest,
}
use leme.Shell.Policy.{clamp_box, center_box, reanchor_box, requested_box}
use leme.Shell.Destination.{Tags, Destination, Rules, apply_rules}
use leme.Shell.Destination.Valid.{IsFocused, IsReachable, apply_rules-IsReachable}
use leme.Shell.Policy.Inside.{policies-Within}
use leme.Examples.Numbers.{hundredths, hundredths-IsOrdered}

abbrev screen : Box
screen = record { x = pos 0; y = pos 0; width = pos 800; height = pos 600 }

screen-HasArea : HasArea screen
screen-HasArea = record { wide = omega arith; high = omega arith }

screen-IsIntBox : IsIntBox screen
screen-IsIntBox = omega arith

abbrev right_branch : Branch ℤ
right_branch = record { address = 5; split = vertical; ratio = pos 50; axis_length = pos 0 }

abbrev root_branch : Branch ℤ
root_branch = record { address = 2; split = horizontal; ratio = pos 50; axis_length = pos 0 }

abbrev tree : Node ℤ
tree = branch root_branch (leaf 1 7) (branch right_branch (leaf 3 8) (leaf 4 9))

arrange-Inside_example : All (Inside screen) (arrange hundredths (some tree) screen (pos 10)).1
arrange-Inside_example =
    arrange-Inside hundredths (pos 10) (omega arith) (some tree) screen screen-HasArea

tree-Roomy : Roomy hundredths (pos 10) tree screen
unfolding Roomy extent_of first_box cut ◌+ℤ◌ ◌-ℤ◌ ◌*ℤ◌
tree-Roomy = (omega arith, tt, (omega arith, tt, tt))

arrange-Apart_example : Pairs BoxesApart (arrange hundredths (some tree) screen (pos 10)).1
arrange-Apart_example =
    arrange-Apart hundredths (pos 10) (omega arith) tree screen screen-HasArea tree-Roomy

arrange-order_example :
    (map view_of (arrange hundredths (some tree) screen (pos 10)).1 ≡ order (some tree))
    × (order (arrange hundredths (some tree) screen (pos 10)).0 ≡ order (some tree))
arrange-order_example = arrange-order hundredths (pos 10) (some tree) screen

arrange_column-Chained_example :
    Chained
      (pos 10)
      (pos 0 +ℤ pos 600)
      (pos 0)
      (map down_axis (arrange_column (7 ∷ 8 ∷ 9 ∷ []) screen (pos 10)))
unfolding ◌+ℤ◌ ◌*ℤ◌
arrange_column-Chained_example = arrange_column-Chained 7 (8 ∷ 9 ∷ []) screen (pos 10) (omega arith)

master_stack-SharesArea_example :
    SharesArea screen
      (pos 10)
      (master_area screen (master_split (pos 800) (pos 10) (pos 900)))
      (stack_area screen (pos 10) (master_split (pos 800) (pos 10) (pos 900)))
unfolding ◌+ℤ◌
master_stack-SharesArea_example =
    master_stack-SharesArea screen (pos 10) (pos 900) screen-HasArea (omega arith) (omega arith)

shrink-IsGreatest_example : IsGreatest 3 (pos 20) (pos 100) 46 (shrink 3 (pos 20) (pos 100) 46)
shrink-IsGreatest_example = shrink-IsGreatest 3 (pos 20) (pos 100) (omega arith) 46 (omega arith)

arrange_accordion-Chained_example :
    Chained
      (pos 10)
      (pos 0 +ℤ pos 800)
      (pos 0)
      (map across_axis (arrange_accordion (pos 46) (7 ∷ 8 ∷ 9 ∷ []) 8 screen (pos 10)))
unfolding ◌+ℤ◌ ◌-ℤ◌ ◌*ℤ◌
arrange_accordion-Chained_example =
    arrange_accordion-Chained (pos 46) 7 (8 ∷ 9 ∷ []) 8 screen (pos 10) (omega arith)

-- A window far off the screen.
abbrev stray : Box
stray = record { x = pos 2147483600; y = negsuc 40; width = pos 200; height = pos 100 }

screen-BoxFits : BoxFits screen
unfolding ◌+ℤ◌ ◌-ℤ◌
screen-BoxFits = omega int_laws

resize_box-ResizedFits_example : ResizedFits (resize_box stray 9 (pos 5000) (negsuc 3))
unfolding edges_valid has_top has_bottom has_left has_right
resize_box-ResizedFits_example = resize_box-ResizedFits stray 9 (pos 5000) (negsuc 3) refl

abbrev left_window : Candidate
left_window = record {
  view = 7;
  box = record { x = pos 0; y = pos 0; width = pos 395; height = pos 600 };
}

abbrev upper_window : Candidate
upper_window = record {
  view = 8;
  box = record { x = pos 405; y = pos 0; width = pos 395; height = pos 295 };
}

abbrev lower_window : Candidate
lower_window = record {
  view = 9;
  box = record { x = pos 405; y = pos 305; width = pos 395; height = pos 295 };
}

abbrev candidates : List Candidate
candidates = left_window ∷ upper_window ∷ lower_window ∷ []

directional_candidate-IsNearest_example :
    IsNearest hundredths
      (LiesToward upper_window Direction.left)
      (separation hundredths hundredths-IsOrdered upper_window)
      candidates
      (directional_candidate hundredths candidates 8 Direction.left)
unfolding ◌+ℤ◌ ◌-ℤ◌ ◌*ℤ◌ div_by ltb_ℤ
directional_candidate-IsNearest_example =
    directional_candidate-IsNearest hundredths hundredths-IsOrdered (left_window ∷ [])
      (lower_window ∷ []) upper_window Direction.left (omega arith) (omega arith, tt)
      (refl, (refl, (refl, tt)))

nearest_candidate-UnderOrNearest_example :
    UnderOrNearest hundredths hundredths-IsOrdered
      (pos 40000)
      (pos 60000)
      candidates
      (nearest_candidate hundredths candidates (pos 40000) (pos 60000))
unfolding ◌+ℤ◌ ◌-ℤ◌ ◌*ℤ◌ div_by ltb_ℤ
nearest_candidate-UnderOrNearest_example =
    nearest_candidate-UnderOrNearest hundredths hundredths-IsOrdered candidates (pos 40000)
      (pos 60000) (refl, (refl, (refl, tt)))

policies-Within_example :
    HasArea (clamp_box stray screen)
    × Within (clamp_box stray screen) screen
    × Within (center_box stray stray screen) screen
    × Within (reanchor_box hundredths (λ f. true) (λ f. f) stray stray screen) screen
    × Within (requested_box stray screen false) screen
policies-Within_example =
    policies-Within hundredths (λ f. true) (λ f. f) stray stray screen screen-HasArea
      screen-IsIntBox

abbrev dialog : Box
dialog = record { x = pos 3; y = pos 4; width = pos 200; height = pos 100 }

abbrev second_output : Tags
second_output = record { address = 77; focused_id = 4; max_tags = 9 }

abbrev by_name : List ℕ → Option Tags
by_name name = some second_output

by_name-IsFocused : (name : List ℕ) (t : Tags) → by_name name ≡ some t → IsFocused t
by_name-IsFocused name t e =
    subst IsFocused (some_inj e) (record { focused_low = omega arith; focused_high = omega arith })

abbrev send_to_tag : Rules
send_to_tag = record {
  sets_output = true;
  sets_tag = true;
  sets_floating = false;
  output = [];
  tag_id = 12;
  floating = false;
}

abbrev first_tag : Destination
first_tag = record { tags = none; tag_id = 0 }

apply_rules-IsReachable_example :
    IsReachable (apply_rules by_name send_to_tag first_tag false false).0
apply_rules-IsReachable_example =
    apply_rules-IsReachable by_name send_to_tag first_tag false false by_name-IsFocused tt
