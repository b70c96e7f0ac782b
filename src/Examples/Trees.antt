-- ===== src/Examples/Trees.antt =====
-- Operations on the dwindle tree of three windows.
use leme.Base.{◌⊎◌, ◌≡◌, refl, true, false, Option, none, some, List, [], ◌∷◌, arith, map}
use leme.Base.Int.{ℤ, pos, negsuc, ltb_ℤ, ◌+ℤ◌}
use leme.Layout.View.{null}
use leme.Layout.Direction.{Direction}
use leme.Layout.Node.{
  horizontal, vertical, Node, leaf, branch, Found, find, leaves, order, find_from, in_first,
  in_second,
}
use leme.Layout.Tree.{insert, remove}
use leme.Layout.Tree.Order.{insert-order, remove-order}
use leme.Layout.Sequence.{contains, insert_beside, erase_first}
use leme.Layout.Detach.{Detach, detach_view, restore_view, insert_detached, branch_address}
use leme.Layout.Detach.Restore.{inner, restore-detach}
use leme.Layout.Detach.Move.{leaf_addresses, place_beside, insert_detached-order}
use leme.Layout.Neighbor.{neighbor}
use leme.Layout.Neighbor.Cyclic.{cyclic_next, neighbor-cyclic_next}
use leme.Layout.Swap.{swap_views}
use leme.Layout.Swap.Exchange.{exchange, swap_views-exchange}
use leme.Layout.Drag.{
  drag_begin, drag_update, empty_drag, edges_valid, has_top, has_bottom, has_left, has_right,
}
use leme.Layout.Drag.Walk.{borders, innermost, drag_begin-innermost}
use leme.Layout.Drag.Update.{drag_update_keeps}
use leme.Layout.Resize.{Edge, resize_focused}
use leme.Layout.Resize.Ratio.{InRange, RatiosInRange, AllInRange, resize_focused_keeps}
use leme.Layout.Drop.{simple}
use leme.Layout.Kinds.{dwindle, master_stack}
use leme.Layout.Kinds.Tuned.{adds, changes, IsTuned}
use leme.Layout.Session.{
  Event, operates, swaps, begins_drag, drags, detaches, restores, configures, fresh, run,
}
use leme.Layout.Session.Kept.{run-IsTuned}
use leme.Tags.{TagSettings}
use leme.Examples.Numbers.{hundredths, hundredths-ComparesNumbers}

-- Window 7 on the left; 8 above 9 on the right.
abbrev right_half : Node ℤ
right_half =
    branch (record { address = 5; split = vertical; ratio = pos 50; axis_length = pos 590 })
      (leaf 3 8) (leaf 4 9)

abbrev tree : Node ℤ
tree =
    branch (record { address = 2; split = horizontal; ratio = pos 50; axis_length = pos 790 })
      (leaf 1 7) right_half

tree-RatiosInRange : RatiosInRange hundredths tree
unfolding RatiosInRange ltb_ℤ ◌+ℤ◌
tree-RatiosInRange = ((refl, refl), tt, ((refl, refl), tt, tt))

insert-order_example :
    order (insert (pos 50) (some tree) 8 11 (some 20) (some 21))
    ≡ insert_beside 8 11 (order (some tree))
insert-order_example = insert-order (pos 50) (some tree) 8 11 20 21

remove-order_example : order (remove (some tree) 8) ≡ erase_first 8 (order (some tree))
remove-order_example = remove-order (some tree) 8

restore-detach_example :
    (root' : Option (Node ℤ)) × (d : Detach ℤ) × (detach_view (some tree) 8 true ≡ (root', some d))
    × (order root' ≡ erase_first 8 (leaves tree))
    × (restore_view root' d ≡ some tree)
unfolding contains leaves inner
restore-detach_example = restore-detach tree 8 (omega arith) refl (refl, (refl, tt))

-- Window 11, detached from the split at 6.
abbrev dragged : Detach ℤ
dragged = record {
  leaf_address = 20;
  leaf_view = 11;
  branch_part = some (record {
    fields = record { address = 6; split = horizontal; ratio = pos 50; axis_length = pos 0 };
    leaf_is_first = false;
    sibling_address = 2;
    grandparent = none;
    branch_was_first = false;
  });
}

insert_detached-order_example :
    (root' : Node ℤ) × (insert_detached (pos 50) (some tree) dragged 8 Direction.up none
      ≡ some root')
    × (leaves root' ≡ place_beside Direction.up 8 11 (leaves tree))
unfolding contains leaves leaf_addresses branch_address
insert_detached-order_example =
    insert_detached-order (pos 50) tree dragged 8 Direction.up none 6 (omega arith) refl refl refl

neighbor-cyclic_next_example : neighbor (some tree) 9 ≡ cyclic_next 9 (leaves tree)
unfolding contains leaves
neighbor-cyclic_next_example = neighbor-cyclic_next tree 9 (omega arith) refl

swap_views-exchange_example :
    (leaves (swap_views tree 7 9).0 ≡ map (exchange 7 9) (leaves tree))
    × ((swap_views tree 7 9).1 ≡ true)
unfolding contains leaves leaf_addresses
swap_views-exchange_example =
    swap_views-exchange tree 7 9 (omega arith) (omega arith) (omega arith) refl refl
      (refl, (refl, (refl, tt))) (refl, (refl, (refl, tt)))

-- Window 8 with its parents.
abbrev found : Found ℤ
found = record {
  address = 3;
  view = 8;
  parents =
      in_first (record { address = 5; split = vertical; ratio = pos 50; axis_length = pos 590 })
        (leaf 4 9)
      ∷ in_second
          (record { address = 2; split = horizontal; ratio = pos 50; axis_length = pos 790 })
          (leaf 1 7)
      ∷ [];
}

-- The bottom (2) and left (4) edges.
drag_begin-innermost_example :
    ((drag_begin (some tree) 8 6).0.horizontal_axis
      ≡ innermost (borders horizontal 6) found.parents)
    × ((drag_begin (some tree) 8 6).0.vertical_axis ≡ innermost (borders vertical 6) found.parents)
    × (((drag_begin (some tree) 8 6).1 ≡ true)
        ⊎ (((drag_begin (some tree) 8 6).0 ≡ empty_drag)
            × ((drag_begin (some tree) 8 6).1 ≡ false)))
unfolding find find_from edges_valid has_top has_bottom has_left has_right
drag_begin-innermost_example = drag_begin-innermost tree 8 6 found (omega arith) refl refl

drag_update_keeps_example :
    (leaves (drag_update hundredths (drag_begin (some tree) 8 6).0 (pos 5000) (negsuc 39) tree).0
      ≡ leaves tree)
    × RatiosInRange hundredths
        (drag_update hundredths (drag_begin (some tree) 8 6).0 (pos 5000) (negsuc 39) tree).0
drag_update_keeps_example =
    drag_update_keeps hundredths hundredths-ComparesNumbers (some tree) 8 6 (pos 5000) (negsuc 39)
      tree tree-RatiosInRange tree-RatiosInRange

resize_focused_keeps_example :
    (order (resize_focused hundredths (some tree) 8 Edge.down (pos 400)).0 ≡ order (some tree))
    × AllInRange hundredths (resize_focused hundredths (some tree) 8 Edge.down (pos 400)).0
    × (((resize_focused hundredths (some tree) 8 Edge.down (pos 400)).1 ≡ true)
        ⊎ ((resize_focused hundredths (some tree) 8 Edge.down (pos 400)).0 ≡ some tree))
resize_focused_keeps_example =
    resize_focused_keeps hundredths hundredths-ComparesNumbers Edge.down (pos 400) (some tree) 8
      tree-RatiosInRange

abbrev settings : TagSettings ℤ
settings = record {
  layout = dwindle;
  drop_mode = simple;
  mfact = pos 60;
  nmaster = 1;
  split_ratio = pos 50;
  collapse_width = pos 46;
  gap = pos 0;
  has_gap = false;
}

abbrev events : List (Event ℤ)
events =
    operates (adds null 7 (some 1, none))
    ∷ operates (adds 7 8 (some 3, some 2))
    ∷ begins_drag 7 8
    ∷ drags (pos 40) (pos 0)
    ∷ detaches 7 true
    ∷ restores
    ∷ swaps 7 8
    ∷ configures settings
    ∷ operates (changes master_stack [])
    ∷ []

one_half-InRange : InRange hundredths (pos 50)
unfolding ltb_ℤ ◌+ℤ◌
one_half-InRange = (refl, refl)

run-IsTuned_example :
    IsTuned hundredths hundredths-ComparesNumbers one_half-InRange
      (run hundredths hundredths-ComparesNumbers one_half-InRange
        (fresh (pos 50) dwindle)
        events).layout
unfolding ltb_ℤ ◌+ℤ◌
run-IsTuned_example =
    run-IsTuned hundredths hundredths-ComparesNumbers one_half-InRange dwindle events
      (tt, (tt, (tt, (tt, (tt, (tt, (tt, (((refl, refl), omega arith, omega arith), (tt, tt)))))))))
