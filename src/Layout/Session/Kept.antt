-- ===== src/Layout/Session/Kept.antt =====
-- src/workspace/layout.c and tag.c: the settings of a layout in any sequence of events.
use leme.Base.{ℕ, Option, none, some, List, [], ◌∷◌, All, arith}
use leme.Base.Floats.{Floats, ComparesNumbers}
use leme.Layout.Direction.{Direction}
use leme.Layout.View.{View}
use leme.Layout.Node.{Node}
use leme.Layout.Detach.{Detach, restore_view}
use leme.Layout.Resize.Ratio.{InRange, AllInRange}
use leme.Layout.Drag.Update.{DragInRange, empty_drag-InRange, drag_begin-InRange}
use leme.Layout.Kinds.{Kind, layout_init}
use leme.Layout.Kinds.Tuned.{IsTuned, step-IsTuned, with_root}
use leme.Layout.Session.{
  Session, Event, operates, swaps, begins_drag, drags, detaches, restores, inserts, configures,
  with_tree, put_back, restore_in, insert_in, fresh, react, run, IsAllowed,
}
use leme.Layout.Session.Trees.{
  DetachInRange, swap_in_tuned, drag_in_tuned, detach_tuned, restore_root_tuned, insert_tuned,
}
use leme.Tags.{apply_settings}

module _ (R : Floats) (c : ComparesNumbers R) (half_in_range : InRange R R.one_half) where
  open R use {F, one_half}

  record SessionTuned (s : Session F) : Type 0 where
    tuned : IsTuned R c half_in_range s.layout
    drag_tuned : DragInRange R s.drag
    detach_tuned : DetachInRange R c half_in_range s.detached

  with_tree_tuned :
      (s : Session F) (root : Option (Node F))
      → AllInRange R root
      → SessionTuned s
      → SessionTuned (with_tree s root)
  unfolding with_tree
  with_tree_tuned s root h t = record {
    tuned = with_root R c half_in_range s.layout root s.layout.kind h t.tuned;
    drag_tuned = t.drag_tuned;
    detach_tuned = t.detach_tuned;
  }

  put_back_tuned :
      (s : Session F) (root : Option (Node F))
      → AllInRange R root
      → SessionTuned s
      → SessionTuned (put_back s root)
  unfolding put_back with_tree DetachInRange
  put_back_tuned s none h t = t
  put_back_tuned s (some root) h t = record {
    tuned = with_root R c half_in_range s.layout (some root) s.layout.kind h t.tuned;
    drag_tuned = t.drag_tuned;
    detach_tuned = tt;
  }

  restore_in_tuned :
      (s : Session F) (d : Option (Detach F))
      → DetachInRange R c half_in_range d
      → SessionTuned s
      → SessionTuned (restore_in s d)
  unfolding restore_in restore_view DetachInRange
  restore_in_tuned s none h t = t
  restore_in_tuned s (some d) h t =
      put_back_tuned s _
        (restore_root_tuned R c half_in_range d d.branch_part s.layout.root h t.tuned.ratios) t

  insert_in_tuned :
      (s : Session F) (target : View) (direction : Direction) (memory : Option ℕ)
      (d : Option (Detach F))
      → SessionTuned s
      → SessionTuned (insert_in one_half s target direction memory d)
  unfolding insert_in
  insert_in_tuned s target direction memory none t = t
  insert_in_tuned s target direction memory (some d) t =
      put_back_tuned s _
        (insert_tuned R c half_in_range s.layout.root d target direction memory t.tuned.ratios) t

  react_tuned :
      (s : Session F) (e : Event F)
      → IsAllowed R c half_in_range e
      → SessionTuned s
      → SessionTuned (react R c half_in_range s e)
  unfolding react with_tree apply_settings
  react_tuned s (operates op) a t = record {
    tuned = step-IsTuned R c half_in_range s.layout op t.tuned;
    drag_tuned = t.drag_tuned;
    detach_tuned = t.detach_tuned;
  }
  react_tuned s (swaps first second) a t =
      with_tree_tuned s _
        (swap_in_tuned R c half_in_range first second s.layout.root t.tuned.ratios) t
  react_tuned s (begins_drag v edges) a t = record {
    tuned = t.tuned;
    drag_tuned = drag_begin-InRange R s.layout.root v edges t.tuned.ratios;
    detach_tuned = t.detach_tuned;
  }
  react_tuned s (drags dx dy) a t =
      with_tree_tuned s _
        (drag_in_tuned R c half_in_range s.drag dx dy s.layout.root t.drag_tuned t.tuned.ratios) t
  react_tuned s (detaches v memory) a t =
      let k = detach_tuned R c half_in_range s.layout.root v memory t.tuned.ratios in
      record {
        tuned = with_root R c half_in_range s.layout _ s.layout.kind k.0 t.tuned;
        drag_tuned = t.drag_tuned;
        detach_tuned = k.1;
      }
  react_tuned s restores a t = restore_in_tuned s s.detached t.detach_tuned t
  react_tuned s (inserts target direction memory) a t =
      insert_in_tuned s target direction memory s.detached t
  react_tuned s (configures settings) (m, low, high) t = record {
    tuned = record {
      ratios = t.tuned.ratios;
      master_ratio = m;
      collapse_low = low;
      collapse_high = high;
    };
    drag_tuned = t.drag_tuned;
    detach_tuned = t.detach_tuned;
  }

  run_tuned :
      (s : Session F) (es : List (Event F))
      → All (IsAllowed R c half_in_range) es
      → SessionTuned s
      → SessionTuned (run R c half_in_range s es)
  unfolding run
  run_tuned s [] a t = t
  run_tuned s (e ∷ es) (a, as') t =
      run_tuned (react R c half_in_range s e) es as' (react_tuned s e a t)

  -- From a fresh layout on, whatever views are added, removed, swapped, detached, restored or dropped
  -- beside others, whatever kinds are set, arrangements, resizes and drags of borders made, and whatever
  -- settings with a master ratio and a collapsed width in their ranges are applied, in any order: every
  -- split ratio and the master ratio stay between a tenth and nine tenths, and are no NaN, and the
  -- collapsed width stays between 10 and 400. Of `double` it is assumed that comparisons are as IEEE 754
  -- says, that 0.1 ≤ 0.5 ≤ 0.9, and that a number plus or minus an `int` over a positive one is a number.
  pub run-IsTuned :
      (kind : Kind) (events : List (Event F))
      → All (IsAllowed R c half_in_range) events
      → IsTuned R c half_in_range (run R c half_in_range (fresh one_half kind) events).layout
  unfolding fresh layout_init DetachInRange
  run-IsTuned kind events a =
      let t = run_tuned (fresh one_half kind) events a (record {
        tuned = record {
          ratios = tt;
          master_ratio = half_in_range;
          collapse_low = omega arith;
          collapse_high = omega arith;
        };
        drag_tuned = empty_drag-InRange R;
        detach_tuned = tt;
      }) in
      t.tuned
