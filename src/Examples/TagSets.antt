-- ===== src/Examples/TagSets.antt =====
-- Two sets of tags: two initial tags of four ids.
use leme.Base.{ℕ, ◌&&◌, leb, if◌then◌else◌, true, false, none, some, refl, arith}
use leme.Base.Int.{pos}
use leme.Tags.{forward, TagSet, empty_tag, IsSound}
use leme.Tags.World.{no_owner, ViewState, World, views_of, members}
use leme.Tags.Move.Whole.{IsWhole}

abbrev pub some_tags : TagSet ℕ
some_tags = record {
  initial_tags = 2;
  max_tags = 4;
  focused_id = 2;
  focused_is_candidate = false;
  previous_id = 1;
  previous_is_candidate = false;
  previous_valid = true;
  position = 0;
  position_active = false;
  last_change_direction = forward;
  last_change_direction_valid = true;
  table = λ i. if leb 1 i && leb i 2 then some (empty_tag 5) else none;
}

pub some_tags-IsSound : IsSound some_tags
some_tags-IsSound = record {
  initial_low = omega arith;
  initial_high = omega arith;
  focused_low = omega arith;
  focused_high = omega arith;
  focused_exists = λ c. refl;
  candidate_beyond = λ c. absurd (ground (arith, c));
  previous_low = λ c. omega arith;
  previous_high = λ c. omega arith;
  initial_exist = λ i a b. ground arith;
  slots_low = λ i e. ground (arith, e);
  slots_high = λ i e. ground (arith, e);
}

abbrev new_view : ViewState
new_view = record {
  mapped = true;
  unmanaged = false;
  floating = true;
  fullscreen = false;
  detached = false;
  box = record { x = pos 0; y = pos 0; width = pos 10; height = pos 10 };
  owner = no_owner;
  unmanaged_output = none;
}

-- Views without an owner, and the same tags for every output.
abbrev pub empty_world : World ℕ
empty_world = record { sets = λ t. some_tags; output_of = λ t. some t; views = λ v. new_view }

pub empty_world-IsWhole : IsWhole empty_world
unfolding members views_of empty_tag
empty_world-IsWhole = (λ t. some_tags-IsSound, λ v t id. ground arith)
