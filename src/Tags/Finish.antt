-- ===== src/Tags/Finish.antt =====
-- src/workspace/tag.c: the end of the tags of an output: `leme_tags_finish`.
use leme.Base.{ℕ, zero, suc, ◌+◌, List, [], ◌∷◌, if◌then◌else◌, ◌≡◌, refl, arith}
use leme.Layout.View.{View}
use leme.Layout.Sequence.{contains}
use leme.Tags.Limit.{fresh}
use leme.Tags.World.{no_owner, World, edit_set, set_owner, members}

module _ {F : Type 0} where
  -- The views of a list lose their owner.
  unfoldable pub release_all : List View → World F → World F
  release_all [] w = w
  release_all (v ∷ vs) w = release_all vs (set_owner w v no_owner)

  -- The loop over the tags from an id, for the rounds left.
  unfoldable pub finish_from : ℕ → ℕ → ℕ → World F → World F
  finish_from t zero id w = w
  finish_from t (suc n) id w = finish_from t n (id + 1) (release_all (members w t id) w)

  -- The set is zeroed.
  unfoldable pub finish : F → ℕ → World F → World F
  finish zero_position t w =
      edit_set (finish_from t (w.sets t).max_tags 1 w) t (λ tags. fresh zero_position 0 0)

  -- The views of the list have no owner then, and the others keep theirs.
  owner-release_all :
      (u : View) (vs : List View) (w : World F)
      → ((release_all vs w).views u).owner ≡ (if contains u vs then no_owner else (w.views u).owner)
  unfolding release_all contains set_owner
  owner-release_all u [] w = refl
  owner-release_all u (v ∷ vs) w = ground (arith, owner-release_all u vs (set_owner w v no_owner))
