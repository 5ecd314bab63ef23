-- ===== src/Race/Moments/Tracker.antt =====
-- createMomentTracker of frontend/src/core/game/raceMoments.ts.
pub mod Once
use runway_the_game.Prelude.{
  ℕ, ◌-◌, ◌≤◌, String, ◌==◌, Bool, true, false, ◌&&◌, ◌||◌, not, Option, none, some, List, [], ◌∷◌,
  ◌++◌, map, filter, find, filter_map, sort_by, includes, add_text, Dict, lookup, values, truthy,
  or_default, leb, eqb, if◌then◌else◌,
}
use runway_the_game.Projection.{
  Waypoint, Road, GameMode, TeamProgress, SubmissionInfo, WaypointState, GameState, present,
}
use runway_the_game.Race.Moments.{
  CelebrationKind, won, finished, cleared, arrived, CelebrationMoment, RivalEventKind, nerfed,
  rival_finished, rival_won, countdown_started, rival_opened, RivalEvent, MomentBatch, empty_batch,
  priority, flagged, is_text, cleared_at, bypassed_at, own_clears, opened_by, gated, text_after,
  celebrate, only_if, coins_gained, by_priority, head?,
}
use runway_the_game.Race.Moments.Difference.{diff_moments}

pub record MomentTracker : Type 0 where
  pub prev : Option GameState
  pub seen : List String

abbrev pub create_moment_tracker : MomentTracker
create_moment_tracker = record { prev = none; seen = [] }

abbrev same_game : Option String → Option String → Bool
same_game none none = true
same_game (some a) (some b) = a == b
same_game _ _ = false

abbrev pub batch_keys : MomentBatch → List String
batch_keys b = elim b.celebration [ none ↦ [] | some c ↦ c.key ∷ [] ] ++ map (λ e. e.key) b.rival

abbrev fresh_celebration : List String → Option CelebrationMoment → Option CelebrationMoment
fresh_celebration seen none = none
fresh_celebration seen (some c) = if includes c.key seen then none else some c

-- The batch without what was seen before.
pub unseen_of : List String → MomentBatch → MomentBatch
unseen_of seen batch = record {
  celebration = fresh_celebration seen batch.celebration;
  rival = filter (λ e. not (includes e.key seen)) batch.rival;
}

add_texts : List String → List String → List String
add_texts [] seen = seen
add_texts (k ∷ ks) seen = add_texts ks (add_text k seen)

-- The states from which nothing is shown; `same` says that the state is the object seen last.
abbrev pub is_quiet : Bool → GameState → GameState → Bool
is_quiet same before state =
    not (same_game before.game_id state.game_id)
    || eqb before.last_sequence 0
    || eqb state.last_sequence 0
    || same

pub observe_new : String → GameState → GameState → List String → MomentTracker × MomentBatch
unfolding unseen_of add_texts
observe_new t before state seen =
    let batch = unseen_of seen (diff_moments before state t) in
    (record { prev = some state; seen = add_texts (batch_keys batch) seen }, batch)

-- `observe`, with `before = prev`
pub observe_after :
    String → Bool → GameState → List String → Option GameState → MomentTracker × MomentBatch
unfolding observe_new
observe_after t same state seen none = (record { prev = some state; seen = seen }, empty_batch)
observe_after t same state seen (some before) =
    if is_quiet same before state
    then (record { prev = some state; seen = seen }, empty_batch)
    else observe_new t before state seen

pub observe : String → Bool → GameState → MomentTracker → MomentTracker × MomentBatch
unfolding observe_after
observe t same state tracker = observe_after t same state tracker.seen tracker.prev
