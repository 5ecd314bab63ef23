-- ===== src/Race/Moments/Tests.antt =====
-- diffMoments and createMomentTracker on a concrete race.
use runway_the_game.Prelude.{◌≡◌, refl, true, false, none, some, List, [], ◌∷◌, Bool}
use runway_the_game.Projection.{GameState, initial_game_state, TeamProgress}
use runway_the_game.Race.Moments.{CelebrationKind}
use runway_the_game.Race.Moments.Celebrations.{candidates}
use runway_the_game.Race.Moments.Difference.{diff_moments}
use runway_the_game.Race.Moments.Tracker.{create_moment_tracker}
use runway_the_game.Race.Moments.Best
use runway_the_game.Race.Moments.Tracker.Once

abbrev at_start : TeamProgress
at_start = record {
  cleared_waypoints = [];
  traversed_roads = [];
  current_waypoint_id = "start";
  reached_finish = false;
}

abbrev racing : GameState
racing = record initial_game_state { last_sequence = 3; progress = ("red", at_start) ∷ [] }

abbrev arrived_mid : GameState
arrived_mid = record racing {
  last_sequence = 4;
  progress = ("red", record at_start { current_waypoint_id = "mid" }) ∷ [];
}

abbrev run : List (Bool × GameState)
run = (false, racing) ∷ (false, arrived_mid) ∷ (false, racing) ∷ (false, arrived_mid) ∷ []

arrival :
    (diff_moments racing arrived_mid "red").celebration
    ≡ some (record {
      key = "arrived:mid";
      kind = CelebrationKind.arrived;
      waypoint_id = some "mid";
      road_id = none;
      coins_gained = 0;
    })
unfolding diff_moments candidates
arrival = refl

abbrev won_race : GameState
won_race = record arrived_mid {
  winner = some "red";
  progress =
      ("red", record at_start { current_waypoint_id = "finish"; reached_finish = true }) ∷ [];
}

diff_moments-Shows_example :
    (diff_moments racing won_race "red").celebration ≡ some (Best.win racing won_race "red")
diff_moments-Shows_example = Best.diff_moments-Shows racing won_race "red"

observe_all-Once_example : Once.Once [] (Once.observe_all "red" run create_moment_tracker)
observe_all-Once_example = Once.observe_all-Once "red" run
