-- ===== src/Race/Accessibility/Tests.antt =====
-- A race on a board of three waypoints in a row: the start is open, a challenge gates the second.
use mathlib.Core.List.{Memᴰ}
use runway_the_game.Prelude.{
  String, eq_iff, Bool, true, false, ◌≡◌, ◌↔◌, refl, none, some, [], ◌∷◌, arith,
}
use runway_the_game.Prelude.Int.{pos}
use runway_the_game.Projection.{Waypoint, Road, locked, TeamProgress, GameState, initial_game_state}
use runway_the_game.Race.Accessibility.{
  RoadRaceStatus, WaypointRaceStatus, road_open, cleared_of, compute_race_accessibility,
}
use runway_the_game.Race.Accessibility.Roads.{
  MayTake, MayReach, unlocked_in, current_in, compute_race_accessibility-MayTake,
  compute_race_accessibility-MayReach,
}
use runway_the_game.Race.Accessibility.Monotone.{clear, compute_race_accessibility-clear}

abbrev stop : String → String → Bool → Bool → Waypoint
stop id challenge_id start finish = record {
  id = id;
  name = id;
  lat = pos 0;
  lon = pos 0;
  arrival_radius_m = 25;
  is_start = start;
  is_finish = finish;
  challenge_id = challenge_id;
}

abbrev lane : String → String → String → Road
lane id a b = record {
  id = id;
  waypoint_a = a;
  waypoint_b = b;
  challenge_id = "";
  lock_state = locked;
  completed_by = none;
  length_m = 100;
}

abbrev begun : TeamProgress
begun = record {
  current_waypoint_id = "s";
  traversed_roads = [];
  cleared_waypoints = [];
  reached_finish = false;
}

abbrev row : GameState
row = record initial_game_state {
  waypoints = stop "s" "" true false ∷ stop "m" "c" false false ∷ stop "f" "" false true ∷ [];
  roads = lane "r1" "s" "m" ∷ lane "r2" "m" "f" ∷ [];
  progress = ("t", begun) ∷ [];
}

row_access : compute_race_accessibility row (some "t") ≡ record {
  waypoints =
      ("s", record { id = "s"; status = WaypointRaceStatus.cleared; is_accessible = true })
      ∷ ("m", record { id = "m"; status = WaypointRaceStatus.accessible; is_accessible = true })
      ∷ ("f", record { id = "f"; status = WaypointRaceStatus.inaccessible; is_accessible = false })
      ∷ [];
  roads =
      ("r1", record { id = "r1"; status = RoadRaceStatus.accessible; is_accessible = true })
      ∷ ("r2", record { id = "r2"; status = RoadRaceStatus.inaccessible; is_accessible = false })
      ∷ [];
}
unfolding compute_race_accessibility
row_access = refl

compute_race_accessibility-MayTake_example :
    (s : Road) × Memᴰ s row.roads
    × (s.id ≡ "r1")
    × ((true ≡ true) ↔ MayTake row (some "t") (unlocked_in row (some "t") row.waypoints) s)
unfolding compute_race_accessibility
compute_race_accessibility-MayTake_example =
    compute_race_accessibility-MayTake row (some "t") "r1"
      (record { id = "r1"; status = RoadRaceStatus.accessible; is_accessible = true }) refl

compute_race_accessibility-MayReach_example :
    (v : Waypoint) × Memᴰ v row.waypoints
    × (v.id ≡ "f")
    × ((false ≡ true)
        ↔ MayReach row
            (some "t")
            (cleared_of row (some "t"))
            (current_in row (some "t") row.waypoints)
            (compute_race_accessibility row (some "t")).roads
            v)
unfolding compute_race_accessibility
compute_race_accessibility-MayReach_example =
    compute_race_accessibility-MayReach row (some "t") "f"
      (record { id = "f"; status = WaypointRaceStatus.inaccessible; is_accessible = false }) refl

compute_race_accessibility-clear_example :
    road_open (compute_race_accessibility (clear "t" begun "m" row) (some "t")).roads "r1" ≡ true
unfolding compute_race_accessibility
compute_race_accessibility-clear_example =
    compute_race_accessibility-clear row "t" begun "m" "r1" (ground (arith, eq_iff "t" "")) refl
      refl
