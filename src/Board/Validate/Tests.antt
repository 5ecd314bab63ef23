-- ===== src/Board/Validate/Tests.antt =====
-- The validation of small boards.
use runway_the_game.Prelude.{String, Bool, true, false, ◌≡◌, ◌↔◌, refl, none, some, List, [], ◌∷◌}
use runway_the_game.Prelude.Int.{pos}
use runway_the_game.Board.{WaypointDraft, RoadDraft, ChallengeDraft}
use runway_the_game.Board.Crossing.{Point}
use runway_the_game.Board.Route.{tier_by_waypoint, compute_route_order}
use runway_the_game.Board.Validate.{
  BoardDraft, Problem, finish_count, isolated, veto_range, validate_board,
}
use runway_the_game.Board.Validate.Playable.{only_warnings, IsPlayable, validate_board-IsPlayable}

abbrev wp : String → Bool → Bool → WaypointDraft
wp id start finish = record {
  id = id;
  name = id;
  lat = pos 0;
  lon = pos 0;
  arrival_radius_m = 25;
  is_start = start;
  is_finish = finish;
  challenge = none;
  coin_reward = none;
}

abbrev road : String → String → String → RoadDraft
road id a b = record {
  id = id;
  waypoint_id_a = a;
  waypoint_id_b = b;
  challenge_id = none;
  challenge = none;
}

abbrev photo : ChallengeDraft
photo = record {
  id = none;
  prompt = "A red door";
  rubric = record { must_show = []; fails_if = []; acceptable_ambiguity = "" };
  coin_reward = some 20;
  veto_penalty_seconds = some 60;
}

abbrev board : BoardDraft
board = record {
  waypoints = wp "s" true false ∷ wp "m" false false ∷ wp "x" false false ∷ [];
  roads = road "1" "s" "m" ∷ [];
  challenges = ("m", photo) ∷ ("x", record photo { veto_penalty_seconds = none }) ∷ [];
}

abbrev flat : List WaypointDraft → WaypointDraft → Point
flat ws w = record { x = w.lon; y = w.lat }

abbrev by_name : String → String → Bool
by_name a b = true

-- No finish, an unconnected waypoint, and a veto penalty that is too short.
board_problems :
    validate_board flat by_name board
    ≡ some
        (finish_count 0 ∷ isolated (wp "x" false false) ∷ veto_range (wp "m" false false) 60 ∷ [])
unfolding validate_board compute_route_order tier_by_waypoint
board_problems = refl

validate_board-IsPlayable_example :
    (ps : List Problem) × (validate_board flat by_name board ≡ some ps)
    × ((only_warnings ps ≡ true) ↔ IsPlayable board)
validate_board-IsPlayable_example = validate_board-IsPlayable flat by_name board
