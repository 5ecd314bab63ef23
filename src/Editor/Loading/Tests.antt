-- ===== src/Editor/Loading/Tests.antt =====
-- A board of the server and a file, whose challenges name waypoints that are gone.
use runway_the_game.Prelude.{String, Bool, true, false, none, some, List, [], ◌∷◌, number_text, ◌≢◌}
use mathlib.Core.Path.{subst}
use runway_the_game.Prelude.Int.{pos}
use runway_the_game.Editor.RawFile.{
  RawBoardFile, RawWaypoint, RawChallenge, absent, rows, keyed, RawChallenges,
}
use runway_the_game.Editor.Wire.{ApiChallenge}
use runway_the_game.Editor.Import.{apply_import_to_draft}
use runway_the_game.Editor.Loading.{ApiBoard, create_empty_draft, apply_board_to_draft}
use runway_the_game.Editor.Loading.Placed.{IsPlaced, apply_board_to_draft-IsPlaced}
use runway_the_game.Editor.Loading.Imported.{apply_import_to_draft-IsPlaced}

abbrev row : String → ApiChallenge
row w = record {
  id = "c";
  waypoint_id = some w;
  road_id = none;
  prompt = "Find a cat";
  rubric = record { must_show = []; fails_if = []; acceptable_ambiguity = "" };
  coin_reward = 0;
  veto_penalty_seconds = 0;
}

abbrev old_board : ApiBoard
old_board = record {
  name = "";
  waypoints = some (
      record {
        id = "w1";
        name = "A";
        lat = pos 0;
        lon = pos 0;
        arrival_radius_m = 0;
        is_start = true;
        is_finish = false;
        challenge_id = none;
      }
      ∷ record {
        id = "w2";
        name = "B";
        lat = pos 0;
        lon = pos 0;
        arrival_radius_m = 0;
        is_start = false;
        is_finish = true;
        challenge_id = none;
      }
      ∷ []);
  roads = none;
  challenges = some (row "w1" ∷ row "w2" ∷ row "w3" ∷ []);
  roadblock_deck = none;
  curse_deck = some [];
  powerups = none;
  powerup_costs = none;
}

apply_board_to_draft-IsPlaced_example : IsPlaced (apply_board_to_draft create_empty_draft old_board)
apply_board_to_draft-IsPlaced_example = apply_board_to_draft-IsPlaced create_empty_draft old_board

abbrev raw_row : String → RawChallenge
raw_row w = record {
  id = none;
  prompt = some "Find a cat";
  rubric = none;
  coin_reward = none;
  veto_penalty_seconds = none;
  waypoint_id = some w;
  waypoint_id_camel = none;
  road_id = none;
}

abbrev raw_place : String → Bool → RawWaypoint
raw_place w finish = record {
  id = some w;
  name = none;
  lat = none;
  lon = none;
  arrival_radius_m = none;
  arrival_radius_m_camel = none;
  is_start = none;
  is_start_camel = none;
  is_finish = some finish;
  is_finish_camel = none;
  challenge_id = none;
  challenge_id_camel = none;
}

abbrev old_file : RawBoardFile
old_file = record {
  name = none;
  waypoints = some (raw_place "w1" false ∷ raw_place "w2" true ∷ raw_place "w3" false ∷ []);
  roads = none;
  challenges = rows (raw_row "w2" ∷ raw_row "w1" ∷ raw_row "w9" ∷ []);
  roadblock_cards = none;
  roadblock_cards_camel = none;
  roadblock_deck = none;
  curse_cards = none;
  curse_cards_camel = none;
  curse_deck = none;
  powerups = none;
  powerup_costs = none;
  rules = none;
}

abbrev HasRows : RawChallenges → Type 0
HasRows absent = ⊥
HasRows (rows cs) = Unit
HasRows (keyed cs) = Unit

rows_absent : (cs : List RawChallenge) → rows cs ≢ absent
rows_absent cs e = subst HasRows e tt

apply_import_to_draft-IsPlaced_example :
    IsPlaced (apply_import_to_draft number_text create_empty_draft old_file)
apply_import_to_draft-IsPlaced_example =
    apply_import_to_draft-IsPlaced number_text create_empty_draft old_file (rows_absent _)
