-- ===== src/Editor/Import/Tests.antt =====
-- A small board, exported and imported.
use runway_the_game.Prelude.{refl, true, false, none, some, [], ◌∷◌, arith, number_text, ◌≡◌}
use runway_the_game.Prelude.Int.{pos}
use runway_the_game.Board.{WaypointDraft, RoadDraft, ChallengeDraft}
use runway_the_game.Editor.{EditorDraft, default_ruleset}
use runway_the_game.Editor.Powerups.{default_powerups, ensure_default_powerups}
use runway_the_game.Editor.Wire.{build_export_file}
use runway_the_game.Editor.Import.{apply_import_to_draft}
use runway_the_game.Editor.Import.File.{file_of, IsFull}
use runway_the_game.Editor.Import.RoundTrip.{apply_import_to_draft-build_export_file}

abbrev corner : WaypointDraft
corner = record {
  id = "w1";
  name = "Corner";
  lat = pos 1;
  lon = pos 2;
  arrival_radius_m = 30;
  is_start = true;
  is_finish = false;
  challenge = none;
  coin_reward = none;
}

abbrev tower : WaypointDraft
tower = record {
  id = "w2";
  name = "Tower";
  lat = pos 3;
  lon = pos 4;
  arrival_radius_m = 25;
  is_start = false;
  is_finish = true;
  challenge = none;
  coin_reward = none;
}

abbrev find_a_cat : ChallengeDraft
find_a_cat = record {
  id = some "00000000-0000-4000-8000-000000000001";
  prompt = "Find a cat";
  rubric = record { must_show = "A cat" ∷ []; fails_if = []; acceptable_ambiguity = "" };
  coin_reward = some 10;
  veto_penalty_seconds = some 600;
}

abbrev high_street : RoadDraft
high_street = record {
  id = "r1";
  waypoint_id_a = "w1";
  waypoint_id_b = "w2";
  challenge_id = some "c9";
  challenge = some (record find_a_cat { id = some "c9" });
}

abbrev small_board : EditorDraft
small_board = record {
  board_name = "Old town";
  waypoints = corner ∷ tower ∷ [];
  roads = high_street ∷ [];
  challenges = ("w1", find_a_cat) ∷ [];
  roadblock_cards = [];
  curse_cards = [];
  powerups = default_powerups;
  rules = default_ruleset;
}

abbrev blank : EditorDraft
blank = record small_board {
  board_name = "x";
  waypoints = [];
  roads = [];
  challenges = [];
  powerups = [];
}

small_board-IsFull : IsFull small_board
unfolding ensure_default_powerups
small_board-IsFull = record {
  has_name = refl;
  waypoints_full = (
    record {
      has_id = refl;
      has_name = refl;
      has_radius = omega arith;
      no_challenge = refl;
      no_reward = refl;
    },
    (
      record {
        has_id = refl;
        has_name = refl;
        has_radius = omega arith;
        no_challenge = refl;
        no_reward = refl;
      },
      tt,
    ),
  );
  roads_full =
      (record { has_id = refl; has_a = refl; has_b = refl; fits = (refl, refl, (refl, refl)) }, tt);
  same_ids = (((λ e. refl), tt), tt);
  own_challenges = ((λ id e. refl), tt);
  entries_full = (
    record {
      has_key = refl;
      is_active = refl;
      has_uuid = refl;
      priced = (refl, refl);
      no_road = refl;
      no_road_challenge = refl;
    },
    tt,
  );
  entries_apart = (refl, tt);
  catalog = refl;
}

apply_import_to_draft-build_export_file_example :
    apply_import_to_draft number_text blank (file_of (build_export_file number_text small_board))
    ≡ small_board
apply_import_to_draft-build_export_file_example =
    apply_import_to_draft-build_export_file number_text number_text small_board small_board-IsFull
      blank
