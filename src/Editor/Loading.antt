-- ===== src/Editor/Loading.antt =====
-- A board of the server, or a copy of the device, as a draft: applyBoardToDraft and applyStoredDraft
-- of frontend/src/surfaces/editor/boardDraft.ts, with ApiBoard of frontend/src/core/api/board.ts.
pub mod Placed
pub mod Imported
mod Tests
use runway_the_game.Prelude.{
  ℕ, String, ◌==◌, Bool, true, false, ◌||◌, not, Option, none, some, List, [], ◌∷◌, map, find,
  includes, Dict, lookup, insert, truthy, or_default, if◌then◌else◌,
}
use runway_the_game.Board.{WaypointDraft, RoadDraft, ChallengeDraft}
use runway_the_game.Editor.{
  EditorDraft, CardDraft, PowerupDraft, RulesetDraft, default_arrival_radius_m, default_coin_reward,
  default_veto_penalty_seconds, untitled_map_name, default_ruleset,
}
use runway_the_game.Editor.Powerups.{ensure_default_powerups}
use runway_the_game.Editor.Wire.{
  ApiWaypoint, ApiRoad, ApiChallenge, or_some, or_number, text_of, challengeable,
}
use runway_the_game.Editor.Import.{powerups_from, has_text, name_from}

pub record ApiBoard : Type 0 where
  pub name : String
  pub waypoints : Option (List ApiWaypoint)
  pub roads : Option (List ApiRoad)
  pub challenges : Option (List ApiChallenge)
  pub roadblock_deck : Option (List CardDraft)
  pub curse_deck : Option (List CardDraft)
  pub powerups : Option (List PowerupDraft)
  pub powerup_costs : Option (Dict ℕ)

abbrev pub create_empty_draft : EditorDraft
unfolding ensure_default_powerups
create_empty_draft = record {
  board_name = untitled_map_name;
  waypoints = [];
  roads = [];
  challenges = [];
  roadblock_cards = [];
  curse_cards = [];
  powerups = ensure_default_powerups [];
  rules = default_ruleset;
}

abbrev pub loaded_waypoint : ApiWaypoint → WaypointDraft
loaded_waypoint w = record {
  id = w.id;
  name = w.name;
  lat = w.lat;
  lon = w.lon;
  arrival_radius_m = or_number w.arrival_radius_m default_arrival_radius_m;
  is_start = w.is_start;
  is_finish = w.is_finish;
  challenge = none;
  coin_reward = none;
}

-- A challenge of the board, with the id that it keeps: none on a waypoint.
abbrev pub loaded_challenge : Option String → ApiChallenge → ChallengeDraft
loaded_challenge id c = record {
  id = id;
  prompt = c.prompt;
  rubric = c.rubric;
  coin_reward = some (or_number c.coin_reward default_coin_reward);
  veto_penalty_seconds = some (or_number c.veto_penalty_seconds default_veto_penalty_seconds);
}

-- A Map of the rows by id has the last row of an id.
abbrev pub by_row_id : List ApiChallenge → Dict ApiChallenge → Dict ApiChallenge
by_row_id [] d = d
by_row_id (c ∷ cs) d = by_row_id cs (insert c.id c d)

abbrev pub linked_row : Dict ApiChallenge → ApiRoad → Option ApiChallenge
linked_row by_id r = elim r.challenge_id [
  | none ↦ none
  | some id ↦ if truthy id then lookup id by_id else none
]

abbrev pub legacy_row : String → ApiChallenge → Bool
legacy_row road c = has_text road c.waypoint_id || has_text road c.road_id

abbrev pub row_for_road : List ApiChallenge → Dict ApiChallenge → ApiRoad → Option ApiChallenge
row_for_road cs by_id r = elim (linked_row by_id r) [
  | some c ↦ some c
  | none ↦ find (legacy_row r.id) cs
]

pub road_challenges : List ApiChallenge → List ApiRoad → Dict ApiChallenge → Dict ApiChallenge
road_challenges cs [] d = d
road_challenges cs (r ∷ rs) d =
    road_challenges cs rs
      (elim (row_for_road cs (by_row_id cs []) r) [ none ↦ d | some c ↦ insert r.id c d ])

-- One row of the board, unless a road has its id.
abbrev pub place_row :
    List String → List String → ApiChallenge → Dict ChallengeDraft → Dict ChallengeDraft
place_row valid on_roads c d =
    let target = text_of (or_some c.waypoint_id (or_some c.road_id (some c.id))) in
    if includes c.id on_roads
    then d
    else if includes target valid
    then insert target (loaded_challenge none c) d
    else d

unfoldable pub place_rows :
    List String → List String → List ApiChallenge → Dict ChallengeDraft → Dict ChallengeDraft
place_rows valid on_roads [] d = d
place_rows valid on_roads (c ∷ cs) d = place_rows valid on_roads cs (place_row valid on_roads c d)

abbrev pub loaded_road : Dict ApiChallenge → ApiRoad → RoadDraft
loaded_road on_road s =
    let found = lookup s.id on_road in
    record {
      id = s.id;
      waypoint_id_a = text_of (or_some s.waypoint_id_a s.waypoint_a);
      waypoint_id_b = text_of (or_some s.waypoint_id_b s.waypoint_b);
      challenge_id = elim found [
        | none ↦ or_some s.challenge_id none
        | some c ↦ or_some (some c.id) (or_some s.challenge_id none)
      ];
      challenge = elim found [ none ↦ none | some c ↦ some (loaded_challenge (some c.id) c) ];
    }

-- Server board to draft. The ruleset is not on the wire, so the current one is kept.
unfoldable pub apply_board_to_draft : EditorDraft → ApiBoard → EditorDraft
unfolding road_challenges place_rows powerups_from
apply_board_to_draft prev board =
    let rows = or_default board.challenges [] in
    let waypoints = map loaded_waypoint (or_default board.waypoints []) in
    let roads = or_default board.roads [] in
    let on_road = road_challenges rows roads [] in
    record prev {
      board_name = if truthy board.name then board.name else untitled_map_name;
      waypoints = waypoints;
      roads = map (loaded_road on_road) roads;
      challenges = place_rows (challengeable waypoints) (map (λ e. e.1.id) on_road) rows [];
      roadblock_cards = or_default board.roadblock_deck prev.roadblock_cards;
      curse_cards = or_default board.curse_deck prev.curse_cards;
      powerups = powerups_from board.powerups board.powerup_costs;
    }

-- Partial<EditorDraft>: the fields that an old copy has.
pub record StoredDraft : Type 0 where
  pub board_name : Option String
  pub waypoints : Option (List WaypointDraft)
  pub roads : Option (List RoadDraft)
  pub challenges : Option (Dict ChallengeDraft)
  pub roadblock_cards : Option (List CardDraft)
  pub curse_cards : Option (List CardDraft)
  pub powerups : Option (List PowerupDraft)
  pub rules : Option RulesetDraft

-- `stored.powerups ? ensureDefaultPowerups(stored.powerups) : prev.powerups`
abbrev pub stored_powerups : Option (List PowerupDraft) → List PowerupDraft → List PowerupDraft
unfolding ensure_default_powerups
stored_powerups none old = old
stored_powerups (some ps) old = ensure_default_powerups ps

-- Applies a stored local draft, field by field.
unfoldable pub apply_stored_draft : EditorDraft → StoredDraft → EditorDraft
unfolding stored_powerups
apply_stored_draft prev stored = record {
  board_name = name_from stored.board_name prev.board_name;
  waypoints = or_default stored.waypoints prev.waypoints;
  roads = or_default stored.roads prev.roads;
  challenges = or_default stored.challenges prev.challenges;
  roadblock_cards = or_default stored.roadblock_cards prev.roadblock_cards;
  curse_cards = or_default stored.curse_cards prev.curse_cards;
  powerups = stored_powerups stored.powerups prev.powerups;
  rules = or_default stored.rules prev.rules;
}
