-- ===== src/Editor/Import/File.antt =====
-- An export file of frontend/src/surfaces/editor/boardDraft.ts as it is read back, and the drafts
-- that such a file holds in full.
use runway_the_game.Prelude.{
  ◌<◌, String, ◌==◌, ◌≡◌, true, false, Option, none, some, List, [], ◌∷◌, map, any, includes,
  truthy, or_default, All,
}
use runway_the_game.Board.{WaypointDraft, RoadDraft, ChallengeDraft}
use runway_the_game.Editor.{EditorDraft, RulesetDraft}
use runway_the_game.Editor.Powerups.{ensure_default_powerups}
use runway_the_game.Editor.Wire.{
  ApiWaypoint, ApiRoad, ApiChallenge, BoardPayload, challengeable, is_uuid, text_of, row_of,
}
use runway_the_game.Editor.RawFile.{RawWaypoint, RawRoad, RawChallenge, RawBoardFile, rows}
use runway_the_game.Editor.Import.{has_text}
use runway_the_game.Editor.Editing.Ids.{Apart}

abbrev pub raw_waypoint : ApiWaypoint → RawWaypoint
raw_waypoint w = record {
  id = some w.id;
  name = some w.name;
  lat = some w.lat;
  lon = some w.lon;
  arrival_radius_m = some w.arrival_radius_m;
  arrival_radius_m_camel = none;
  is_start = some w.is_start;
  is_start_camel = none;
  is_finish = some w.is_finish;
  is_finish_camel = none;
  challenge_id = w.challenge_id;
  challenge_id_camel = none;
}

abbrev pub raw_road : ApiRoad → RawRoad
raw_road r = record {
  id = some r.id;
  waypoint_id_a = r.waypoint_id_a;
  waypoint_a = r.waypoint_a;
  waypoint_id_a_camel = none;
  waypoint_id_b = r.waypoint_id_b;
  waypoint_b = r.waypoint_b;
  waypoint_id_b_camel = none;
  challenge_id = r.challenge_id;
  challenge_id_camel = none;
}

abbrev pub raw_challenge : ApiChallenge → RawChallenge
raw_challenge c = record {
  id = some c.id;
  prompt = some c.prompt;
  rubric = some (record {
    must_show = some c.rubric.must_show;
    fails_if = some c.rubric.fails_if;
    acceptable_ambiguity = some c.rubric.acceptable_ambiguity;
  });
  coin_reward = some c.coin_reward;
  veto_penalty_seconds = some c.veto_penalty_seconds;
  waypoint_id = c.waypoint_id;
  waypoint_id_camel = none;
  road_id = c.road_id;
}

-- `JSON.parse` of what `JSON.stringify` wrote of an export file.
abbrev pub file_of : BoardPayload × RulesetDraft → RawBoardFile
file_of (p, r) = record {
  name = some p.name;
  waypoints = some (map raw_waypoint p.waypoints);
  roads = some (map raw_road p.roads);
  challenges = rows (map raw_challenge p.challenges);
  roadblock_cards = some p.roadblock_cards;
  roadblock_cards_camel = none;
  roadblock_deck = none;
  curse_cards = some p.curse_cards;
  curse_cards_camel = none;
  curse_deck = none;
  powerups = some p.powerups;
  powerup_costs = some p.powerup_costs;
  rules = some r;
}

-- A waypoint with an id, a name and a radius, without the two fields that are not on the wire.
pub record WaypointIsFull (w : WaypointDraft) : Type 0 where
  pub has_id : truthy w.id ≡ true
  pub has_name : truthy w.name ≡ true
  pub has_radius : 0 < w.arrival_radius_m
  pub no_challenge : w.challenge ≡ none
  pub no_reward : w.coin_reward ≡ none

abbrev pub IsPriced : ChallengeDraft → Type 0
IsPriced c =
    (some (or_default c.coin_reward 0) ≡ c.coin_reward)
    × (some (or_default c.veto_penalty_seconds 0) ≡ c.veto_penalty_seconds)

-- A road's challenge has the id that the road names.
abbrev pub Fits : Option String → Option ChallengeDraft → Type 0
Fits none none = Unit
Fits none (some c) = ⊥
Fits (some id) none = truthy id ≡ true
Fits (some id) (some c) = (truthy id ≡ true) × (some id ≡ c.id) × IsPriced c

pub record RoadIsFull (r : RoadDraft) : Type 0 where
  pub has_id : truthy r.id ≡ true
  pub has_a : truthy r.waypoint_id_a ≡ true
  pub has_b : truthy r.waypoint_id_b ≡ true
  pub fits : Fits r.challenge_id r.challenge

-- A challenge with a UUID and its prices, on a waypoint that is not the finish; neither the waypoint
-- nor the challenge has an id of a road or of a road's challenge.
pub record EntryIsFull (d : EditorDraft) (e : String × ChallengeDraft) : Type 0 where
  pub has_key : truthy e.0 ≡ true
  pub is_active : includes e.0 (challengeable d.waypoints) ≡ true
  pub has_uuid : is_uuid e.1.id ≡ true
  pub priced : IsPriced e.1
  pub no_road : any (λ r. r.id == e.0) d.roads ≡ false
  pub no_road_challenge : any (λ r. has_text (text_of e.1.id) r.challenge_id) d.roads ≡ false

-- No two roads name one challenge.
abbrev pub OwnChallenges : List RoadDraft → Type 0
OwnChallenges [] = Unit
OwnChallenges (r ∷ rs) =
    ((id : String) → r.challenge_id ≡ some id → any (λ s. has_text id s.challenge_id) rs ≡ false)
    × OwnChallenges rs

pub record IsFull (d : EditorDraft) : Type 0 where
  pub has_name : truthy d.board_name ≡ true
  pub waypoints_full : All WaypointIsFull d.waypoints
  pub roads_full : All RoadIsFull d.roads
  pub same_ids :
      All (λ r. All (λ q. (q.id == r.id) ≡ true → q.challenge_id ≡ r.challenge_id) d.roads) d.roads
  pub own_challenges : OwnChallenges d.roads
  pub entries_full : All (EntryIsFull d) d.challenges
  pub entries_apart : Apart (map (λ e. e.0) d.challenges)
  pub catalog : ensure_default_powerups d.powerups ≡ d.powerups

-- The rows of the file: those of the waypoints, then those of the roads.
abbrev pub waypoint_row : String × ChallengeDraft → ApiChallenge
waypoint_row (w, c) = row_of (text_of c.id) (some w) c

abbrev pub row_of_road : Option ChallengeDraft → Option ApiChallenge
row_of_road none = none
row_of_road (some c) = some (row_of (text_of c.id) none c)

abbrev pub road_row : RoadDraft → Option ApiChallenge
road_row r = row_of_road r.challenge
