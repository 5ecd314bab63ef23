-- ===== src/Editor/Wire.antt =====
-- The board on the wire: frontend/src/core/api/board.ts, and buildBoardPayload of
-- frontend/src/surfaces/editor/boardDraft.ts. The k-th call of generateUUID returns `uuid k`.
use Prim.Native.Char.{code}
use runway_the_game.Prelude.{
  ℕ, suc, String, Bool, false, ◌&&◌, ◌||◌, not, Option, none, some, List, [], ◌∷◌, ◌++◌, map,
  filter, includes, eqb, Dict, lookup, insert, truthy, or_default, if◌then◌else◌,
}
use runway_the_game.Prelude.Int.{ℤ}
use runway_the_game.Board.{WaypointDraft, RoadDraft, ChallengeDraft, Rubric}
use runway_the_game.Editor.{
  EditorDraft, CardDraft, PowerupDraft, RulesetDraft, default_arrival_radius_m, default_coin_reward,
  default_veto_penalty_seconds,
}

pub record ApiWaypoint : Type 0 where
  pub id : String
  pub name : String
  pub lat : ℤ
  pub lon : ℤ
  pub arrival_radius_m : ℕ
  pub is_start : Bool
  pub is_finish : Bool
  pub challenge_id : Option String

pub record ApiRoad : Type 0 where
  pub id : String
  pub waypoint_id_a : Option String
  pub waypoint_id_b : Option String
  pub waypoint_a : Option String
  pub waypoint_b : Option String
  pub challenge_id : Option String
  pub length_m : ℕ

pub record ApiChallenge : Type 0 where
  pub id : String
  pub waypoint_id : Option String
  pub road_id : Option String
  pub prompt : String
  pub rubric : Rubric
  pub coin_reward : ℕ
  pub veto_penalty_seconds : ℕ

pub record BoardPayload : Type 0 where
  pub name : String
  pub waypoints : List ApiWaypoint
  pub roads : List ApiRoad
  pub challenges : List ApiChallenge
  pub roadblock_cards : List CardDraft
  pub curse_cards : List CardDraft
  pub powerups : List PowerupDraft
  pub powerup_costs : Dict ℕ

-- `a || b` on optional texts.
abbrev pub or_some : Option String → Option String → Option String
or_some none b = b
or_some (some a) b = if truthy a then some a else b

-- `n || d`
abbrev pub or_number : ℕ → ℕ → ℕ
or_number n d = if eqb n 0 then d else n

abbrev text_length : String → ℕ
text_length String.[] = 0
text_length (String.◌∷◌ c s) = suc (text_length s)

abbrev has_dash : String → Bool
has_dash String.[] = false
has_dash (String.◌∷◌ c s) = eqb (code c) b'-' || has_dash s

abbrev pub is_uuid : Option String → Bool
is_uuid none = false
is_uuid (some id) = truthy id && eqb (text_length id) 36 && has_dash id

abbrev pub challengeable : List WaypointDraft → List String
challengeable ws = map (λ w. w.id) (filter (λ w. not w.is_finish) ws)

unfoldable pub active_challenge_entries : EditorDraft → List (String × ChallengeDraft)
active_challenge_entries d = filter (λ e. includes e.0 (challengeable d.waypoints)) d.challenges

abbrev pub row_of : String → Option String → ChallengeDraft → ApiChallenge
row_of id waypoint_id c = record {
  id = id;
  waypoint_id = waypoint_id;
  road_id = none;
  prompt = c.prompt;
  rubric = c.rubric;
  coin_reward = or_default c.coin_reward default_coin_reward;
  veto_penalty_seconds = or_default c.veto_penalty_seconds default_veto_penalty_seconds;
}

-- What the loops have built: the rows, the ids by waypoint or by road, and the calls of generateUUID.
pub record Building : Type 0 where
  pub rows : List ApiChallenge
  pub chosen : Dict String
  pub calls : ℕ

abbrev pub push_row : String → String → ApiChallenge → ℕ → Building → Building
push_row key id row calls b = record {
  rows = b.rows ++ row ∷ [];
  chosen = insert key id b.chosen;
  calls = calls;
}

abbrev pub text_of : Option String → String
text_of none = ""
text_of (some s) = s

costs_after : List PowerupDraft → Dict ℕ → Dict ℕ
costs_after [] d = d
costs_after (p ∷ ps) d = costs_after ps (insert p.id p.cost d)

pub derive_powerup_costs : List PowerupDraft → Dict ℕ
unfolding costs_after
derive_powerup_costs ps = costs_after ps []

module _ (uuid : ℕ → String) where
  abbrev pub push_waypoint_row : String → ChallengeDraft → Building → Building
  push_waypoint_row w c b =
      if is_uuid c.id
      then push_row w (text_of c.id) (row_of (text_of c.id) (some w) c) b.calls b
      else push_row w (uuid b.calls) (row_of (uuid b.calls) (some w) c) (suc b.calls) b

  unfoldable pub waypoint_rows : List (String × ChallengeDraft) → Building → Building
  waypoint_rows [] b = b
  waypoint_rows ((w, c) ∷ entries) b = waypoint_rows entries (push_waypoint_row w c b)

  -- `road.challenge.id || road.challenge_id || generateUUID()`
  abbrev pub push_road_row : String → Option String → ChallengeDraft → Building → Building
  push_road_row road kept c b = elim (or_some c.id (or_some kept none)) [
    | some id ↦ push_row road id (row_of id none c) b.calls b
    | none ↦ push_row road (uuid b.calls) (row_of (uuid b.calls) none c) (suc b.calls) b
  ]

  unfoldable pub road_rows : List RoadDraft → Building → Building
  road_rows [] b = b
  road_rows (r ∷ roads) b =
      road_rows roads
        (elim r.challenge [ none ↦ b | some c ↦ push_road_row r.id r.challenge_id c b ])

  abbrev pub wire_waypoint : Dict String → WaypointDraft → ApiWaypoint
  wire_waypoint chosen w = record {
    id = w.id;
    name = w.name;
    lat = w.lat;
    lon = w.lon;
    arrival_radius_m = or_number w.arrival_radius_m default_arrival_radius_m;
    is_start = w.is_start;
    is_finish = w.is_finish;
    challenge_id = lookup w.id chosen;
  }

  abbrev pub wire_road : Dict String → RoadDraft → ApiRoad
  wire_road chosen r = record {
    id = r.id;
    waypoint_id_a = some r.waypoint_id_a;
    waypoint_id_b = some r.waypoint_id_b;
    waypoint_a = some r.waypoint_id_a;
    waypoint_b = some r.waypoint_id_b;
    challenge_id = or_some (lookup r.id chosen) (or_some r.challenge_id none);
    length_m = 1000;
  }

  abbrev pub no_rows : Building
  no_rows = record { rows = []; chosen = []; calls = 0 }

  unfoldable pub build_board_payload : EditorDraft → BoardPayload
  unfolding active_challenge_entries waypoint_rows road_rows derive_powerup_costs
  build_board_payload d =
      let at_waypoints = waypoint_rows (active_challenge_entries d) no_rows in
      let at_roads = road_rows d.roads (record at_waypoints { chosen = [] }) in
      record {
        name = d.board_name;
        waypoints = map (wire_waypoint at_waypoints.chosen) d.waypoints;
        roads = map (wire_road at_roads.chosen) d.roads;
        challenges = at_roads.rows;
        roadblock_cards = d.roadblock_cards;
        curse_cards = d.curse_cards;
        powerups = d.powerups;
        powerup_costs = derive_powerup_costs d.powerups;
      }

  -- The save payload with the ruleset, which the server does not store.
  unfoldable pub build_export_file : EditorDraft → BoardPayload × RulesetDraft
  unfolding build_board_payload
  build_export_file d = (build_board_payload d, d.rules)
