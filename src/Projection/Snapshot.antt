-- ===== src/Projection/Snapshot.antt =====
-- applySnapshot of frontend/src/core/projection/projectionStore.ts: the wire snapshot, field by field.
-- `session_team` is what loadTeamSession finds in local storage: the team id of this device's
-- session for a game.
pub mod Laws
mod Tests
use text.Mathlib.Text.{starts_with}
use runway_the_game.Prelude.{
  ℕ, String, ◌==◌, Bool, true, false, ◌||◌, Option, none, some, List, [], ◌∷◌, ◌++◌, map, any,
  includes, Dict, lookup, ltb, truthy, or_text, or_default, if◌then◌else◌,
}
use runway_the_game.Projection.{
  Waypoint, LockState, locked, open_road, bypassed, Road, RaceStanding, TeamInfo, Curse,
  TeamEffects, Roadblock, DisputeStatus, pending, upheld, overturned, DisputeInfo, TeamProgress,
  SubmissionInfo, GameMode, RunClock, present, RulesetView, CoinRushFinisher, CoinRushView,
  RaceStatus, Position, WaypointState, GameState, default_ruleset_view,
}
use runway_the_game.Projection.Raw.{
  RawStanding, RawClock, RawFinisher, RawCoinRush, RawRuleset, RawWaypoint, RawRoad, RawBoard,
  RawTeam, RawWaypointState, RawRoadState, RawPosition, RawEffect, RawRoadblock, RawDispute,
  RawProgress, RawSubmission, RawSnapshot,
}

-- `Object.entries(d).forEach(([k, v]) => { out[k] = f(v) })`
abbrev pub map_values : {A B : Type 0} → (A → B) → Dict A → Dict B
map_values f d = map (λ e. (e.0, f e.1)) d

abbrev or_empty : {A : Type 0} → Option (List A) → List A
or_empty o = or_default o []

-- `s || ''`
abbrev pub or_blank : Option String → String
or_blank o = or_default o ""

map_waypoint : RawWaypoint → Waypoint
map_waypoint w = record {
  id = w.id;
  name = w.name;
  lat = w.lat;
  lon = w.lon;
  arrival_radius_m = w.arrival_radius_m;
  is_start = w.is_start;
  is_finish = w.is_finish;
  challenge_id = or_blank w.challenge_id;
}

-- `d?.[k]`, falsy when missing
abbrev pub has_true : Option (Dict Bool) → String → Bool
has_true none k = false
has_true (some d) k = or_default (lookup k d) false

-- A road's lock as this device's team sees it.
pub lock_of : Option String → Option RawRoadState → LockState
lock_of team_id none = locked
lock_of team_id (some state) = elim (present state.completed_by) [
  | some _ ↦ open_road
  | none ↦ elim (present team_id) [
    | none ↦ locked
    | some t ↦
        if includes t (or_empty state.bypassed_teams) || has_true state.bypassed t
        then bypassed
        else locked
  ]
]

abbrev road_state : RawSnapshot → String → Option RawRoadState
road_state raw id = elim raw.road_states [ none ↦ none | some d ↦ lookup id d ]

abbrev completed_by_of : Option RawRoadState → Option String
completed_by_of none = none
completed_by_of (some s) = present s.completed_by

map_road : Option String → RawSnapshot → RawRoad → Road
unfolding lock_of
map_road team_id raw s = record {
  id = s.id;
  waypoint_a = or_text (or_blank s.waypoint_id_a) (or_blank s.waypoint_a);
  waypoint_b = or_text (or_blank s.waypoint_id_b) (or_blank s.waypoint_b);
  challenge_id = or_blank s.challenge_id;
  lock_state = lock_of team_id (road_state raw s.id);
  completed_by = completed_by_of (road_state raw s.id);
  length_m = s.length_m;
}

map_standing : RawStanding → RaceStanding
map_standing s =
    let coins_visible = or_default s.coins_visible true in
    record {
      team_id = s.team_id;
      team_name = s.team_name;
      waypoints_reached = s.waypoints_reached;
      distance_to_finish_m = s.distance_to_finish;
      coins = if coins_visible then some (or_default s.coins 0) else none;
      coins_visible = coins_visible;
      finished = or_default s.finished false;
      finish_rank = or_default s.finish_rank 0;
      finish_bonus = or_default s.finish_bonus 0;
    }

abbrev pub empty_effects : TeamEffects
empty_effects = record {
  frozen_until = none;
  tracker_off_until = none;
  veto_penalty_until = none;
  curses = [];
}

-- `raw.standings_list || raw.standings || []`
abbrev standings_rows : RawSnapshot → List RawStanding
standings_rows raw = elim raw.standings_list [ some rows ↦ rows | none ↦ or_empty raw.standings ]

map_roadblock : String → RawRoadblock → Roadblock
map_roadblock road_id rb = record {
  road_id = or_text rb.road_id road_id;
  placed_by = rb.placed_by;
  card_id = or_blank rb.card_id;
  challenge_text = rb.challenge_text;
  cleared_by = or_default rb.cleared_by [];
}

map_dispute : RawDispute → DisputeInfo
map_dispute d = record {
  verdict_id = d.verdict_id;
  by_team_id = d.by_team_id;
  objection = d.objection;
  status =
      if d.status == "upheld"
      then upheld
      else if d.status == "overturned"
      then overturned
      else pending;
  source = d.source;
}

map_progress : RawProgress → TeamProgress
map_progress p = record {
  current_waypoint_id = p.current_waypoint_id;
  traversed_roads = or_empty p.traversed_roads;
  cleared_waypoints = or_empty p.cleared_waypoints;
  reached_finish = p.reached_finish;
}

map_submission : RawSubmission → SubmissionInfo
map_submission s = record {
  submission_id = s.submission_id;
  team_id = s.team_id;
  waypoint_id = or_text (or_blank s.waypoint_id) (or_blank s.road_id);
  road_id = or_blank s.road_id;
  challenge_id = s.challenge_id;
  blob_ref = s.blob_ref;
  status = s.status;
  confidence = s.confidence;
  rationale = s.rationale;
  source = s.source;
  created_at = s.created_at;
}

-- String.prototype.includes
contains_text : String → String → Bool
contains_text part String.[] = starts_with String.[] part
contains_text part (String.◌∷◌ c s) = starts_with (String.◌∷◌ c s) part || contains_text part s

-- Derives game state from raw status or log fallback.
derive_state : Option RaceStatus → List String → RaceStatus
unfolding contains_text
derive_state (some status) logs = status
derive_state none logs =
    if any (contains_text "Game ended") logs
    then RaceStatus.ended
    else if any (contains_text "Game started") logs
    then RaceStatus.live
    else RaceStatus.draft

map_clock : Option RawClock → RunClock
map_clock none = record {
  started_at = none;
  finished_at = none;
  time_penalty_seconds = 0;
  veto_count = 0;
  skip_count = 0;
}
map_clock (some c) = record {
  started_at = present c.started_at;
  finished_at = present c.finished_at;
  time_penalty_seconds = or_default c.time_penalty_seconds 0;
  veto_count = or_default c.veto_count 0;
  skip_count = or_default c.skip_count 0;
}

map_ruleset : Option RawRuleset → RulesetView
map_ruleset none = default_ruleset_view
map_ruleset (some r) = record {
  veto_penalty_min_seconds =
      or_default r.veto_penalty_min_seconds default_ruleset_view.veto_penalty_min_seconds;
  veto_time_penalty_seconds =
      or_default r.veto_time_penalty_seconds default_ruleset_view.veto_time_penalty_seconds;
  coin_rush_countdown_seconds =
      or_default r.coin_rush_countdown_seconds default_ruleset_view.coin_rush_countdown_seconds;
  coin_rush_finish_bonuses =
      or_default r.coin_rush_finish_bonuses default_ruleset_view.coin_rush_finish_bonuses;
  verification = or_default r.verification default_ruleset_view.verification;
}

map_finisher : RawFinisher → CoinRushFinisher
map_finisher f = record {
  team_id = f.team_id;
  rank = f.rank;
  bonus_coins = f.bonus_coins;
  finished_at = f.finished_at;
}

map_coin_rush : RawCoinRush → CoinRushView
unfolding map_finisher
map_coin_rush c = record {
  first_finish_at = present c.first_finish_at;
  deadline = present c.deadline;
  finishers = map map_finisher (or_empty c.finishers);
}

map_position : RawPosition → Position
map_position p = record {
  lat = p.lat;
  lon = p.lon;
  accuracy = p.accuracy_m;
  reported_at = p.reported_at;
}

map_waypoint_state : RawWaypointState → WaypointState
map_waypoint_state s = record {
  cleared_by = or_default s.cleared_by [];
  bypassed = or_default s.bypassed [];
}

map_team : RawTeam → TeamInfo
map_team t = record { name = t.name; slot_index = t.slot_index }

abbrev option_map : {A B : Type 0} → (A → B) → Option A → Option B
option_map f none = none
option_map f (some a) = some (f a)

module _ (parse_date : String → Option ℕ) where
  -- `Date.parse(candidate) > Date.parse(current)`; a comparison with NaN is false.
  later : String → String → Bool
  later candidate current = elim (parse_date candidate) [
    | none ↦ false
    | some c ↦ elim (parse_date current) [ none ↦ false | some t ↦ ltb t c ]
  ]

  pub later_of : Option String → String → String
  unfolding later
  later_of current candidate = elim (present current) [
    | none ↦ candidate
    | some t ↦ if later candidate t then candidate else t
  ]

  -- One row of a team's effects.
  pub apply_effect : TeamEffects → RawEffect → TeamEffects
  apply_effect view row =
      if row.kind == "freeze"
      then record view { frozen_until = some (later_of view.frozen_until row.until) }
      else if row.kind == "tracker_off"
      then record view { tracker_off_until = some (later_of view.tracker_off_until row.until) }
      else if row.kind == "veto_penalty"
      then record view { veto_penalty_until = some (later_of view.veto_penalty_until row.until) }
      else if row.kind == "curse"
      then record view {
        curses =
            view.curses
            ++ record { id = or_blank row.meta; card_id = or_blank row.meta; text = "" } ∷ [];
      }
      else view

  pub apply_effects : TeamEffects → List RawEffect → TeamEffects
  unfolding apply_effect
  apply_effects view [] = view
  apply_effects view (row ∷ rows) = apply_effects (apply_effect view row) rows

  map_effects : Option (List RawEffect) → TeamEffects
  unfolding apply_effects
  map_effects rows = apply_effects empty_effects (or_empty rows)

  module _ (session_team : String → Option String) where
    -- `raw.game_id || this.state.gameId`
    abbrev pub game_of : RawSnapshot → GameState → Option String
    game_of raw state = if raw.game_id == "" then state.game_id else some raw.game_id

    -- `gameId ? loadTeamSession(gameId)?.teamId : null`
    abbrev pub team_of : RawSnapshot → GameState → Option String
    team_of raw state = elim (present (game_of raw state)) [
      | none ↦ none
      | some id ↦ session_team id
    ]

    abbrev board_waypoints : RawSnapshot → List RawWaypoint
    board_waypoints raw = elim raw.board [ none ↦ [] | some b ↦ or_empty b.waypoints ]

    abbrev board_roads : RawSnapshot → List RawRoad
    board_roads raw = elim raw.board [ none ↦ [] | some b ↦ or_empty b.roads ]

    pub apply_snapshot : RawSnapshot → GameState → GameState
    unfolding map_waypoint map_road map_standing map_effects map_roadblock map_dispute map_progress
        map_submission derive_state map_clock map_ruleset map_coin_rush map_position
        map_waypoint_state map_team
    apply_snapshot raw state = record state {
      board_id = elim raw.board [ none ↦ none | some b ↦ present b.id ];
      board_name = elim raw.board [ none ↦ "" | some b ↦ or_blank b.name ];
      game_id = game_of raw state;
      mode = or_default raw.mode GameMode.team;
      clock = map_clock raw.clock;
      coin_rush = option_map map_coin_rush raw.coin_rush;
      rules = map_ruleset raw.rules;
      state = derive_state raw.status (or_empty raw.public_log);
      waypoints = map map_waypoint (board_waypoints raw);
      roads = map (map_road (team_of raw state) raw) (board_roads raw);
      teams = map_values map_team (or_default raw.teams []);
      standings = map map_standing (standings_rows raw);
      positions = map_values map_position (or_default raw.positions []);
      coins = or_default raw.coins [];
      inventory = or_default raw.inventory [];
      effects = map_values map_effects (or_default raw.effects []);
      roadblocks = map (λ e. (e.0, map_roadblock e.0 e.1)) (or_default raw.roadblocks []);
      waypoint_states = map_values map_waypoint_state (or_default raw.waypoint_states []);
      winner = present raw.winner;
      disputes = map_values map_dispute (or_default raw.disputes []);
      progress = map_values map_progress (or_default raw.progress []);
      submissions = map_values map_submission (or_default raw.submissions []);
      logs = or_empty raw.public_log;
      last_sequence = or_default raw.last_sequence 0;
    }
