-- ===== src/Projection.antt =====
-- The live race state: the types of frontend/src/core/projection/projectionStore.ts and its helpers
-- on clocks, roadblocks and modes. A record keyed by ids is a Dict. Timestamps are ISO texts;
-- `Date.parse` is the parameter `parse_date`, with `none` for NaN. Coordinates and lengths are only
-- carried, as integers.
pub mod Raw
pub mod Snapshot
pub mod Store
use runway_the_game.Prelude.{
  ℕ, ◌+◌, ◌-◌, ◌/◌, String, ◌==◌, Bool, false, true, ◌||◌, not, Option, none, some, List, [], ◌∷◌,
  any, Dict, values, ltb, truthy, if◌then◌else◌,
}
use runway_the_game.Prelude.Int.{ℤ}

pub record Waypoint : Type 0 where
  pub id : String
  pub name : String
  pub lat : ℤ
  pub lon : ℤ
  pub arrival_radius_m : ℕ
  pub is_start : Bool
  pub is_finish : Bool
  pub challenge_id : String

pub data LockState : Type 0 where
  locked open_road bypassed : LockState

pub record Road : Type 0 where
  pub id : String
  pub waypoint_a : String
  pub waypoint_b : String
  pub challenge_id : String
  pub lock_state : LockState
  pub completed_by : Option String
  pub length_m : ℕ

pub record RaceStanding : Type 0 where
  pub team_id : String
  pub team_name : String
  pub waypoints_reached : ℕ
  pub distance_to_finish_m : ℕ
  pub coins : Option ℕ
  pub coins_visible : Bool
  pub finished : Bool
  pub finish_rank : ℕ
  pub finish_bonus : ℕ

pub record TeamInfo : Type 0 where
  pub name : String
  pub slot_index : ℕ

pub data Powerup : Type 0 where
  nerf roadblock tracker_off curse challenge_skip : Powerup

pub record Curse : Type 0 where
  pub id : String
  pub card_id : String
  pub text : String

pub record TeamEffects : Type 0 where
  pub frozen_until : Option String
  pub tracker_off_until : Option String
  pub veto_penalty_until : Option String
  pub curses : List Curse

pub record Roadblock : Type 0 where
  pub road_id : String
  pub placed_by : String
  pub card_id : String
  pub challenge_text : String
  pub cleared_by : Dict Bool

-- `Object.values(r).some(Boolean)`
abbrev pub some_true : Dict Bool → Bool
some_true d = any (λ b. b) (values d)

-- Returns true if a placed roadblock blocks the specified team.
abbrev pub roadblock_blocks_team : Option Roadblock → String → Bool
roadblock_blocks_team none team_id = false
roadblock_blocks_team (some rb) team_id =
    if rb.placed_by == team_id then false else not (some_true rb.cleared_by)

pub data DisputeStatus : Type 0 where
  pending upheld overturned : DisputeStatus

pub record DisputeInfo : Type 0 where
  pub verdict_id : String
  pub by_team_id : String
  pub objection : String
  pub status : DisputeStatus
  pub source : String

pub record TeamProgress : Type 0 where
  pub current_waypoint_id : String
  pub traversed_roads : List String
  pub cleared_waypoints : List String
  pub reached_finish : Bool

pub data VerificationMode : Type 0 where
  llm host trust : VerificationMode

-- `status` is cast from the wire unchecked, so it is a text. `source` is empty while pending.
pub record SubmissionInfo : Type 0 where
  pub submission_id : String
  pub team_id : String
  pub waypoint_id : String
  pub road_id : String
  pub challenge_id : String
  pub blob_ref : String
  pub status : String
  pub confidence : ℕ
  pub rationale : String
  pub source : Option VerificationMode
  pub created_at : String

abbrev pub graded_by_model : VerificationMode → Bool
graded_by_model llm = true
graded_by_model _ = false

pub data ConnectionState : Type 0 where
  connecting connected disconnected catching_up : ConnectionState

pub data GameMode : Type 0 where
  team solo_time_trial solo_casual coin_rush : GameMode

abbrev pub is_solo_mode : GameMode → Bool
is_solo_mode solo_time_trial = true
is_solo_mode solo_casual = true
is_solo_mode _ = false

abbrev pub is_coin_rush : GameMode → Bool
is_coin_rush coin_rush = true
is_coin_rush _ = false

pub record RunClock : Type 0 where
  pub started_at : Option String
  pub finished_at : Option String
  pub time_penalty_seconds : ℕ
  pub veto_count : ℕ
  pub skip_count : ℕ

-- An option that holds an empty text is falsy too.
abbrev pub present : Option String → Option String
present none = none
present (some s) = if s == "" then none else some s

-- Elapsed seconds; `none` stands for NaN, from a timestamp that does not parse. A difference below 0
-- is clamped to 0 in the source.
unfoldable pub elapsed_seconds : (String → Option ℕ) → RunClock → ℕ → Option ℕ
elapsed_seconds parse_date clock now_ms = elim (present clock.started_at) [
  | none ↦ some 0
  | some started ↦ elim (parse_date started) [
    | none ↦ none
    | some start ↦ elim (present clock.finished_at) [
      | none ↦ some ((now_ms - start) / 1000 + clock.time_penalty_seconds)
      | some finished ↦ elim (parse_date finished) [
        | none ↦ none
        | some end ↦ some ((end - start) / 1000 + clock.time_penalty_seconds)
      ]
    ]
  ]
]

pub record RulesetView : Type 0 where
  pub veto_penalty_min_seconds : ℕ
  pub veto_time_penalty_seconds : ℕ
  pub coin_rush_countdown_seconds : ℕ
  pub coin_rush_finish_bonuses : List ℕ
  pub verification : VerificationMode

pub record CoinRushFinisher : Type 0 where
  pub team_id : String
  pub rank : ℕ
  pub bonus_coins : ℕ
  pub finished_at : String

pub record CoinRushView : Type 0 where
  pub first_finish_at : Option String
  pub deadline : Option String
  pub finishers : List CoinRushFinisher

pub data RaceStatus : Type 0 where
  draft live ended : RaceStatus

pub record Position : Type 0 where
  pub lat : ℤ
  pub lon : ℤ
  pub accuracy : ℕ
  pub reported_at : String

pub record WaypointState : Type 0 where
  pub cleared_by : Dict Bool
  pub bypassed : Dict Bool

pub record GameState : Type 0 where
  pub board_id : Option String
  pub board_name : String
  pub game_id : Option String
  pub mode : GameMode
  pub clock : RunClock
  pub coin_rush : Option CoinRushView
  pub rules : RulesetView
  pub state : RaceStatus
  pub waypoints : List Waypoint
  pub roads : List Road
  pub teams : Dict TeamInfo
  pub standings : List RaceStanding
  pub positions : Dict Position
  pub coins : Dict ℕ
  pub inventory : Dict (List Powerup)
  pub effects : Dict TeamEffects
  pub roadblocks : Dict Roadblock
  pub waypoint_states : Dict WaypointState
  pub winner : Option String
  pub disputes : Dict DisputeInfo
  pub progress : Dict TeamProgress
  pub submissions : Dict SubmissionInfo
  pub logs : List String
  pub last_sequence : ℕ
  pub connection : ConnectionState

abbrev pub empty_clock : RunClock
empty_clock = record {
  started_at = none;
  finished_at = none;
  time_penalty_seconds = 0;
  veto_count = 0;
  skip_count = 0;
}

abbrev pub default_ruleset_view : RulesetView
default_ruleset_view = record {
  veto_penalty_min_seconds = 900;
  veto_time_penalty_seconds = 900;
  coin_rush_countdown_seconds = 1800;
  coin_rush_finish_bonuses = 150 ∷ 100 ∷ 60 ∷ 30 ∷ [];
  verification = llm;
}

abbrev pub initial_game_state : GameState
initial_game_state = record {
  board_id = none;
  board_name = "";
  game_id = none;
  mode = team;
  clock = empty_clock;
  coin_rush = none;
  rules = default_ruleset_view;
  state = draft;
  waypoints = [];
  roads = [];
  teams = [];
  standings = [];
  positions = [];
  coins = [];
  inventory = [];
  effects = [];
  roadblocks = [];
  waypoint_states = [];
  winner = none;
  disputes = [];
  progress = [];
  submissions = [];
  logs = [];
  last_sequence = 0;
  connection = disconnected;
}
