-- ===== src/Projection/Raw.antt =====
-- The snapshot as the server sends it: RawSnapshot of frontend/src/core/projection/projectionStore.ts.
-- A field that the code reads with `?.`, `||` or `??` may be missing, so it is an Option.
use runway_the_game.Prelude.{ℕ, String, Bool, Option, List, Dict}
use runway_the_game.Prelude.Int.{ℤ}
use runway_the_game.Projection.{GameMode, RaceStatus, VerificationMode, Powerup}

pub record RawStanding : Type 0 where
  pub team_id : String
  pub team_name : String
  pub waypoints_reached : ℕ
  pub distance_to_finish : ℕ
  pub coins : Option ℕ
  pub coins_visible : Option Bool
  pub finished : Option Bool
  pub finish_rank : Option ℕ
  pub finish_bonus : Option ℕ

pub record RawClock : Type 0 where
  pub started_at : Option String
  pub finished_at : Option String
  pub time_penalty_seconds : Option ℕ
  pub veto_count : Option ℕ
  pub skip_count : Option ℕ

pub record RawFinisher : Type 0 where
  pub team_id : String
  pub rank : ℕ
  pub bonus_coins : ℕ
  pub finished_at : String

pub record RawCoinRush : Type 0 where
  pub first_finish_at : Option String
  pub deadline : Option String
  pub finishers : Option (List RawFinisher)

pub record RawRuleset : Type 0 where
  pub veto_penalty_min_seconds : Option ℕ
  pub veto_time_penalty_seconds : Option ℕ
  pub coin_rush_countdown_seconds : Option ℕ
  pub coin_rush_finish_bonuses : Option (List ℕ)
  pub verification : Option VerificationMode

pub record RawWaypoint : Type 0 where
  pub id : String
  pub name : String
  pub lat : ℤ
  pub lon : ℤ
  pub arrival_radius_m : ℕ
  pub is_start : Bool
  pub is_finish : Bool
  pub challenge_id : Option String

pub record RawRoad : Type 0 where
  pub id : String
  pub waypoint_id_a : Option String
  pub waypoint_id_b : Option String
  pub waypoint_a : Option String
  pub waypoint_b : Option String
  pub challenge_id : Option String
  pub length_m : ℕ

pub record RawBoard : Type 0 where
  pub id : Option String
  pub name : Option String
  pub waypoints : Option (List RawWaypoint)
  pub roads : Option (List RawRoad)

pub record RawTeam : Type 0 where
  pub name : String
  pub slot_index : ℕ

pub record RawWaypointState : Type 0 where
  pub cleared_by : Option (Dict Bool)
  pub bypassed : Option (Dict Bool)

pub record RawRoadState : Type 0 where
  pub completed_by : Option String
  pub bypassed_teams : Option (List String)
  pub bypassed : Option (Dict Bool)

pub record RawPosition : Type 0 where
  pub lat : ℤ
  pub lon : ℤ
  pub accuracy_m : ℕ
  pub reported_at : String

pub record RawEffect : Type 0 where
  pub kind : String
  pub until : String
  pub meta : Option String

pub record RawRoadblock : Type 0 where
  pub road_id : String
  pub placed_by : String
  pub card_id : Option String
  pub challenge_text : String
  pub cleared_by : Option (Dict Bool)

pub record RawDispute : Type 0 where
  pub verdict_id : String
  pub by_team_id : String
  pub objection : String
  pub status : String
  pub source : String

pub record RawProgress : Type 0 where
  pub current_waypoint_id : String
  pub traversed_roads : Option (List String)
  pub cleared_waypoints : Option (List String)
  pub reached_finish : Bool

pub record RawSubmission : Type 0 where
  pub submission_id : String
  pub team_id : String
  pub waypoint_id : Option String
  pub road_id : Option String
  pub challenge_id : String
  pub blob_ref : String
  pub status : String
  pub confidence : ℕ
  pub rationale : String
  pub source : Option VerificationMode
  pub created_at : String

pub record RawSnapshot : Type 0 where
  pub game_id : String
  pub status : Option RaceStatus
  pub mode : Option GameMode
  pub clock : Option RawClock
  pub coin_rush : Option RawCoinRush
  pub rules : Option RawRuleset
  pub board : Option RawBoard
  pub teams : Option (Dict RawTeam)
  pub waypoint_states : Option (Dict RawWaypointState)
  pub road_states : Option (Dict RawRoadState)
  pub positions : Option (Dict RawPosition)
  pub coins : Option (Dict ℕ)
  pub inventory : Option (Dict (List Powerup))
  pub effects : Option (Dict (Option (List RawEffect)))
  pub roadblocks : Option (Dict RawRoadblock)
  pub standings_list : Option (List RawStanding)
  pub standings : Option (List RawStanding)
  pub winner : Option String
  pub public_log : Option (List String)
  pub last_sequence : Option ℕ
  pub disputes : Option (Dict RawDispute)
  pub progress : Option (Dict RawProgress)
  pub submissions : Option (Dict RawSubmission)
