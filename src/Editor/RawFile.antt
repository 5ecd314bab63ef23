-- ===== src/Editor/RawFile.antt =====
-- The types of an imported file in frontend/src/surfaces/editor/boardDraft.ts. A field that is
-- missing, or not of its type, is `none`.
use runway_the_game.Prelude.{ℕ, String, Bool, Option, List, Dict}
use runway_the_game.Prelude.Int.{ℤ}
use runway_the_game.Board.{ChallengeDraft}
use runway_the_game.Editor.{CardDraft, PowerupDraft, RulesetDraft}

pub record RawWaypoint : Type 0 where
  pub id : Option String
  pub name : Option String
  pub lat : Option ℤ
  pub lon : Option ℤ
  pub arrival_radius_m : Option ℕ
  pub arrival_radius_m_camel : Option ℕ
  pub is_start : Option Bool
  pub is_start_camel : Option Bool
  pub is_finish : Option Bool
  pub is_finish_camel : Option Bool
  pub challenge_id : Option String
  pub challenge_id_camel : Option String

pub record RawRoad : Type 0 where
  pub id : Option String
  pub waypoint_id_a : Option String
  pub waypoint_a : Option String
  pub waypoint_id_a_camel : Option String
  pub waypoint_id_b : Option String
  pub waypoint_b : Option String
  pub waypoint_id_b_camel : Option String
  pub challenge_id : Option String
  pub challenge_id_camel : Option String

pub record RawRubric : Type 0 where
  pub must_show : Option (List String)
  pub fails_if : Option (List String)
  pub acceptable_ambiguity : Option String

pub record RawChallenge : Type 0 where
  pub id : Option String
  pub prompt : Option String
  pub rubric : Option RawRubric
  pub coin_reward : Option ℕ
  pub veto_penalty_seconds : Option ℕ
  pub waypoint_id : Option String
  pub waypoint_id_camel : Option String
  pub road_id : Option String

-- A list of rows, an object by waypoint, or neither.
pub data RawChallenges : Type 0 where
  absent : RawChallenges
  rows : List RawChallenge → RawChallenges
  keyed : Dict ChallengeDraft → RawChallenges

pub record RawBoardFile : Type 0 where
  pub name : Option String
  pub waypoints : Option (List RawWaypoint)
  pub roads : Option (List RawRoad)
  pub challenges : RawChallenges
  pub roadblock_cards : Option (List CardDraft)
  pub roadblock_cards_camel : Option (List CardDraft)
  pub roadblock_deck : Option (List CardDraft)
  pub curse_cards : Option (List CardDraft)
  pub curse_cards_camel : Option (List CardDraft)
  pub curse_deck : Option (List CardDraft)
  pub powerups : Option (List PowerupDraft)
  pub powerup_costs : Option (Dict ℕ)
  pub rules : Option RulesetDraft
