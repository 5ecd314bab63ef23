-- ===== src/Board.antt =====
-- The board that a designer edits: frontend/src/core/editor/geometryUtils.ts, its types.
pub mod Route
pub mod Crossing
pub mod Validate
use runway_the_game.Prelude.{ℕ, String, Bool, Option, List}
use runway_the_game.Prelude.Int.{ℤ}

pub record Rubric : Type 0 where
  pub must_show : List String
  pub fails_if : List String
  pub acceptable_ambiguity : String

-- A challenge as the editor holds it; `id` is absent until it has been saved.
pub record ChallengeDraft : Type 0 where
  pub id : Option String
  pub prompt : String
  pub rubric : Rubric
  pub coin_reward : Option ℕ
  pub veto_penalty_seconds : Option ℕ

pub record WaypointDraft : Type 0 where
  pub id : String
  pub name : String
  pub lat : ℤ
  pub lon : ℤ
  pub arrival_radius_m : ℕ
  pub is_start : Bool
  pub is_finish : Bool
  pub challenge : Option ChallengeDraft
  pub coin_reward : Option ℕ

pub record RoadDraft : Type 0 where
  pub id : String
  pub waypoint_id_a : String
  pub waypoint_id_b : String
  pub challenge_id : Option String
  pub challenge : Option ChallengeDraft
