-- ===== src/Editor.antt =====
-- What a designer edits: EditorDraft of frontend/src/surfaces/editor/boardDraft.ts, with the
-- waypoints, roads and challenges of Board. Its children are the powerups, the waypoint editing, and
-- the forms in which a board is saved, loaded, exported and imported.
pub mod Powerups
pub mod Editing
pub mod Wire
pub mod RawFile
pub mod Import
pub mod Loading
use runway_the_game.Prelude.{ℕ, String, Bool, true, Option, List, [], Dict}
use runway_the_game.Board.{WaypointDraft, RoadDraft, ChallengeDraft}

pub record CardDraft : Type 0 where
  pub id : String
  pub text : String

pub data PowerupEffect : Type 0 where
  nerf tracker_off challenge_skip : PowerupEffect

pub record PowerupDraft : Type 0 where
  pub id : String
  pub icon : Option String
  pub name : String
  pub description : String
  pub cost : ℕ
  pub duration_s : ℕ
  pub effect : PowerupEffect

pub record RulesetDraft : Type 0 where
  pub reward_only_first_completer : Bool

pub record EditorDraft : Type 0 where
  pub board_name : String
  pub waypoints : List WaypointDraft
  pub roads : List RoadDraft
  pub challenges : Dict ChallengeDraft
  pub roadblock_cards : List CardDraft
  pub curse_cards : List CardDraft
  pub powerups : List PowerupDraft
  pub rules : RulesetDraft

abbrev pub untitled_map_name : String
untitled_map_name = "Untitled Map"

abbrev pub default_arrival_radius_m : ℕ
default_arrival_radius_m = 25

abbrev pub default_coin_reward : ℕ
default_coin_reward = 20

abbrev pub default_veto_penalty_seconds : ℕ
default_veto_penalty_seconds = 900

abbrev pub default_ruleset : RulesetDraft
default_ruleset = record { reward_only_first_completer = true }
