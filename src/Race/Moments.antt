-- ===== src/Race/Moments.antt =====
-- diffMoments and createMomentTracker of frontend/src/core/game/raceMoments.ts: what changed between
-- two race states that a team should feel, each once. The keys are the source's texts.
pub mod Celebrations
pub mod Rivals
pub mod Difference
pub mod Front
pub mod Best
pub mod Tracker
mod Tests
use runway_the_game.Prelude.{
  ℕ, ◌-◌, ◌≤◌, String, ◌==◌, Bool, true, false, ◌&&◌, ◌||◌, not, Option, none, some, List, [], ◌∷◌,
  ◌++◌, map, filter, find, filter_map, sort_by, includes, add_text, Dict, lookup, values, truthy,
  or_default, leb, eqb, if◌then◌else◌,
}
use Prim.Native.String
use runway_the_game.Projection.{
  Waypoint, Road, GameMode, TeamProgress, SubmissionInfo, WaypointState, GameState, present,
}

pub data CelebrationKind : Type 0 where
  won finished cleared arrived : CelebrationKind

pub record CelebrationMoment : Type 0 where
  pub key : String
  pub kind : CelebrationKind
  pub waypoint_id : Option String
  pub road_id : Option String
  pub coins_gained : ℕ

pub data RivalEventKind : Type 0 where
  nerfed rival_finished rival_won countdown_started rival_opened : RivalEventKind

pub record RivalEvent : Type 0 where
  pub key : String
  pub kind : RivalEventKind
  pub team_id : Option String
  pub waypoint_id : Option String
  pub seconds : Option ℕ

pub record MomentBatch : Type 0 where
  pub celebration : Option CelebrationMoment
  pub rival : List RivalEvent

abbrev pub empty_batch : MomentBatch
empty_batch = record { celebration = none; rival = [] }

abbrev pub priority : CelebrationKind → ℕ
priority won = 4
priority finished = 3
priority cleared = 2
priority arrived = 1

abbrev pub flagged : Dict Bool → String → Bool
flagged d k = or_default (lookup k d) false

abbrev pub is_text : Option String → String → Bool
is_text none t = false
is_text (some s) t = s == t

-- `state.waypointStates[id]?.clearedBy?.[teamId]`, and the same of `bypassed`
abbrev pub cleared_at : GameState → String → String → Bool
cleared_at g id t = elim (lookup id g.waypoint_states) [
  | none ↦ false
  | some s ↦ flagged s.cleared_by t
]

abbrev pub bypassed_at : GameState → String → String → Bool
bypassed_at g id t = elim (lookup id g.waypoint_states) [
  | none ↦ false
  | some s ↦ flagged s.bypassed t
]

-- Waypoints whose challenge this team cleared itself, not ones a rival's clear opened for it.
pub own_clears : GameState → String → List String
own_clears g t = map (λ e. e.0) (filter (λ e. flagged e.1.cleared_by t) g.waypoint_states)

-- The rival whose clear opened this waypoint, if any.
pub opened_by : GameState → String → String → Option String
opened_by g id t = elim (lookup id g.waypoint_states) [
  | none ↦ none
  | some s ↦ elim (find (λ e. e.1 && not (e.0 == t)) s.cleared_by) [
    | none ↦ none
    | some e ↦ some e.0
  ]
]

-- `next.waypoints.find((w) => w.id === id)?.challengeId`, tested for being there
abbrev pub gated : GameState → String → Bool
gated g id = elim (find (λ w. w.id == id) g.waypoints) [
  | none ↦ false
  | some w ↦ truthy w.challenge_id
]

abbrev text_after : String → String → String
text_after a b = String.◌++◌ a b

abbrev celebrate : CelebrationKind → String → Option String → Option String → ℕ → CelebrationMoment
celebrate kind key waypoint_id road_id coins = record {
  key = key;
  kind = kind;
  waypoint_id = waypoint_id;
  road_id = road_id;
  coins_gained = coins;
}

abbrev only_if {ℓ} : {A : Type ℓ} → Bool → A → List A
only_if b a = if b then a ∷ [] else []

-- `Math.max(0, next - prev)` is the truncated difference.
abbrev pub coins_gained : GameState → GameState → String → ℕ
coins_gained prev next t = or_default (lookup t next.coins) 0 - or_default (lookup t prev.coins) 0

abbrev pub by_priority : CelebrationMoment → CelebrationMoment → Bool
by_priority a b = leb (priority b.kind) (priority a.kind)

abbrev pub head? {ℓ} : {A : Type ℓ} → List A → Option A
head? [] = none
head? (x ∷ xs) = some x
