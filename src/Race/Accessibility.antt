-- ===== src/Race/Accessibility.antt =====
-- computeRaceAccessibility of frontend/src/core/map/raceAccessibility.ts: which waypoints and roads
-- are open to a team, or in the preview without one. A Set of ids is a list read by `includes`; the
-- source asks a set only for membership and for being empty.
pub mod Roads
pub mod Monotone
mod Tests
use runway_the_game.Prelude.{
  String, ◌==◌, Bool, true, false, ◌&&◌, ◌||◌, not, Option, none, some, List, [], ◌∷◌, ◌++◌, map,
  filter, find, any, includes, Dict, lookup, insert, values, truthy, or_text, or_default,
  if◌then◌else◌,
}
use runway_the_game.Projection.{
  Waypoint, Road, LockState, locked, open_road, bypassed, Roadblock, SubmissionInfo, TeamProgress,
  WaypointState, GameState, some_true, roadblock_blocks_team, present,
}

pub data RoadRaceStatus : Type 0 where
  accessible cleared roadblocked inaccessible : RoadRaceStatus

pub data WaypointRaceStatus : Type 0 where
  current accessible cleared inaccessible start finish : WaypointRaceStatus

pub record RoadAccessibility : Type 0 where
  pub id : String
  pub status : RoadRaceStatus
  pub is_accessible : Bool

pub record WaypointAccessibility : Type 0 where
  pub id : String
  pub status : WaypointRaceStatus
  pub is_accessible : Bool

pub record RaceAccessibilityResult : Type 0 where
  pub waypoints : Dict WaypointAccessibility
  pub roads : Dict RoadAccessibility

-- `d?.[k]`, falsy when missing
abbrev pub flagged : Dict Bool → String → Bool
flagged d k = or_default (lookup k d) false

abbrev pub progress_of : GameState → Option String → Option TeamProgress
progress_of g none = none
progress_of g (some t) = lookup t g.progress

-- `progress?.currentWaypointId === id`
abbrev pub stands_at : Option TeamProgress → String → Bool
stands_at none id = false
stands_at (some p) id = p.current_waypoint_id == id

abbrev pub passed_waypoints : Option TeamProgress → List String
passed_waypoints none = []
passed_waypoints (some p) = p.cleared_waypoints

-- `sub.waypointId || sub.challengeId`, where it is not empty
abbrev pub submission_target : SubmissionInfo → String
submission_target s = or_text s.waypoint_id s.challenge_id

abbrev pub is_pass : SubmissionInfo → Bool
is_pass s = s.status == "pass" && truthy (submission_target s)

abbrev pub keys_where : (WaypointState → Bool) → Dict WaypointState → List String
keys_where p d = map (λ e. e.0) (filter (λ e. p e.1) d)

-- 1. Identify cleared waypoints
team_cleared : GameState → String → List String
team_cleared g t =
    passed_waypoints (progress_of g (some t))
    ++ (keys_where (λ s. flagged s.cleared_by t || flagged s.bypassed t) g.waypoint_states
        ++ (map submission_target (filter (λ s. s.team_id == t && is_pass s) (values g.submissions))
            ++ map (λ w. w.id)
                (filter
                  (λ w.
                    not (truthy w.challenge_id)
                    && (w.is_start || stands_at (progress_of g (some t)) w.id))
                  g.waypoints)))

all_passed : List TeamProgress → List String
all_passed [] = []
all_passed (p ∷ ps) = p.cleared_waypoints ++ all_passed ps

preview_cleared : GameState → List String
unfolding all_passed
preview_cleared g =
    keys_where (λ s. some_true s.cleared_by || some_true s.bypassed) g.waypoint_states
    ++ (all_passed (values g.progress)
        ++ (map submission_target (filter is_pass (values g.submissions))
            ++ map (λ w. w.id)
                (filter (λ w. not (truthy w.challenge_id) && w.is_start) g.waypoints)))

pub cleared_of : GameState → Option String → List String
unfolding team_cleared preview_cleared
cleared_of g (some t) = team_cleared g t
cleared_of g none = preview_cleared g

-- 2. The start waypoint, or the first, and where the team stands.
abbrev pub start_of : Waypoint → List Waypoint → Waypoint
start_of w ws = or_default (find (λ v. v.is_start) (w ∷ ws)) w

abbrev pub current_of : Option TeamProgress → Waypoint → String
current_of none s = s.id
current_of (some p) s = or_text p.current_waypoint_id s.id

abbrev pub is_none : Option String → Bool
is_none none = true
is_none (some _) = false

abbrev is_empty : List String → Bool
is_empty [] = true
is_empty (_ ∷ _) = false

-- 3. Waypoints that unlock outgoing roads: cleared ones, those that any team cleared, and the start.
pub unlocked_of : GameState → Option String → List String → Waypoint → List String
unlocked_of g active cleared_ids s =
    let opened = cleared_ids ++ keys_where (λ st. some_true st.cleared_by) g.waypoint_states in
    let ungated = if truthy s.challenge_id then opened else opened ++ s.id ∷ [] in
    if is_none active && is_empty ungated then s.id ∷ [] else ungated

abbrev no_keys : Dict Bool → Bool
no_keys [] = true
no_keys (_ ∷ _) = false

-- 4. Road accessibility.
pub is_roadblocked : GameState → Option String → Road → Bool
is_roadblocked g (some t) s = roadblock_blocks_team (lookup s.id g.roadblocks) t
is_roadblocked g none s = elim (lookup s.id g.roadblocks) [
  | none ↦ false
  | some rb ↦ no_keys rb.cleared_by
]

abbrev traversed_roads_of : Option TeamProgress → List String
traversed_roads_of none = []
traversed_roads_of (some p) = p.traversed_roads

abbrev completed_by_team : Road → String → Bool
completed_by_team s t = elim s.completed_by [ none ↦ false | some c ↦ c == t ]

abbrev is_present : Option String → Bool
is_present o = not (is_none (present o))

pub is_traversed : GameState → Option String → Road → Bool
is_traversed g (some t) s =
    includes s.id (traversed_roads_of (progress_of g (some t))) || completed_by_team s t
is_traversed g none s = is_present s.completed_by

abbrev not_locked : LockState → Bool
not_locked locked = false
not_locked open_road = true
not_locked bypassed = true

-- A road is passable if un-gated, bypassed, or completed.
pub gate_open : Road → Bool
gate_open s = not (truthy s.challenge_id) || not_locked s.lock_state

pub road_access : GameState → Option String → List String → List String → Road → RoadAccessibility
road_access g active cleared_ids unlocked s =
    let both = includes s.waypoint_a cleared_ids && includes s.waypoint_b cleared_ids in
    let touches = includes s.waypoint_a unlocked || includes s.waypoint_b unlocked in
    if is_roadblocked g active s
    then record { id = s.id; status = RoadRaceStatus.roadblocked; is_accessible = false }
    else if is_traversed g active s || both && gate_open s
    then record { id = s.id; status = RoadRaceStatus.cleared; is_accessible = true }
    else if touches && gate_open s
    then record { id = s.id; status = RoadRaceStatus.accessible; is_accessible = true }
    else record { id = s.id; status = RoadRaceStatus.inaccessible; is_accessible = false }

abbrev record_all {ℓ} :
    {A : Type 0} {B : Type ℓ} → (A → String) → (A → B) → List A → Dict B → Dict B
record_all key f [] d = d
record_all key f (x ∷ xs) d = record_all key f xs (insert (key x) (f x) d)

abbrev pub road_open : Dict RoadAccessibility → String → Bool
road_open roads id = elim (lookup id roads) [ none ↦ false | some r ↦ r.is_accessible ]

-- 5. Waypoint accessibility.
pub waypoint_access :
    GameState
    → Option String
    → List String
    → String
    → Dict RoadAccessibility
    → Waypoint
    → WaypointAccessibility
waypoint_access g active cleared_ids current_id roads w =
    if current_id == w.id && not (includes w.id cleared_ids)
    then record { id = w.id; status = WaypointRaceStatus.current; is_accessible = true }
    else if includes w.id cleared_ids
    then record { id = w.id; status = WaypointRaceStatus.cleared; is_accessible = true }
    else if w.is_start && is_none active
    then record { id = w.id; status = WaypointRaceStatus.start; is_accessible = true }
    else if any (λ s. road_open roads s.id)
        (filter (λ s. s.waypoint_a == w.id || s.waypoint_b == w.id) g.roads)
    then record {
      id = w.id;
      status = if w.is_finish then WaypointRaceStatus.finish else WaypointRaceStatus.accessible;
      is_accessible = true;
    }
    else record { id = w.id; status = WaypointRaceStatus.inaccessible; is_accessible = false }

-- The result on a board whose waypoints are `w ∷ ws`.
pub result_of : GameState → Option String → Waypoint → List Waypoint → RaceAccessibilityResult
unfolding cleared_of unlocked_of road_access waypoint_access is_roadblocked is_traversed gate_open
result_of g active w ws =
    let cleared_ids = cleared_of g active in
    let s = start_of w ws in
    let unlocked = unlocked_of g active cleared_ids s in
    let roads = record_all (λ r. r.id) (road_access g active cleared_ids unlocked) g.roads [] in
    let current_id = current_of (progress_of g active) s in
    record {
      waypoints =
          record_all (λ v. v.id) (waypoint_access g active cleared_ids current_id roads) (w ∷ ws)
            [];
      roads = roads;
    }

pub access_of : GameState → Option String → List Waypoint → RaceAccessibilityResult
unfolding result_of
access_of g active [] = record { waypoints = []; roads = [] }
access_of g active (w ∷ ws) = result_of g active w ws

pub compute_race_accessibility : GameState → Option String → RaceAccessibilityResult
unfolding access_of
compute_race_accessibility g team_id = access_of g (present team_id) g.waypoints
