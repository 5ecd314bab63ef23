-- ===== src/Editor/Editing.antt =====
-- frontend/src/surfaces/editor/useWaypointEditing.ts: the hook's operations on a draft, over the
-- setters of useBoardDraft.ts beside it. What generateUUID returns is an argument of the two
-- operations that call it; `tracked` are the events that are sent to analytics.
pub mod Deleting
pub mod Ids
pub mod Roles
pub mod Network
pub mod Invariant
pub mod Edits
pub mod Asked
mod Tests
use Prim.Native.String
use runway_the_game.Prelude.{
  ℕ, suc, ◌+◌, String, ◌==◌, Bool, true, false, ◌&&◌, ◌||◌, not, Option, none, some, List, [], ◌∷◌,
  ◌++◌, map, filter, find, any, length, eqb, ltb, Dict, lookup, remove, blank, truthy, or_text,
  number_text, if◌then◌else◌,
}
use runway_the_game.Prelude.Int.{ℤ}
use runway_the_game.Board.{WaypointDraft, RoadDraft, ChallengeDraft}
use runway_the_game.Editor.{EditorDraft, default_arrival_radius_m}

pub record ConnectedRoad : Type 0 where
  pub road_id : String
  pub target_name : String

pub data PendingDelete : Type 0 where
  waypoint : String → String → ℕ → PendingDelete
  road : String → String → String → PendingDelete

pub record PendingFinishRole : Type 0 where
  pub waypoint_id : String
  pub name : String
  pub prompt : String

pub record Editing : Type 0 where
  pub draft : EditorDraft
  pub is_editable : Bool
  pub selected_waypoint_id : Option String
  pub focus_waypoint_ids : Option (List String)
  pub pending_delete : Option PendingDelete
  pub pending_finish_role : Option PendingFinishRole
  pub tracked : List String

abbrev pub track : String → Editing → Editing
track event s = record s { tracked = s.tracked ++ event ∷ [] }

abbrev pub set_waypoints : (List WaypointDraft → List WaypointDraft) → Editing → Editing
set_waypoints f s = record s { draft = record s.draft { waypoints = f s.draft.waypoints } }

abbrev pub set_roads : (List RoadDraft → List RoadDraft) → Editing → Editing
set_roads f s = record s { draft = record s.draft { roads = f s.draft.roads } }

abbrev pub set_challenges : (Dict ChallengeDraft → Dict ChallengeDraft) → Editing → Editing
set_challenges f s = record s { draft = record s.draft { challenges = f s.draft.challenges } }

abbrev pub find_waypoint : String → List WaypointDraft → Option WaypointDraft
find_waypoint id ws = find (λ w. w.id == id) ws

abbrev pub touches : String → RoadDraft → Bool
touches id r = r.waypoint_id_a == id || r.waypoint_id_b == id

abbrev pub name_or : String → Option WaypointDraft → String
name_or d none = d
name_or d (some w) = w.name

pub selected_waypoint : Editing → Option WaypointDraft
selected_waypoint s = elim s.selected_waypoint_id [
  | none ↦ none
  | some id ↦ find_waypoint id s.draft.waypoints
]

abbrev other_end : String → RoadDraft → String
other_end id r = if r.waypoint_id_a == id then r.waypoint_id_b else r.waypoint_id_a

abbrev connected_road : List WaypointDraft → String → RoadDraft → ConnectedRoad
connected_road ws id r = record {
  road_id = r.id;
  target_name = name_or "Unknown waypoint" (find_waypoint (other_end id r) ws);
}

pub connected_roads : Editing → List ConnectedRoad
unfolding selected_waypoint
connected_roads s = elim (selected_waypoint s) [
  | none ↦ []
  | some w ↦ map (connected_road s.draft.waypoints w.id) (filter (touches w.id) s.draft.roads)
]

abbrev pub new_waypoint : String → ℤ → ℤ → List WaypointDraft → WaypointDraft
new_waypoint id lat lon ws = record {
  id = id;
  name = String.◌++◌ "Waypoint " (number_text (length ws + 1));
  lat = lat;
  lon = lon;
  arrival_radius_m = default_arrival_radius_m;
  is_start = eqb (length ws) 0;
  is_finish = false;
  challenge = none;
  coin_reward = none;
}

pub add_waypoint : String → ℤ → ℤ → Editing → Editing
add_waypoint id lat lon s =
    if not s.is_editable
    then s
    else track "editor.waypoint_added"
        (record (set_waypoints (λ ws. ws ++ new_waypoint id lat lon ws ∷ []) s) {
          selected_waypoint_id = some id;
        })

abbrev pub joins : String → String → RoadDraft → Bool
joins a b r =
    r.waypoint_id_a == a && r.waypoint_id_b == b || r.waypoint_id_a == b && r.waypoint_id_b == a

abbrev pub new_road : String → String → String → RoadDraft
new_road id a b = record {
  id = id;
  waypoint_id_a = a;
  waypoint_id_b = b;
  challenge_id = none;
  challenge = none;
}

-- Drawing a road that exists is a no-op.
pub add_road : String → String → String → Editing → Editing
add_road id a b s =
    if not s.is_editable || any (joins a b) s.draft.roads
    then s
    else set_roads (λ rs. rs ++ new_road id a b ∷ []) (track "editor.road_added" s)

abbrev pub moved : String → ℤ → ℤ → WaypointDraft → WaypointDraft
moved id lat lon w = if w.id == id then record w { lat = lat; lon = lon } else w

pub move_waypoint : String → ℤ → ℤ → Editing → Editing
move_waypoint id lat lon s =
    if not s.is_editable
    then s
    else track "editor.waypoint_moved" (set_waypoints (map (moved id lat lon)) s)

abbrev pub as_start : String → WaypointDraft → WaypointDraft
as_start id w = record w {
  is_start = w.id == id;
  is_finish = if w.id == id then false else w.is_finish;
}

pub set_start : String → Editing → Editing
set_start id s =
    if not s.is_editable then s else track "editor.start_set" (set_waypoints (map (as_start id)) s)

abbrev pub as_finish : String → WaypointDraft → WaypointDraft
as_finish id w = record w {
  is_finish = w.id == id;
  is_start = if w.id == id then false else w.is_start;
}

pub apply_set_finish : String → Editing → Editing
apply_set_finish id s =
    track "editor.finish_set" (set_challenges (remove id) (set_waypoints (map (as_finish id)) s))

abbrev pub has_challenge : ChallengeDraft → Bool
has_challenge c =
    not (blank c.prompt)
    || ltb 0 (length c.rubric.must_show)
    || ltb 0 (length c.rubric.fails_if)
    || not (blank c.rubric.acceptable_ambiguity)

abbrev pub ask_finish : String → ChallengeDraft → Editing → Editing
ask_finish id c s = track "editor.confirm_shown" (record s {
  pending_finish_role = some (record {
    waypoint_id = id;
    name = or_text (name_or "" (find_waypoint id s.draft.waypoints)) "Untitled waypoint";
    prompt = c.prompt;
  });
})

pub request_finish_of : String → Option ChallengeDraft → Editing → Editing
unfolding apply_set_finish
request_finish_of id none s = apply_set_finish id s
request_finish_of id (some c) s =
    if has_challenge c then ask_finish id c s else apply_set_finish id s

pub request_set_finish : String → Editing → Editing
unfolding request_finish_of
request_set_finish id s =
    if not s.is_editable then s else request_finish_of id (lookup id s.draft.challenges) s

-- A field with its value, for the fields that a form of the inspector sets: updateField takes the
-- name of any field, but no caller gives it `id` or `challenge`, which stand for no field here.
pub data Field : Type 0 where
  name : String → Field
  lat lon : ℤ → Field
  arrival_radius_m : ℕ → Field
  is_start is_finish : Bool → Field
  coin_reward : Option ℕ → Field

abbrev pub set_field : Field → WaypointDraft → WaypointDraft
set_field (name v) w = record w { name = v }
set_field (lat v) w = record w { lat = v }
set_field (lon v) w = record w { lon = v }
set_field (arrival_radius_m v) w = record w { arrival_radius_m = v }
set_field (is_start true) w = record w { is_start = true; is_finish = false }
set_field (is_start false) w = record w { is_start = false }
set_field (is_finish true) w = record w { is_finish = true; is_start = false }
set_field (is_finish false) w = record w { is_finish = false }
set_field (coin_reward v) w = record w { coin_reward = v }

abbrev pub clear_role : Field → WaypointDraft → WaypointDraft
clear_role (is_start true) w = record w { is_start = false }
clear_role (is_finish true) w = record w { is_finish = false }
clear_role _ w = w

abbrev pub with_field : Field → String → WaypointDraft → WaypointDraft
with_field f id w = if w.id == id then set_field f w else clear_role f w

pub update_selected : Field → String → Editing → Editing
unfolding request_set_finish
update_selected (is_finish true) id s = request_set_finish id s
update_selected f id s = set_waypoints (map (with_field f id)) s

pub update_field : Field → Editing → Editing
unfolding update_selected
update_field f s = elim s.selected_waypoint_id [
  | none ↦ s
  | some id ↦ if not s.is_editable || id == "" then s else update_selected f id s
]

-- `setSelectedWaypointId`, and the two halves of focusWaypoints, of which the second is its timer.
abbrev pub select_waypoint : Option String → Editing → Editing
select_waypoint id s = record s { selected_waypoint_id = id }

abbrev pub focus_waypoints : List String → Editing → Editing
focus_waypoints ids s = record s { focus_waypoint_ids = some ids }

abbrev pub unfocus : Editing → Editing
unfocus s = record s { focus_waypoint_ids = none }
