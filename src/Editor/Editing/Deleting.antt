-- ===== src/Editor/Editing/Deleting.antt =====
-- Deletions, and the answers to what was asked, of
-- frontend/src/surfaces/editor/useWaypointEditing.ts.
use runway_the_game.Prelude.{
  String, ◌==◌, not, Option, none, some, filter, find, length, remove, or_text, if◌then◌else◌,
}
use runway_the_game.Editor.Editing.{
  Editing, PendingDelete, waypoint, road, track, set_waypoints, set_roads, set_challenges,
  find_waypoint, touches, name_or, apply_set_finish,
}

unfoldable pub request_delete_waypoint : String → Editing → Editing
request_delete_waypoint id s =
    if not s.is_editable then s else elim (find_waypoint id s.draft.waypoints) [
      | none ↦ s
      | some w ↦ track "editor.confirm_shown" (record s {
        pending_delete = some (
            waypoint id (or_text w.name "Untitled waypoint")
              (length (filter (touches id) s.draft.roads)));
      })
    ]

unfoldable pub request_delete_road : String → Editing → Editing
request_delete_road id s =
    if not s.is_editable then s else elim (find (λ r. r.id == id) s.draft.roads) [
      | none ↦ s
      | some r ↦ track "editor.confirm_shown" (record s {
        pending_delete = some (
            road id (name_or "Waypoint" (find_waypoint r.waypoint_id_a s.draft.waypoints))
              (name_or "Waypoint" (find_waypoint r.waypoint_id_b s.draft.waypoints)));
      })
    ]

unfoldable pub delete_selected_waypoint : Editing → Editing
unfolding request_delete_waypoint
delete_selected_waypoint s = elim s.selected_waypoint_id [
  | none ↦ s
  | some id ↦ if id == "" then s else request_delete_waypoint id s
]

abbrev pub without : String → Option String → Option String
without id none = none
without id (some j) = if j == id then none else some j

unfoldable pub delete_target : PendingDelete → Editing → Editing
delete_target (waypoint id _ _) s =
    let t = set_challenges (remove id) (
      set_roads (filter (λ r. not (touches id r)))
        (set_waypoints (filter (λ w. not (w.id == id))) s)) in
    record t { selected_waypoint_id = without id t.selected_waypoint_id }
delete_target (road id _ _) s = set_roads (filter (λ r. not (r.id == id))) s

abbrev pub deletion_event : PendingDelete → String
deletion_event (waypoint _ _ _) = "editor.waypoint_deleted"
deletion_event (road _ _ _) = "editor.road_deleted"

unfoldable pub confirm_delete : Editing → Editing
unfolding delete_target
confirm_delete s = elim s.pending_delete [
  | none ↦ s
  | some target ↦
      record (delete_target target
        (track (deletion_event target) (track "editor.confirm_resolved" s))) {
          pending_delete = none;
        }
]

unfoldable pub confirm_finish_role : Editing → Editing
unfolding apply_set_finish
confirm_finish_role s = elim s.pending_finish_role [
  | none ↦ s
  | some p ↦ record (apply_set_finish p.waypoint_id (track "editor.confirm_resolved" s)) {
    pending_finish_role = none;
  }
]

unfoldable pub cancel_delete : Editing → Editing
cancel_delete s = elim s.pending_delete [
  | none ↦ s
  | some _ ↦ record (track "editor.confirm_resolved" s) { pending_delete = none }
]

unfoldable pub cancel_finish_role : Editing → Editing
cancel_finish_role s = elim s.pending_finish_role [
  | none ↦ s
  | some _ ↦ record (track "editor.confirm_resolved" s) { pending_finish_role = none }
]
