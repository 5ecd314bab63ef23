-- ===== src/Editor/Editing/Edits.antt =====
-- Any sequence of the operations of frontend/src/surfaces/editor/useWaypointEditing.ts.
use runway_the_game.Prelude.{
  String, ◌==◌, ◌≡◌, true, false, ◌||◌, not, Option, none, some, List, [], ◌∷◌, find, includes,
  if◌then◌else◌,
}
use runway_the_game.Prelude.Int.{ℤ}
use runway_the_game.Editor.Editing.{
  Editing, track, Field, find_waypoint, add_waypoint, add_road, move_waypoint, set_start,
  request_set_finish, update_selected, update_field, select_waypoint, focus_waypoints, unfocus,
}
use runway_the_game.Editor.Editing.Deleting.{
  deletion_event, request_delete_waypoint, request_delete_road, delete_selected_waypoint,
  confirm_delete, confirm_finish_role, cancel_delete, cancel_finish_role,
}
use runway_the_game.Editor.Editing.Ids.{ids}
use runway_the_game.Editor.Editing.Invariant.{
  IsWellFormed, guard-IsWellFormed, add_waypoint-IsWellFormed, add_road-IsWellFormed,
  move_waypoint-IsWellFormed, set_start-IsWellFormed, apply_set_finish-IsWellFormed,
  request_set_finish-IsWellFormed, update_selected-IsWellFormed, delete_target-IsWellFormed,
}

-- An operation of the hook, with the id that generateUUID would return.
pub data Edit : Type 0 where
  adding : String → ℤ → ℤ → Edit
  joining : String → String → String → Edit
  moving : String → ℤ → ℤ → Edit
  starting finishing : String → Edit
  setting : Field → Edit
  asking_waypoint asking_road : String → Edit
  asking_selected confirming cancelling confirming_finish cancelling_finish : Edit
  selecting : Option String → Edit
  focusing : List String → Edit
  unfocusing : Edit

unfoldable pub edit : Edit → Editing → Editing
unfolding add_waypoint add_road move_waypoint set_start request_set_finish update_field
    request_delete_waypoint request_delete_road delete_selected_waypoint confirm_delete
    cancel_delete confirm_finish_role cancel_finish_role
edit (adding id lat lon) s = add_waypoint id lat lon s
edit (joining id a b) s = add_road id a b s
edit (moving id lat lon) s = move_waypoint id lat lon s
edit (starting id) s = set_start id s
edit (finishing id) s = request_set_finish id s
edit (setting f) s = update_field f s
edit (asking_waypoint id) s = request_delete_waypoint id s
edit (asking_road id) s = request_delete_road id s
edit asking_selected s = delete_selected_waypoint s
edit confirming s = confirm_delete s
edit cancelling s = cancel_delete s
edit confirming_finish s = confirm_finish_role s
edit cancelling_finish s = cancel_finish_role s
edit (selecting id) s = select_waypoint id s
edit (focusing chosen) s = focus_waypoints chosen s
edit unfocusing s = unfocus s

unfoldable pub edit_all : List Edit → Editing → Editing
unfolding edit
edit_all [] s = s
edit_all (e ∷ edits) s = edit_all edits (edit e s)

-- The id of a new waypoint is new, and a road is drawn between two waypoints of the draft.
abbrev pub IsAllowed : Edit → Editing → Type 0
IsAllowed (adding id _ _) s = includes id (ids s.draft.waypoints) ≡ false
IsAllowed (joining _ a b) s =
    (includes a (ids s.draft.waypoints) ≡ true) × (includes b (ids s.draft.waypoints) ≡ true)
IsAllowed _ s = Unit

abbrev pub AreAllowed : List Edit → Editing → Type 0
AreAllowed [] s = Unit
AreAllowed (e ∷ edits) s = IsAllowed e s × AreAllowed edits (edit e s)

some-IsWellFormed {ℓ} :
    {A : Type ℓ} (o : Option A) (s : Editing) (f : A → Editing)
    → IsWellFormed s.draft
    → ((a : A) → IsWellFormed (f a).draft)
    → IsWellFormed (elim o as (λ x. Editing) [ none ↦ s | some a ↦ f a ]).draft
some-IsWellFormed none s f v h = v
some-IsWellFormed (some a) s f v h = h a

update_field-IsWellFormed :
    (f : Field) (s : Editing) → IsWellFormed s.draft → IsWellFormed (update_field f s).draft
unfolding update_field
update_field-IsWellFormed f s v =
    some-IsWellFormed s.selected_waypoint_id s
      (λ id. if not s.is_editable || id == "" then s else update_selected f id s) v
      (λ id.
        guard-IsWellFormed (not s.is_editable || id == "") s (update_selected f id s) v
          (update_selected-IsWellFormed f id s v))

request_delete_waypoint-IsWellFormed :
    (id : String) (s : Editing)
    → IsWellFormed s.draft
    → IsWellFormed (request_delete_waypoint id s).draft
unfolding request_delete_waypoint
request_delete_waypoint-IsWellFormed id s v =
    guard-IsWellFormed (not s.is_editable) s _ v
      (some-IsWellFormed (find_waypoint id s.draft.waypoints) s _ v (λ w. v))

request_delete_road-IsWellFormed :
    (id : String) (s : Editing)
    → IsWellFormed s.draft
    → IsWellFormed (request_delete_road id s).draft
unfolding request_delete_road
request_delete_road-IsWellFormed id s v =
    guard-IsWellFormed (not s.is_editable) s _ v
      (some-IsWellFormed (find (λ r. r.id == id) s.draft.roads) s _ v (λ w. v))

edit-IsWellFormed :
    (e : Edit) (s : Editing) → IsAllowed e s → IsWellFormed s.draft → IsWellFormed (edit e s).draft
unfolding edit delete_selected_waypoint confirm_delete confirm_finish_role cancel_delete
    cancel_finish_role
edit-IsWellFormed (adding id lat lon) s a v = add_waypoint-IsWellFormed id lat lon s a v
edit-IsWellFormed (joining id x y) s a v = add_road-IsWellFormed id x y s a.0 a.1 v
edit-IsWellFormed (moving id lat lon) s a v = move_waypoint-IsWellFormed id lat lon s v
edit-IsWellFormed (starting id) s a v = set_start-IsWellFormed id s v
edit-IsWellFormed (finishing id) s a v = request_set_finish-IsWellFormed id s v
edit-IsWellFormed (setting f) s a v = update_field-IsWellFormed f s v
edit-IsWellFormed (asking_waypoint id) s a v = request_delete_waypoint-IsWellFormed id s v
edit-IsWellFormed (asking_road id) s a v = request_delete_road-IsWellFormed id s v
edit-IsWellFormed asking_selected s a v = some-IsWellFormed s.selected_waypoint_id s _ v (λ id.
    guard-IsWellFormed (id == "") s (request_delete_waypoint id s) v
      (request_delete_waypoint-IsWellFormed id s v))
edit-IsWellFormed confirming s a v = some-IsWellFormed s.pending_delete s _ v (λ t.
    delete_target-IsWellFormed t (track (deletion_event t) (track "editor.confirm_resolved" s)) v)
edit-IsWellFormed cancelling s a v = some-IsWellFormed s.pending_delete s _ v (λ t. v)
edit-IsWellFormed confirming_finish s a v =
    some-IsWellFormed s.pending_finish_role s _ v
      (λ p. apply_set_finish-IsWellFormed p.waypoint_id (track "editor.confirm_resolved" s) v)
edit-IsWellFormed cancelling_finish s a v = some-IsWellFormed s.pending_finish_role s _ v (λ t. v)
edit-IsWellFormed (selecting id) s a v = v
edit-IsWellFormed (focusing chosen) s a v = v
edit-IsWellFormed unfocusing s a v = v

-- Whatever sequence of the editor's operations is made on a well-formed draft, the confirmations and
-- cancellations included, it stays well-formed: ids apart, at most one start and one finish on two
-- waypoints, no dangling or doubled road, no challenge on the finish. The id of an added waypoint
-- has to be new, and a drawn road to join two waypoints that the draft has then.
pub edit_all-IsWellFormed :
    (edits : List Edit) (s : Editing)
    → AreAllowed edits s
    → IsWellFormed s.draft
    → IsWellFormed (edit_all edits s).draft
unfolding edit_all
edit_all-IsWellFormed [] s a v = v
edit_all-IsWellFormed (e ∷ edits) s a v =
    edit_all-IsWellFormed edits (edit e s) a.1 (edit-IsWellFormed e s a.0 v)
