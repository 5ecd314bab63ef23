-- ===== src/Editor/Editing/Invariant.antt =====
-- A draft under any sequence of the operations of
-- frontend/src/surfaces/editor/useWaypointEditing.ts.
use runway_the_game.Prelude.{
  String, ◌==◌, ◌≡◌, refl, sym, inl, inr, Bool, true, false, ◌||◌, not, Option, none, some, List,
  [], ◌∷◌, map, any, includes, lookup, remove, lookup-remove, All, All-append, All-kept, eq_iff,
  arith, Bool-cases, if◌then◌else◌,
}
use mathlib.Core.Path.{subst}
use runway_the_game.Prelude.Int.{ℤ}
use runway_the_game.Board.{WaypointDraft, ChallengeDraft}
use runway_the_game.Editor.{EditorDraft}
use runway_the_game.Editor.Editing.{
  Editing, PendingDelete, waypoint, road, Field, touches, joins, new_waypoint, new_road, moved,
  as_start, as_finish, with_field, has_challenge, add_waypoint, add_road, move_waypoint, set_start,
  apply_set_finish, request_finish_of, request_set_finish, update_selected, set_waypoints,
}
use runway_the_game.Editor.Editing.Deleting.{delete_target}
use runway_the_game.Editor.Editing.Ids.{ids, Apart, ids-map, ids-append, Apart-append, Apart-filter}
use runway_the_game.Editor.Editing.Roles.{
  IsCast, new_waypoint-IsCast, moved-IsCast, as_start-IsCast, as_finish-IsCast, filter-IsCast,
  with_field-IsCast,
}
use runway_the_game.Editor.Editing.Network.{
  IsJoined, Simple, Free, Simple-filter, Simple-append, IsJoined-more, IsJoined-without, Free-map,
  Free-remove,
}

-- Distinct ids; at most one start and one finish, on two waypoints; every road between two
-- waypoints of the draft, and no two between the same; no challenge on the finish.
pub record IsWellFormed (d : EditorDraft) : Type 0 where
  pub distinct : Apart (ids d.waypoints)
  pub cast : IsCast d.waypoints
  pub joined : All (IsJoined (ids d.waypoints)) d.roads
  pub simple : Simple d.roads
  pub free : All (Free d.challenges) d.waypoints

-- An early return leaves the draft.
pub guard-IsWellFormed :
    (b : Bool) (s t : Editing)
    → IsWellFormed s.draft
    → IsWellFormed t.draft
    → IsWellFormed (if b then s else t).draft
guard-IsWellFormed true s t v u = v
guard-IsWellFormed false s t v u = u

-- A change of the waypoints that leaves their ids and makes none the finish.
map-IsWellFormed :
    (f : WaypointDraft → WaypointDraft) (d : EditorDraft)
    → ((w : WaypointDraft) → (f w).id ≡ w.id)
    → ((w : WaypointDraft) → (f w).is_finish ≡ true → w.is_finish ≡ true)
    → IsCast (map f d.waypoints)
    → IsWellFormed d
    → IsWellFormed (record d { waypoints = map f d.waypoints })
map-IsWellFormed f d h k c v = record {
  distinct = subst Apart (sym (ids-map f d.waypoints h)) v.distinct;
  cast = c;
  joined = subst (λ known. All (IsJoined known) d.roads) (sym (ids-map f d.waypoints h)) v.joined;
  simple = v.simple;
  free = Free-map f d.challenges d.waypoints h k v.free;
}

as_finish-Free :
    (id : String) (s : Editing)
    → All (Free (remove id s.draft.challenges)) (map (as_finish id) s.draft.waypoints)
as_finish-Free id s = free_of s.draft.waypoints
  where
    free_of :
        (ws : List WaypointDraft)
        → All (Free (remove id s.draft.challenges)) (map (as_finish id) ws)
    free_of [] = tt
    free_of (w ∷ ws) = (
      (λ e.
          ground
            (arith, e, lookup-remove id w.id s.draft.challenges, eq_iff w.id id, eq_iff id w.id)),
      free_of ws,
    )

pub add_waypoint-IsWellFormed :
    (id : String) (lat lon : ℤ) (s : Editing)
    → includes id (ids s.draft.waypoints) ≡ false
    → IsWellFormed s.draft
    → IsWellFormed (add_waypoint id lat lon s).draft
unfolding add_waypoint
add_waypoint-IsWellFormed id lat lon s h v = elim (Bool-cases s.is_editable) [
  | inr e ↦ rw (e, add_waypoint) v
  | inl e ↦
      let w = new_waypoint id lat lon s.draft.waypoints in
      rw (e, add_waypoint)
        (record {
          distinct =
              subst Apart (sym (ids-append s.draft.waypoints w))
                (Apart-append id (ids s.draft.waypoints) h v.distinct);
          cast = new_waypoint-IsCast id lat lon s.draft.waypoints v.cast;
          joined =
              subst (λ known. All (IsJoined known) s.draft.roads)
                (sym (ids-append s.draft.waypoints w))
                (IsJoined-more (ids s.draft.waypoints) (id ∷ []) s.draft.roads v.joined);
          simple = v.simple;
          free =
              All-append (Free s.draft.challenges) s.draft.waypoints (w ∷ []) v.free
                ((λ e. ground (arith, e)), tt);
        })
]

pub add_road-IsWellFormed :
    (id a b : String) (s : Editing)
    → includes a (ids s.draft.waypoints) ≡ true
    → includes b (ids s.draft.waypoints) ≡ true
    → IsWellFormed s.draft
    → IsWellFormed (add_road id a b s).draft
unfolding add_road
add_road-IsWellFormed id a b s h k v =
    elim (Bool-cases (not s.is_editable || any (joins a b) s.draft.roads)) [
      | inl e ↦ rw (e, add_road) v
      | inr e ↦
          rw (e, add_road)
            (record {
              distinct = v.distinct;
              cast = v.cast;
              joined = All-append _ s.draft.roads (new_road id a b ∷ []) v.joined ((h, k), tt);
              simple = Simple-append (new_road id a b) s.draft.roads (ground (arith, e)) v.simple;
              free = v.free;
            })
    ]

pub move_waypoint-IsWellFormed :
    (id : String) (lat lon : ℤ) (s : Editing)
    → IsWellFormed s.draft
    → IsWellFormed (move_waypoint id lat lon s).draft
unfolding move_waypoint
move_waypoint-IsWellFormed id lat lon s v = elim (Bool-cases s.is_editable) [
  | inr e ↦ rw (e, move_waypoint) v
  | inl e ↦
      rw (e, move_waypoint)
        (map-IsWellFormed (moved id lat lon) s.draft (λ w. ground arith) (λ w e. ground (arith, e))
          (moved-IsCast id lat lon s.draft.waypoints v.cast) v)
]

pub set_start-IsWellFormed :
    (id : String) (s : Editing) → IsWellFormed s.draft → IsWellFormed (set_start id s).draft
unfolding set_start
set_start-IsWellFormed id s v = elim (Bool-cases s.is_editable) [
  | inr e ↦ rw (e, set_start) v
  | inl e ↦
      rw (e, set_start)
        (map-IsWellFormed (as_start id) s.draft (λ w. refl) (λ w e. ground (arith, e))
          (as_start-IsCast id s.draft.waypoints v.distinct v.cast) v)
]

pub apply_set_finish-IsWellFormed :
    (id : String) (s : Editing) → IsWellFormed s.draft → IsWellFormed (apply_set_finish id s).draft
unfolding apply_set_finish
apply_set_finish-IsWellFormed id s v = record {
  distinct = subst Apart (sym (ids-map (as_finish id) s.draft.waypoints (λ w. refl))) v.distinct;
  cast = as_finish-IsCast id s.draft.waypoints v.distinct v.cast;
  joined =
      subst (λ known. All (IsJoined known) s.draft.roads)
        (sym (ids-map (as_finish id) s.draft.waypoints (λ w. refl))) v.joined;
  simple = v.simple;
  free = as_finish-Free id s;
}

request_finish_of-IsWellFormed :
    (id : String) (c : Option ChallengeDraft) (s : Editing)
    → IsWellFormed s.draft
    → IsWellFormed (request_finish_of id c s).draft
unfolding request_finish_of
request_finish_of-IsWellFormed id none s v = apply_set_finish-IsWellFormed id s v
request_finish_of-IsWellFormed id (some c) s v = elim (Bool-cases (has_challenge c)) [
  | inl e ↦ rw e v
  | inr e ↦ rw e (apply_set_finish-IsWellFormed id s v)
]

pub request_set_finish-IsWellFormed :
    (id : String) (s : Editing)
    → IsWellFormed s.draft
    → IsWellFormed (request_set_finish id s).draft
unfolding request_set_finish
request_set_finish-IsWellFormed id s v =
    guard-IsWellFormed (not s.is_editable) s (request_finish_of id (lookup id s.draft.challenges) s)
      v (request_finish_of-IsWellFormed id (lookup id s.draft.challenges) s v)

-- Fields but the claim of the finish, which asks first.
with_field-IsWellFormed :
    (f : Field) (id : String) (s : Editing)
    → ((w : WaypointDraft) → (with_field f id w).id ≡ w.id)
    → ((w : WaypointDraft) → (with_field f id w).is_finish ≡ true → w.is_finish ≡ true)
    → IsWellFormed s.draft
    → IsWellFormed (set_waypoints (map (with_field f id)) s).draft
with_field-IsWellFormed f id s h k v =
    map-IsWellFormed (with_field f id) s.draft h k
      (with_field-IsCast f id s.draft.waypoints v.distinct v.cast) v

pub update_selected-IsWellFormed :
    (f : Field) (id : String) (s : Editing)
    → IsWellFormed s.draft
    → IsWellFormed (update_selected f id s).draft
unfolding update_selected
update_selected-IsWellFormed (Field.is_finish true) id s v = request_set_finish-IsWellFormed id s v
update_selected-IsWellFormed (Field.is_finish false) id s v =
    with_field-IsWellFormed (Field.is_finish false) id s (λ w. ground arith)
      (λ w e. ground (arith, e)) v
update_selected-IsWellFormed (Field.is_start true) id s v =
    with_field-IsWellFormed (Field.is_start true) id s (λ w. ground arith)
      (λ w e. ground (arith, e)) v
update_selected-IsWellFormed (Field.is_start false) id s v =
    with_field-IsWellFormed (Field.is_start false) id s (λ w. ground arith)
      (λ w e. ground (arith, e)) v
update_selected-IsWellFormed f id s v =
    with_field-IsWellFormed f id s (λ w. ground arith) (λ w e. ground (arith, e)) v

pub delete_target-IsWellFormed :
    (t : PendingDelete) (s : Editing)
    → IsWellFormed s.draft
    → IsWellFormed (delete_target t s).draft
unfolding delete_target
delete_target-IsWellFormed (waypoint id n k) s v = record {
  distinct = Apart-filter (λ w. not (w.id == id)) s.draft.waypoints v.distinct;
  cast = filter-IsCast (λ w. not (w.id == id)) s.draft.waypoints v.cast;
  joined = IsJoined-without id s.draft.waypoints s.draft.roads v.joined;
  simple = Simple-filter (λ r. not (touches id r)) s.draft.roads v.simple;
  free =
      All-kept (Free (remove id s.draft.challenges)) (λ w. not (w.id == id)) s.draft.waypoints
        (Free-remove id s.draft.challenges s.draft.waypoints v.free);
}
delete_target-IsWellFormed (road id a b) s v = record {
  distinct = v.distinct;
  cast = v.cast;
  joined = All-kept _ (λ r. not (r.id == id)) s.draft.roads v.joined;
  simple = Simple-filter (λ r. not (r.id == id)) s.draft.roads v.simple;
  free = v.free;
}
