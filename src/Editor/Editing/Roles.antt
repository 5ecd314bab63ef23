-- ===== src/Editor/Editing/Roles.antt =====
-- Who is the start and who is the finish, in the changes of
-- frontend/src/surfaces/editor/useWaypointEditing.ts to the waypoints.
use runway_the_game.Prelude.{
  ℕ, ◌≤◌, String, ◌==◌, ◌≡◌, refl, Bool, true, false, ◌&&◌, List, [], ◌∷◌, ◌++◌, map, filter,
  includes, count, count-append, count-filter, count-map, All, All-append, All-map, All-kept,
  eq_iff, arith,
}
use runway_the_game.Prelude.Int.{ℤ}
use runway_the_game.Board.{WaypointDraft}
use runway_the_game.Editor.Editing.{Field, new_waypoint, moved, as_start, as_finish, with_field}
use runway_the_game.Editor.Editing.Ids.{ids, Apart}

abbrev pub starts_of : List WaypointDraft → ℕ
starts_of ws = count (λ w. w.is_start) ws

abbrev pub finishes_of : List WaypointDraft → ℕ
finishes_of ws = count (λ w. w.is_finish) ws

-- At most one start, at most one finish, and no waypoint is both.
pub record IsCast (ws : List WaypointDraft) : Type 0 where
  pub one_start : starts_of ws ≤ 1
  pub one_finish : finishes_of ws ≤ 1
  pub apart : All (λ w. (w.is_start && w.is_finish) ≡ false) ws

count-absent :
    (x : String) (ws : List WaypointDraft)
    → includes x (ids ws) ≡ false
    → count (λ w. w.id == x) ws ≡ 0
count-absent x [] h = refl
count-absent x (w ∷ ws) h = ground (arith, h, count-absent x ws)

count-id : (x : String) (ws : List WaypointDraft) → Apart (ids ws) → count (λ w. w.id == x) ws ≤ 1
count-id x [] h = omega arith
count-id x (w ∷ ws) h = ground (arith, h.0, count-id x ws h.1, count-absent x ws, eq_iff w.id x)

starts_new :
    (id : String) (lat lon : ℤ) (ws : List WaypointDraft)
    → IsCast ws
    → starts_of (ws ++ new_waypoint id lat lon ws ∷ []) ≤ 1
starts_new id lat lon [] h = omega arith
starts_new id lat lon (w ∷ ws) h =
    ground (
      arith,
      h.one_start,
      count-append (λ v. v.is_start) (w ∷ ws) (new_waypoint id lat lon (w ∷ ws)),
    )

pub new_waypoint-IsCast :
    (id : String) (lat lon : ℤ) (ws : List WaypointDraft)
    → IsCast ws
    → IsCast (ws ++ new_waypoint id lat lon ws ∷ [])
new_waypoint-IsCast id lat lon ws h = record {
  one_start = starts_new id lat lon ws h;
  one_finish =
      omega (arith, count-append (λ w. w.is_finish) ws (new_waypoint id lat lon ws), h.one_finish);
  apart = All-append _ ws (new_waypoint id lat lon ws ∷ []) h.apart (ground arith, tt);
}

pub moved-IsCast :
    (id : String) (lat lon : ℤ) (ws : List WaypointDraft)
    → IsCast ws
    → IsCast (map (moved id lat lon) ws)
moved-IsCast id lat lon ws h = record {
  one_start = omega (
    arith,
    count-map (λ w. w.is_start) (λ w. w.is_start) (moved id lat lon) ws (λ w e. ground (arith, e)),
    h.one_start,
  );
  one_finish = omega (
    arith,
    count-map (λ w. w.is_finish) (λ w. w.is_finish) (moved id lat lon) ws
        (λ w e. ground (arith, e)),
    h.one_finish,
  );
  apart = All-map _ (moved id lat lon) ws (λ w e. ground (arith, e)) h.apart;
}

pub as_start-IsCast :
    (id : String) (ws : List WaypointDraft)
    → Apart (ids ws)
    → IsCast ws
    → IsCast (map (as_start id) ws)
as_start-IsCast id ws a h = record {
  one_start = omega (
    arith,
    count-map (λ w. w.is_start) (λ w. w.id == id) (as_start id) ws (λ w e. e),
    count-id id ws a,
  );
  one_finish = omega (
    arith,
    count-map (λ w. w.is_finish) (λ w. w.is_finish) (as_start id) ws (λ w e. ground (arith, e)),
    h.one_finish,
  );
  apart = All-map _ (as_start id) ws (λ w e. ground (arith, e)) h.apart;
}

pub as_finish-IsCast :
    (id : String) (ws : List WaypointDraft)
    → Apart (ids ws)
    → IsCast ws
    → IsCast (map (as_finish id) ws)
as_finish-IsCast id ws a h = record {
  one_start = omega (
    arith,
    count-map (λ w. w.is_start) (λ w. w.is_start) (as_finish id) ws (λ w e. ground (arith, e)),
    h.one_start,
  );
  one_finish = omega (
    arith,
    count-map (λ w. w.is_finish) (λ w. w.id == id) (as_finish id) ws (λ w e. e),
    count-id id ws a,
  );
  apart = All-map _ (as_finish id) ws (λ w e. ground (arith, e)) h.apart;
}

pub filter-IsCast :
    (p : WaypointDraft → Bool) (ws : List WaypointDraft) → IsCast ws → IsCast (filter p ws)
filter-IsCast p ws h = record {
  one_start = omega (arith, count-filter (λ w. w.is_start) p ws, h.one_start);
  one_finish = omega (arith, count-filter (λ w. w.is_finish) p ws, h.one_finish);
  apart = All-kept _ p ws h.apart;
}

with_field-apart :
    (f : Field) (id : String) (w : WaypointDraft)
    → (w.is_start && w.is_finish) ≡ false
    → ((with_field f id w).is_start && (with_field f id w).is_finish) ≡ false
with_field-apart (Field.is_start true) id w e = ground (arith, e)
with_field-apart (Field.is_start false) id w e = ground (arith, e)
with_field-apart (Field.is_finish true) id w e = ground (arith, e)
with_field-apart (Field.is_finish false) id w e = ground (arith, e)
with_field-apart _ id w e = ground (arith, e)

with_field-one_start :
    (f : Field) (id : String) (ws : List WaypointDraft)
    → Apart (ids ws)
    → IsCast ws
    → starts_of (map (with_field f id) ws) ≤ 1
with_field-one_start (Field.is_start true) id ws a h = omega (
  arith,
  count-map (λ w. w.is_start) (λ w. w.id == id) (with_field (Field.is_start true) id) ws
      (λ w e. ground (arith, e)),
  count-id id ws a,
)
with_field-one_start f id ws a h = omega (
  arith,
  count-map (λ w. w.is_start) (λ w. w.is_start) (with_field f id) ws (λ w e. ground (arith, e)),
  h.one_start,
)

with_field-one_finish :
    (f : Field) (id : String) (ws : List WaypointDraft)
    → Apart (ids ws)
    → IsCast ws
    → finishes_of (map (with_field f id) ws) ≤ 1
with_field-one_finish (Field.is_finish true) id ws a h = omega (
  arith,
  count-map (λ w. w.is_finish) (λ w. w.id == id) (with_field (Field.is_finish true) id) ws
      (λ w e. ground (arith, e)),
  count-id id ws a,
)
with_field-one_finish f id ws a h = omega (
  arith,
  count-map (λ w. w.is_finish) (λ w. w.is_finish) (with_field f id) ws (λ w e. ground (arith, e)),
  h.one_finish,
)

pub with_field-IsCast :
    (f : Field) (id : String) (ws : List WaypointDraft)
    → Apart (ids ws)
    → IsCast ws
    → IsCast (map (with_field f id) ws)
with_field-IsCast f id ws a h = record {
  one_start = with_field-one_start f id ws a h;
  one_finish = with_field-one_finish f id ws a h;
  apart = All-map _ (with_field f id) ws (λ w e. with_field-apart f id w e) h.apart;
}
