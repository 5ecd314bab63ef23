-- ===== src/Board/Route/Adjacent.antt =====
-- The adjacency map of computeRouteOrder against the roads themselves.
use runway_the_game.Prelude.{
  String, ◌==◌, eq_iff, Bool, true, ◌&&◌, ◌||◌, ◌≡◌, refl, ◌∙◌, List, [], ◌∷◌, ◌++◌, map, any,
  includes, includes-append, Dict, lookup, insert, lookup-insert, arith,
}
use runway_the_game.Board.{WaypointDraft, RoadDraft}
use runway_the_game.Board.Route.{
  is_some, neighbors, push_to, add_road, add_roads, no_roads, adj_map,
}

-- The ids of the board's waypoints.
abbrev pub ids : List WaypointDraft → List String
ids ws = map (λ w. w.id) ws

-- A road joins two waypoints, in either direction.
abbrev pub links : String → String → RoadDraft → Bool
links u v s =
    s.waypoint_id_a == u && s.waypoint_id_b == v || s.waypoint_id_b == u && s.waypoint_id_a == v

-- A road between waypoints of the board joins the two.
abbrev pub adjacent : List WaypointDraft → List RoadDraft → String → String → Bool
adjacent ws roads u v =
    any
      (λ s. links u v s && (includes s.waypoint_id_a (ids ws) && includes s.waypoint_id_b (ids ws)))
      roads

includes-push_to :
    (a b u v : String) (adj : Dict (List String))
    → includes v (neighbors (push_to a b adj) u)
      ≡ (includes v (neighbors adj u) || (a == u && b == v))
unfolding push_to
includes-push_to a b u v adj = ground (
  arith,
  lookup-insert a u (neighbors adj a ++ b ∷ []) adj,
  includes-append v (neighbors adj a) (b ∷ []),
  eq_iff a u,
)

is_some-push_to :
    (a b u : String) (adj : Dict (List String))
    → is_some (lookup u (push_to a b adj)) ≡ (a == u || is_some (lookup u adj))
unfolding push_to
is_some-push_to a b u adj = ground (arith, lookup-insert a u (neighbors adj a ++ b ∷ []) adj)

is_some-add_road :
    (s : RoadDraft) (u : String) (adj : Dict (List String))
    → is_some (lookup u (add_road s adj)) ≡ is_some (lookup u adj)
unfolding add_road
is_some-add_road s u adj = ground (
  arith,
  is_some-push_to s.waypoint_id_a s.waypoint_id_b u adj,
  is_some-push_to s.waypoint_id_b s.waypoint_id_a u (push_to s.waypoint_id_a s.waypoint_id_b adj),
  eq_iff s.waypoint_id_a u,
  eq_iff s.waypoint_id_b u,
)

includes-add_road :
    (s : RoadDraft) (u v : String) (adj : Dict (List String))
    → includes v (neighbors (add_road s adj) u) ≡ (
        includes v (neighbors adj u)
        || (links u v s
            && (is_some (lookup s.waypoint_id_a adj) && is_some (lookup s.waypoint_id_b adj))))
unfolding add_road
includes-add_road s u v adj = ground (
  arith,
  includes-push_to s.waypoint_id_a s.waypoint_id_b u v adj,
  includes-push_to s.waypoint_id_b s.waypoint_id_a u v
      (push_to s.waypoint_id_a s.waypoint_id_b adj),
)

-- What the map knows, by a test that `add_road` keeps.
includes-add_roads :
    (roads : List RoadDraft) (known : List String) (u v : String) (adj : Dict (List String))
    → ((w : String) → is_some (lookup w adj) ≡ includes w known)
    → includes v (neighbors (add_roads roads adj) u) ≡ (
        includes v (neighbors adj u)
        || any
            (λ s. links u v s && (includes s.waypoint_id_a known && includes s.waypoint_id_b known))
            roads)
unfolding add_roads
includes-add_roads [] known u v adj h = ground arith
includes-add_roads (s ∷ roads) known u v adj h = ground (
  arith,
  includes-add_roads roads known u v (add_road s adj) (λ w. is_some-add_road s w adj ∙ h w),
  includes-add_road s u v adj,
  h s.waypoint_id_a,
  h s.waypoint_id_b,
)

is_some-no_roads :
    (ws : List WaypointDraft) (u : String) (adj : Dict (List String))
    → is_some (lookup u (no_roads ws adj)) ≡ (is_some (lookup u adj) || includes u (ids ws))
unfolding no_roads
is_some-no_roads [] u adj = ground arith
is_some-no_roads (w ∷ ws) u adj =
    ground (arith, is_some-no_roads ws u (insert w.id [] adj), lookup-insert w.id u [] adj)

neighbors-no_roads :
    (ws : List WaypointDraft) (u : String) (adj : Dict (List String))
    → neighbors adj u ≡ []
    → neighbors (no_roads ws adj) u ≡ []
unfolding no_roads
neighbors-no_roads [] u adj h = h
neighbors-no_roads (w ∷ ws) u adj h =
    neighbors-no_roads ws u (insert w.id [] adj) (ground (arith, lookup-insert w.id u [] adj))

-- Two waypoints are neighbors in the map exactly when a road between board waypoints joins them.
pub neighbors-adj_map :
    (ws : List WaypointDraft) (roads : List RoadDraft) (u v : String)
    → includes v (neighbors (adj_map ws roads) u) ≡ adjacent ws roads u v
unfolding adj_map
neighbors-adj_map ws roads u v =
    includes-add_roads roads (ids ws) u v (no_roads ws []) (λ w. is_some-no_roads ws w [])
    ∙ rw (neighbors-no_roads ws u [] refl)

-- The neighbors of a waypoint are waypoints of the board.
pub adjacent_known :
    (ws : List WaypointDraft) (roads : List RoadDraft) (u v : String)
    → adjacent ws roads u v ≡ true
    → includes v (ids ws) ≡ true
adjacent_known ws [] u v h = cc
adjacent_known ws (s ∷ roads) u v h =
    ground (arith, adjacent_known ws roads u v, eq_iff s.waypoint_id_a v, eq_iff s.waypoint_id_b v)
