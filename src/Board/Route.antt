-- ===== src/Board/Route.antt =====
-- computeRouteOrder of frontend/src/core/editor/geometryUtils.ts: the breadth-first walk over the
-- board from its one start, and the lists that the editor draws from it. `adjMap` and
-- `tierByWaypoint` are objects keyed by waypoint ids. The queue loop takes fuel.
pub mod Adjacent
pub mod Queue
pub mod Walk
pub mod Shortest
pub mod Distance
pub mod Listed
mod Tests
use runway_the_game.Prelude.{
  ℕ, suc, ◌+◌, String, Bool, ◌&&◌, ◌||◌, not, Option, none, some, List, [], ◌∷◌, ◌++◌, map, length,
  filter, Dict, lookup, insert, sort_by, ltb, leb, eqb, if◌then◌else◌, min, max,
}
use runway_the_game.Board.{WaypointDraft, RoadDraft}

abbrev pub is_some {ℓ} : {A : Type ℓ} → Option A → Bool
is_some none = Bool.false
is_some (some _) = Bool.true

-- `adjMap[id] || []`
abbrev pub neighbors : Dict (List String) → String → List String
neighbors adj id = elim (lookup id adj) [ none ↦ [] | some ns ↦ ns ]

-- `adjMap[a].push(b)`
push_to : String → String → Dict (List String) → Dict (List String)
push_to a b adj = insert a (neighbors adj a ++ b ∷ []) adj

add_road : RoadDraft → Dict (List String) → Dict (List String)
unfolding push_to
add_road s adj =
    if is_some (lookup s.waypoint_id_a adj) && is_some (lookup s.waypoint_id_b adj)
    then push_to s.waypoint_id_b s.waypoint_id_a (push_to s.waypoint_id_a s.waypoint_id_b adj)
    else adj

add_roads : List RoadDraft → Dict (List String) → Dict (List String)
add_roads [] adj = adj
add_roads (s ∷ roads) adj = add_roads roads (add_road s adj)

no_roads : List WaypointDraft → Dict (List String) → Dict (List String)
no_roads [] adj = adj
no_roads (w ∷ ws) adj = no_roads ws (insert w.id [] adj)

pub adj_map : List WaypointDraft → List RoadDraft → Dict (List String)
unfolding no_roads add_roads add_road
adj_map ws roads = add_roads roads (no_roads ws [])

abbrev pub Queue : Type 0
Queue = List (String × ℕ)

-- The `forEach` over the neighbors of one waypoint: those with no tier get one and are queued.
pub visit : ℕ → List String → Queue → Dict ℕ → Queue × Dict ℕ
visit tier [] queue tiers = (queue, tiers)
visit tier (neigh ∷ ns) queue tiers = elim (lookup neigh tiers) [
  | none ↦ visit tier ns (queue ++ (neigh, tier + 1) ∷ []) (insert neigh (tier + 1) tiers)
  | some _ ↦ visit tier ns queue tiers
]

-- `while (queue.length > 0)`; `none` means that the fuel ran out.
pub search_from : ℕ → Dict (List String) → Queue → Dict ℕ → Option (Dict ℕ)
search_from fuel adj [] tiers = some tiers
search_from ℕ.zero adj (_ ∷ _) tiers = none
search_from (suc fuel) adj ((id, tier) ∷ queue) tiers =
    let (queue', tiers') = visit tier (neighbors adj id) queue tiers in
    search_from fuel adj queue' tiers'

abbrev pub starts : List WaypointDraft → List WaypointDraft
starts ws = filter (λ w. w.is_start) ws

pub from_start : ℕ → Dict (List String) → List WaypointDraft → Option (Dict ℕ)
unfolding search_from
from_start fuel adj (start ∷ []) = search_from fuel adj ((start.id, 0) ∷ []) ((start.id, 0) ∷ [])
from_start fuel adj [] = some []
from_start fuel adj (_ ∷ _ ∷ _) = some []

unfoldable pub tier_by_waypoint : List WaypointDraft → List RoadDraft → Option (Dict ℕ)
unfolding from_start adj_map visit
tier_by_waypoint ws roads = from_start (suc (length ws)) (adj_map ws roads) (starts ws)

pub record RouteOrderResult : Type 0 where
  pub tiers : Dict ℕ
  pub ordered_waypoints : List (WaypointDraft × ℕ)
  pub ordered_roads : List (RoadDraft × ℕ × ℕ)
  pub branch_points : List (String × ℕ)
  pub unreachable : List WaypointDraft

abbrev pub degree : Dict (List String) → WaypointDraft → ℕ
degree adj w = length (neighbors adj w.id)

pub tiered : Dict ℕ → List WaypointDraft → List (WaypointDraft × ℕ)
tiered tiers [] = []
tiered tiers (w ∷ ws) = elim (lookup w.id tiers) [
  | none ↦ tiered tiers ws
  | some tier ↦ (w, tier) ∷ tiered tiers ws
]

abbrev is_branch : Dict (List String) → Dict ℕ → WaypointDraft → Bool
is_branch adj tiers w = is_some (lookup w.id tiers) && ltb 2 (degree adj w)

abbrev pub is_unreachable : Dict (List String) → Dict ℕ → WaypointDraft → Bool
is_unreachable adj tiers w = not (is_some (lookup w.id tiers)) && ltb 0 (degree adj w)

-- The tiers of a road's two ends, a missing one taken from the other end.
road_tiers : Option ℕ → Option ℕ → Option (ℕ × ℕ)
road_tiers none none = none
road_tiers (some a) none = some (a, a)
road_tiers none (some b) = some (b, b)
road_tiers (some a) (some b) = some (a, b)

tiered_roads : Dict ℕ → List RoadDraft → List (RoadDraft × ℕ × ℕ)
unfolding road_tiers
tiered_roads tiers [] = []
tiered_roads tiers (s ∷ roads) =
    elim (road_tiers (lookup s.waypoint_id_a tiers) (lookup s.waypoint_id_b tiers)) [
      | none ↦ tiered_roads tiers roads
      | some (from, to) ↦ (s, from, to) ∷ tiered_roads tiers roads
    ]

abbrev road_before : (RoadDraft × ℕ × ℕ) → (RoadDraft × ℕ × ℕ) → Bool
road_before a b =
    if eqb (min a.1 a.2) (min b.1 b.2)
    then leb (max a.1 a.2) (max b.1 b.2)
    else leb (min a.1 a.2) (min b.1 b.2)

-- `localeCompare` is the browser's: `name_le a b` says that it returns at most 0.
module _ (name_le : String → String → Bool) where
  abbrev pub waypoint_before : (WaypointDraft × ℕ) → (WaypointDraft × ℕ) → Bool
  waypoint_before a b = if eqb a.1 b.1 then name_le a.0.name b.0.name else leb a.1 b.1

  unfoldable pub route_order_of :
      Dict (List String) → Dict ℕ → List WaypointDraft → List RoadDraft → RouteOrderResult
  unfolding tiered tiered_roads
  route_order_of adj tiers ws roads = record {
    tiers = tiers;
    ordered_waypoints = sort_by waypoint_before (tiered tiers ws);
    ordered_roads = sort_by road_before (tiered_roads tiers roads);
    branch_points = map (λ w. (w.id, degree adj w)) (filter (is_branch adj tiers) ws);
    unreachable = filter (is_unreachable adj tiers) ws;
  }

  unfoldable pub compute_route_order : List WaypointDraft → List RoadDraft → Option RouteOrderResult
  unfolding route_order_of
  compute_route_order ws roads = elim (tier_by_waypoint ws roads) [
    | none ↦ none
    | some tiers ↦ some (route_order_of (adj_map ws roads) tiers ws roads)
  ]
