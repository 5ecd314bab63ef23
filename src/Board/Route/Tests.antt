-- ===== src/Board/Route/Tests.antt =====
-- Route orders of small boards.
use runway_the_game.Prelude.{
  ℕ, String, Bool, true, false, ◌≡◌, ◌↔◌, refl, none, some, List, [], ◌∷◌, Dict, lookup,
}
use runway_the_game.Prelude.Int.{pos}
use runway_the_game.Board.{WaypointDraft, RoadDraft}
use runway_the_game.Board.Route.{
  tier_by_waypoint, adj_map, search_from, visit, RouteOrderResult, compute_route_order,
}
use runway_the_game.Board.Route.Distance.{Distance, tier_by_waypoint-Distance}
use runway_the_game.Board.Route.Listed.{Follows, compute_route_order-Follows}

abbrev wp : String → Bool → Bool → WaypointDraft
wp id start finish = record {
  id = id;
  name = id;
  lat = pos 0;
  lon = pos 0;
  arrival_radius_m = 25;
  is_start = start;
  is_finish = finish;
  challenge = none;
  coin_reward = none;
}

abbrev road : String → String → String → RoadDraft
road id a b = record {
  id = id;
  waypoint_id_a = a;
  waypoint_id_b = b;
  challenge_id = none;
  challenge = none;
}

abbrev diamond : List WaypointDraft
diamond = wp "s" true false ∷ wp "a" false false ∷ wp "b" false false ∷ wp "f" false true ∷ []

abbrev diamond_roads : List RoadDraft
diamond_roads = road "1" "s" "a" ∷ road "2" "b" "s" ∷ road "3" "a" "f" ∷ road "4" "x" "f" ∷ []

diamond_tiers :
    tier_by_waypoint diamond diamond_roads ≡ some (("s", 0) ∷ ("a", 1) ∷ ("b", 1) ∷ ("f", 2) ∷ [])
unfolding tier_by_waypoint adj_map search_from visit
diamond_tiers = refl

abbrev by_name : String → String → Bool
by_name a b = true

tier_by_waypoint-Distance_example :
    (tiers : Dict ℕ) × (tier_by_waypoint diamond diamond_roads ≡ some tiers)
    × ((u : String) (n : ℕ) → (lookup u tiers ≡ some n) ↔ Distance diamond diamond_roads "s" u n)
tier_by_waypoint-Distance_example =
    tier_by_waypoint-Distance diamond diamond_roads (wp "s" true false) refl

compute_route_order-Follows_example :
    (r : RouteOrderResult) × (compute_route_order by_name diamond diamond_roads ≡ some r)
    × Follows by_name diamond diamond_roads (wp "s" true false) r
compute_route_order-Follows_example =
    compute_route_order-Follows by_name diamond diamond_roads (wp "s" true false) refl
