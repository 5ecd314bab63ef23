-- ===== src/Board/Route/Listed.antt =====
-- The lists that computeRouteOrder returns.
use mathlib.Core.List.{Memᴰ}
use runway_the_game.Prelude.{
  ℕ, ◌≤◌, String, Bool, true, false, ◌≡◌, sym, ap, ◌∙◌, All-imp, some, List, [], ◌∷◌, All,
  All-filter, All-sort_by, AscendingBy, AscendingBy-sort_by, Memᴰ-sort_by, Dict, lookup, arith,
  Option-cases, inl, inr,
}
use runway_the_game.Board.{WaypointDraft, RoadDraft}
use runway_the_game.Board.Route.{
  adj_map, starts, tiered, RouteOrderResult, compute_route_order, route_order_of, waypoint_before,
  is_unreachable,
}
use runway_the_game.Board.Route.Adjacent.{adjacent}
use runway_the_game.Board.Route.Walk.{Walk}
use runway_the_game.Board.Route.Distance.{Distance, tier_by_waypoint-Distance, tier_of_Walk}

All-tiered :
    (tiers : Dict ℕ) (ws : List WaypointDraft)
    → All (λ e. lookup e.0.id tiers ≡ some e.1) (tiered tiers ws)
unfolding tiered
All-tiered tiers [] = tt
All-tiered tiers (w ∷ ws) = elim (Option-cases (lookup w.id tiers)) [
  | inl e ↦ rw (e, tiered) (All-tiered tiers ws)
  | inr (k, e) ↦ rw (e, tiered) (e, All-tiered tiers ws)
]

Memᴰ-tiered :
    (tiers : Dict ℕ) (ws : List WaypointDraft) (w : WaypointDraft) (k : ℕ)
    → lookup w.id tiers ≡ some k
    → Memᴰ w ws
    → Memᴰ (w, k) (tiered tiers ws)
unfolding tiered
Memᴰ-tiered tiers [] w k e m = elim m [ ]
Memᴰ-tiered tiers (v ∷ ws) w k e (Memᴰ.head p) =
    rw (ap (λ (x : WaypointDraft). lookup x.id tiers) (sym p) ∙ e, tiered)
      (Memᴰ.head (λ i. (p i, k)))
Memᴰ-tiered tiers (v ∷ ws) w k e (Memᴰ.tail m) = elim (Option-cases (lookup v.id tiers)) [
  | inl e' ↦ rw (e', tiered) (Memᴰ-tiered tiers ws w k e m)
  | inr (j, e') ↦ rw (e', tiered) (Memᴰ.tail (Memᴰ-tiered tiers ws w k e m))
]

module _ (name_le : String → String → Bool) where
  before_true : (a b : WaypointDraft × ℕ) → waypoint_before name_le a b ≡ true → a.1 ≤ b.1
  before_true a b h = ground arith

  before_false : (a b : WaypointDraft × ℕ) → waypoint_before name_le a b ≡ false → b.1 ≤ a.1
  before_false a b h = ground arith

  -- What the lists of a route order say, for the distances from the start.
  pub record Follows (ws : List WaypointDraft) (roads : List RoadDraft) (s : WaypointDraft)
      (r : RouteOrderResult) : Type 0 where
    pub distances : All (λ e. Distance ws roads s.id e.0.id e.1) r.ordered_waypoints
    pub ascending : AscendingBy (λ e. e.1) r.ordered_waypoints
    pub complete :
        (w : WaypointDraft) (n : ℕ)
        → Memᴰ w ws
        → Walk (adjacent ws roads) s.id n w.id
        → (k : ℕ) × Memᴰ (w, k) r.ordered_waypoints
    pub cut_off : All (λ w. (n : ℕ) → ¬ Walk (adjacent ws roads) s.id n w.id) r.unreachable

  -- On a board with one start, computeRouteOrder returns; the waypoints it orders are listed by
  -- rising distance from the start, each with its distance; every waypoint of the board that a walk
  -- reaches is among them; and no walk reaches a waypoint that it calls unreachable.
  pub compute_route_order-Follows :
      (ws : List WaypointDraft) (roads : List RoadDraft) (s : WaypointDraft)
      → starts ws ≡ s ∷ []
      → (r : RouteOrderResult) × (compute_route_order name_le ws roads ≡ some r)
        × Follows ws roads s r
  unfolding compute_route_order route_order_of
  compute_route_order-Follows ws roads s one =
      let (tiers, e, exact) = tier_by_waypoint-Distance ws roads s one in
      (
        route_order_of name_le (adj_map ws roads) tiers ws roads,
        rw (e, compute_route_order),
        record {
          distances =
              All-sort_by (λ e. Distance ws roads s.id e.0.id e.1) (waypoint_before name_le)
                (tiered tiers ws)
                (All-imp (tiered tiers ws) (λ e'. (exact e'.0.id e'.1).0) (All-tiered tiers ws));
          ascending =
              AscendingBy-sort_by (λ e. e.1) (waypoint_before name_le) before_true before_false
                (tiered tiers ws);
          complete = λ w n m walk.
              let (k, found) = tier_of_Walk ws roads s tiers one e n w.id walk in
              (
                k,
                Memᴰ-sort_by (waypoint_before name_le) (w, k) (tiered tiers ws)
                    (Memᴰ-tiered tiers ws w k found m),
              );
          cut_off =
              All-filter (λ w. (n : ℕ) → ¬ Walk (adjacent ws roads) s.id n w.id)
                (is_unreachable (adj_map ws roads) tiers) ws
                (λ w out n walk.
                  let (k, found) = tier_of_Walk ws roads s tiers one e n w.id walk in ground arith);
        },
      )
