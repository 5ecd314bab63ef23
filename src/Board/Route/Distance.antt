-- ===== src/Board/Route/Distance.antt =====
-- The tiers of computeRouteOrder are distances from the start, and its lists follow them.
use mathlib.Core.Path.{fun_ext, subst}
use text.Mathlib.TextPositions.{eq_refl}
use runway_the_game.Prelude.{
  ℕ, suc, ◌≤◌, String, eq_iff, Bool, true, ◌≡◌, refl, ◌↔◌, some, List, [], ◌∷◌, length, includes,
  Dict, lookup, arith,
}
use runway_the_game.Board.{WaypointDraft, RoadDraft}
use runway_the_game.Board.Route.{neighbors, adj_map, from_start, starts, tier_by_waypoint}
use runway_the_game.Board.Route.Adjacent.{ids, adjacent, neighbors-adj_map, adjacent_known}
use runway_the_game.Board.Route.Queue.{unseen-le, search_from_total}
use runway_the_game.Board.Route.Walk.{Walk}
use runway_the_game.Board.Route.Shortest.{edge_of, Searching, search_from_sound, settled_shortest}

-- n is the length of the shortest walk over the board's roads.
abbrev pub Distance : List WaypointDraft → List RoadDraft → String → String → ℕ → Type 0
Distance ws roads start u n =
    Walk (adjacent ws roads) start n u × ((m : ℕ) → Walk (adjacent ws roads) start m u → n ≤ m)

edge_of-adj_map :
    (ws : List WaypointDraft) (roads : List RoadDraft)
    → edge_of (adj_map ws roads) ≡ adjacent ws roads
edge_of-adj_map ws roads = fun_ext λ u. fun_ext λ v. neighbors-adj_map ws roads u v

length-ids : (ws : List WaypointDraft) → length (ids ws) ≡ length ws
length-ids [] = refl
length-ids (w ∷ ws) = omega (arith, length-ids ws)

closed-adj_map :
    (ws : List WaypointDraft) (roads : List RoadDraft) (u v : String)
    → includes v (neighbors (adj_map ws roads) u) ≡ true
    → includes v (ids ws) ≡ true
closed-adj_map ws roads u v h = adjacent_known ws roads u v (rw neighbors-adj_map at h)

-- Whatever the board, the search returns with the fuel that it is given.
pub tier_by_waypoint_total :
    (ws : List WaypointDraft) (roads : List RoadDraft)
    → (tiers : Dict ℕ) × (tier_by_waypoint ws roads ≡ some tiers)
unfolding tier_by_waypoint
tier_by_waypoint_total ws roads = go (starts ws)
  where
    go :
        (ss : List WaypointDraft)
        → (tiers : Dict ℕ) × (from_start (suc (length ws)) (adj_map ws roads) ss ≡ some tiers)
    go [] = ([], refl)
    go (s ∷ []) =
        search_from_total (suc (length ws)) (ids ws) (adj_map ws roads) ((s.id, 0) ∷ [])
          ((s.id, 0) ∷ []) (closed-adj_map ws roads)
          (omega (arith, unseen-le (ids ws) ((s.id, 0) ∷ []), length-ids ws))
    go (_ ∷ _ ∷ _) = ([], refl)

lookup_start :
    (start u : String) (m : ℕ) → lookup u ((start, 0) ∷ []) ≡ some m → (u ≡ start) × (m ≡ 0)
lookup_start start u m e = ground (arith, eq_iff start u)

Searching-start :
    (edge : String → String → Bool) (start : String)
    → Searching edge start ((start, 0) ∷ []) ((start, 0) ∷ [])
Searching-start edge start = record {
  first = ground (arith, eq_refl start);
  sound = λ u m e. let (p, q) = lookup_start start u m e in rw q p;
  carries = (ground (arith, eq_refl start), tt);
  ascending = (tt, tt);
  ahead = λ u m e. omega (arith, (lookup_start start u m e).1);
  settled = λ u m e. ground (arith, eq_iff start u);
}

Searching-tiers :
    (ws : List WaypointDraft) (roads : List RoadDraft) (s : WaypointDraft) (tiers : Dict ℕ)
    → starts ws ≡ s ∷ []
    → tier_by_waypoint ws roads ≡ some tiers
    → Searching (adjacent ws roads) s.id [] tiers
unfolding tier_by_waypoint
Searching-tiers ws roads s tiers one e =
    subst (λ edge. Searching edge s.id [] tiers) (edge_of-adj_map ws roads)
      (search_from_sound (suc (length ws)) (adj_map ws roads) s.id ((s.id, 0) ∷ []) ((s.id, 0) ∷ [])
        tiers (Searching-start (edge_of (adj_map ws roads)) s.id) (rw one at e))

-- What a walk reaches has a tier.
pub tier_of_Walk :
    (ws : List WaypointDraft) (roads : List RoadDraft) (s : WaypointDraft) (tiers : Dict ℕ)
    → starts ws ≡ s ∷ []
    → tier_by_waypoint ws roads ≡ some tiers
    → (n : ℕ) (u : String) → Walk (adjacent ws roads) s.id n u
    → (m : ℕ) × (lookup u tiers ≡ some m)
tier_of_Walk ws roads s tiers one e n u w =
    let (m, here, h) =
      settled_shortest (adjacent ws roads) s.id tiers (Searching-tiers ws roads s tiers one e) n u
        w in
    (m, here)

-- A tier is the length of a walk.
pub Walk-of_tier :
    (ws : List WaypointDraft) (roads : List RoadDraft) (s : WaypointDraft) (tiers : Dict ℕ)
    → starts ws ≡ s ∷ []
    → tier_by_waypoint ws roads ≡ some tiers
    → (n : ℕ) (u : String) → lookup u tiers ≡ some n
    → Walk (adjacent ws roads) s.id n u
Walk-of_tier ws roads s tiers one e n u h = (Searching-tiers ws roads s tiers one e).sound u n h

-- On a board with one start, the walk returns, and a waypoint's tier is n exactly when the shortest
-- walk to it over roads between board waypoints has n roads; without a walk it has no tier.
pub tier_by_waypoint-Distance :
    (ws : List WaypointDraft) (roads : List RoadDraft) (s : WaypointDraft)
    → starts ws ≡ s ∷ []
    → (tiers : Dict ℕ) × (tier_by_waypoint ws roads ≡ some tiers)
      × ((u : String) (n : ℕ) → (lookup u tiers ≡ some n) ↔ Distance ws roads s.id u n)
tier_by_waypoint-Distance ws roads s one =
    let (tiers, e) = tier_by_waypoint_total ws roads in
    let inv = Searching-tiers ws roads s tiers one e in
    (
      tiers,
      e,
      λ u n. (
        λ found. (
          inv.sound u n found,
          λ m w.
              let (l, here, h) = settled_shortest (adjacent ws roads) s.id tiers inv m u w in
              ground arith,
        ),
        λ d.
            let (l, here, h) = settled_shortest (adjacent ws roads) s.id tiers inv n u d.0 in
            let back = d.1 l (inv.sound u l here) in ground arith,
      ),
    )
