-- ===== src/Board/Route/Queue.antt =====
-- The queue loop of computeRouteOrder ends: a waypoint is queued once, when it gets its tier.
use text.Mathlib.TextPositions.{eq_refl}
use runway_the_game.Prelude.{
  ℕ, zero, suc, ◌+◌, ◌≤◌, String, eq_iff, true, ◌≡◌, refl, none, some, List, [], ◌∷◌, ◌++◌, length,
  length-append, includes, Dict, lookup, insert, lookup-insert, arith,
}
use runway_the_game.Board.Route.{Queue, neighbors, visit, search_from}

-- How many of the ids have no tier yet.
abbrev pub unseen : List String → Dict ℕ → ℕ
unseen [] tiers = 0
unseen (id ∷ ids) tiers = elim (lookup id tiers) [
  | none ↦ suc (unseen ids tiers)
  | some _ ↦ unseen ids tiers
]

unseen-insert_le :
    (ids : List String) (n : String) (k : ℕ) (tiers : Dict ℕ)
    → unseen ids (insert n k tiers) ≤ unseen ids tiers
unseen-insert_le [] n k tiers = omega arith
unseen-insert_le (id ∷ ids) n k tiers =
    ground (arith, unseen-insert_le ids n k tiers, lookup-insert n id k tiers)

unseen-insert_lt :
    (ids : List String) (n : String) (k : ℕ) (tiers : Dict ℕ)
    → lookup n tiers ≡ none
    → includes n ids ≡ true
    → unseen ids (insert n k tiers) + 1 ≤ unseen ids tiers
unseen-insert_lt [] n k tiers h i = cc
unseen-insert_lt (id ∷ ids) n k tiers h i = ground (
  arith,
  unseen-insert_lt ids n k tiers h,
  unseen-insert_le ids n k tiers,
  lookup-insert n id k tiers,
  eq_iff id n,
  eq_iff n id,
)

-- Queue and untiered waypoints together never grow while neighbors are visited.
visit_measure :
    (ids : List String) (tier : ℕ) (ns : List String) (queue : Queue) (tiers : Dict ℕ)
    → ((v : String) → includes v ns ≡ true → includes v ids ≡ true)
    → length (visit tier ns queue tiers).0 + unseen ids (visit tier ns queue tiers).1
      ≤ length queue + unseen ids tiers
unfolding visit
visit_measure ids tier [] queue tiers h = omega arith
visit_measure ids tier (n ∷ ns) queue tiers h = ground (
  arith,
  visit_measure ids tier ns (queue ++ (n, tier + 1) ∷ []) (insert n (tier + 1) tiers)
      (λ v i. h v (ground arith)),
  visit_measure ids tier ns queue tiers (λ v i. h v (ground arith)),
  length-append queue ((n, tier + 1) ∷ []),
  unseen-insert_lt ids n (tier + 1) tiers,
  h n,
  eq_refl n,
)

-- With that measure for fuel the search returns.
pub search_from_total :
    (fuel : ℕ) (ids : List String) (adj : Dict (List String)) (queue : Queue) (tiers : Dict ℕ)
    → ((u v : String) → includes v (neighbors adj u) ≡ true → includes v ids ≡ true)
    → length queue + unseen ids tiers ≤ fuel
    → (result : Dict ℕ) × (search_from fuel adj queue tiers ≡ some result)
unfolding search_from
search_from_total fuel ids adj [] tiers closed h = (tiers, refl)
search_from_total zero ids adj ((id, tier) ∷ queue) tiers closed h = absurd (omega arith)
search_from_total (suc fuel) ids adj ((id, tier) ∷ queue) tiers closed h =
    let (queue', tiers') = visit tier (neighbors adj id) queue tiers in
    search_from_total fuel ids adj queue' tiers' closed
      (omega (arith, visit_measure ids tier (neighbors adj id) queue tiers (closed id)))

pub unseen-le : (ids : List String) (tiers : Dict ℕ) → unseen ids tiers ≤ length ids
unseen-le [] tiers = omega arith
unseen-le (id ∷ ids) tiers = ground (arith, unseen-le ids tiers)
