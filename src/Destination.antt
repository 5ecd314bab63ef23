-- ===== src/Destination.antt =====
-- The waypoint that a player is heading for: frontend/src/surfaces/player/destination.ts. Distances
-- are whole millimetres.
pub mod Settled
mod Tests
use runway_the_game.Prelude.{
  ℕ, ◌+◌, ◌*◌, ltb, leb, String, ◌==◌, Bool, true, false, ◌&&◌, not, Option, none, some, List, [],
  ◌∷◌, any, find, truthy, if◌then◌else◌,
}

pub record RouteChoice : Type 0 where
  pub waypoint_id : String
  pub distance : Option ℕ

abbrev pub switch_min_gain_mm : ℕ
switch_min_gain_mm = 30000

-- The waypoint of a route that has a distance, with it.
abbrev pub Measured : Type 0
Measured = String × ℕ

abbrev pub nearer_of : Option Measured → String → Option ℕ → Option Measured
nearer_of best w none = best
nearer_of none w (some d) = some (w, d)
nearer_of (some b) w (some d) = if ltb d b.1 then some (w, d) else some b

abbrev pub nearer : Option Measured → RouteChoice → Option Measured
nearer best r = nearer_of best r.waypoint_id r.distance

abbrev pub nearest_after : Option Measured → List RouteChoice → Option Measured
nearest_after best [] = best
nearest_after best (r ∷ rs) = nearest_after (nearer best r) rs

abbrev pub nearest : List RouteChoice → Option Measured
nearest rs = nearest_after none rs

abbrev pub leads_to : List RouteChoice → String → Bool
leads_to rs id = truthy id && any (λ r. r.waypoint_id == id) rs

abbrev pub distance_to : List RouteChoice → String → Option ℕ
distance_to rs id = elim (find (λ r. r.waypoint_id == id) rs) [ none ↦ none | some r ↦ r.distance ]

-- `near < current * 0.6`, and closer by the least gain.
abbrev pub clearly_closer : ℕ → ℕ → Bool
clearly_closer near current =
    ltb (10 * near) (6 * current) && leb (near + switch_min_gain_mm) current

-- The previous pick, or the nearest when that is clearly closer.
abbrev pub kept_or_switched : Option Measured → Option ℕ → String → String
kept_or_switched none current previous = previous
kept_or_switched (some n) none previous = previous
kept_or_switched (some n) (some c) previous =
    if n.0 == previous then previous else if clearly_closer n.1 c then n.0 else previous

abbrev pub nearest_or_first : Option Measured → String → String
nearest_or_first none first = first
nearest_or_first (some n) first = n.0

-- The pick without one of the player's.
abbrev pub settle : List RouteChoice → String → Option String → String
settle rs first none = nearest_or_first (nearest rs) first
settle rs first (some previous) =
    if leads_to rs previous
    then kept_or_switched (nearest rs) (distance_to rs previous) previous
    else nearest_or_first (nearest rs) first

unfoldable pub resolve_destination_id :
    List RouteChoice → Option String → Option String → Option String
resolve_destination_id [] explicit previous = none
resolve_destination_id (r ∷ rs) none previous = some (settle (r ∷ rs) r.waypoint_id previous)
resolve_destination_id (r ∷ rs) (some id) previous =
    if leads_to (r ∷ rs) id then some id else some (settle (r ∷ rs) r.waypoint_id previous)
