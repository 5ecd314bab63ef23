-- ===== src/Destination/Tests.antt =====
-- Two roads out of a fork.
use runway_the_game.Prelude.{
  ◌⊎◌, String, ◌≡◌, refl, none, some, List, [], ◌∷◌, or_default, true, false,
}
use runway_the_game.Destination.{
  RouteChoice, Measured, nearest, leads_to, distance_to, resolve_destination_id,
}
use runway_the_game.Destination.Settled.{Switched, Least, resolve_destination_id-settles}

abbrev fork : List RouteChoice
fork =
    record { waypoint_id = "west"; distance = some 100000 }
    ∷ record { waypoint_id = "east"; distance = some 65000 }
    ∷ []

stays : resolve_destination_id fork none (some "west") ≡ some "west"
unfolding resolve_destination_id
stays = refl

resolve_destination_id-settles_example :
    (resolve_destination_id fork none (resolve_destination_id fork none (some "west"))
      ≡ resolve_destination_id fork none (some "west"))
    × ((p : String)
        → leads_to fork p ≡ true
        → leads_to fork (or_default none "") ≡ false
        → (resolve_destination_id fork none (some p) ≡ some p)
          ⊎ Switched
              (nearest fork)
              (distance_to fork p)
              (or_default (resolve_destination_id fork none (some p)) ""))
    × ((m : Measured) → nearest fork ≡ some m → Least m fork)
resolve_destination_id-settles_example = resolve_destination_id-settles fork none (some "west")

-- At exactly six tenths.
abbrev even_fork : List RouteChoice
even_fork =
    record { waypoint_id = "west"; distance = some 100000 }
    ∷ record { waypoint_id = "east"; distance = some 60000 }
    ∷ []

stays_at_ratio : resolve_destination_id even_fork none (some "west") ≡ some "west"
unfolding resolve_destination_id
stays_at_ratio = refl
