-- ===== src/Projection/Store/Tests.antt =====
-- A store with one subscriber.
use runway_the_game.Prelude.{ℕ, String, Option, none, List, [], ◌∷◌}
use runway_the_game.Projection.{connected, initial_game_state}
use runway_the_game.Projection.Store.{
  Store, Action, subscribing, connecting, naming, unsubscribing, perform_all,
}
use runway_the_game.Projection.Store.Informed.{IsInformed, perform_all-IsInformed}

abbrev quiet : Store
quiet = record { state = initial_game_state; listeners = []; calls = [] }

abbrev parse : String → Option ℕ
parse t = none

abbrev no_session : String → Option String
no_session g = none

abbrev script : List Action
script = subscribing 1 ∷ naming "g" ∷ subscribing 2 ∷ connecting connected ∷ unsubscribing 1 ∷ []

perform_all-IsInformed_example : IsInformed (perform_all parse no_session script quiet)
perform_all-IsInformed_example = perform_all-IsInformed parse no_session script quiet (λ l h. cc)
