-- ===== src/Analytics/Tests.antt =====
-- A client that is asked for two events, then allowed to send them.
use runway_the_game.Prelude.{refl, false, true, List, [], ◌∷◌, ◌++◌, ◌≡◌, map}
use mathlib.Core.List.Sublistᴰ.{slnil}
use runway_the_game.Analytics.{
  QueuedEvent, Event, tracked, request_failed, initialised, configured, timed, answered, response,
  handle_all, handle, no_events,
}
use runway_the_game.Analytics.Bounded.{IsBounded, handle_all-IsBounded, no_events-IsBounded}
use runway_the_game.Analytics.Delivered.{Ordered, events_of, handle_all-Ordered}

abbrev opened : QueuedEvent
opened = record { name = "app.surface_opened"; props = ("surface", "editor") ∷ [] }

abbrev lost : QueuedEvent
lost = record { name = "app.request_failed"; props = ("status", "0") ∷ [] }

abbrev a_session : List Event
a_session =
    initialised false
    ∷ tracked opened
    ∷ configured true
    ∷ request_failed lost
    ∷ timed
    ∷ answered (response 503)
    ∷ []

session_sent :
    map (λ b. map (λ e. e.name) b) (handle_all a_session no_events).sent
    ≡ ("app.surface_opened" ∷ "app.request_failed" ∷ []) ∷ []
unfolding handle_all handle
session_sent = refl

handle_all-IsBounded_example : IsBounded (handle_all a_session no_events)
handle_all-IsBounded_example = handle_all-IsBounded a_session no_events no_events-IsBounded

handle_all-Ordered_example : Ordered (handle_all a_session no_events) ([] ++ events_of a_session)
handle_all-Ordered_example = handle_all-Ordered a_session no_events [] slnil
