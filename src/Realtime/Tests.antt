-- ===== src/Realtime/Tests.antt =====
-- The client over a dropped connection.
use runway_the_game.Prelude.{ℕ, String, ◌≡◌, refl, true, false, none, List, [], ◌∷◌, arith, Option}
use runway_the_game.Projection.{initial_game_state}
use runway_the_game.Realtime.{
  WebsocketClient, Event, first_interval, handle_all, handle, init, connect_live, begin_game,
  disconnect, on_close, on_timeout, on_error, schedule_reconnect, starting, socket_closing,
  socket_closed, socket_failed, timer,
}
use runway_the_game.Realtime.Attempts
use runway_the_game.Realtime.Trying

abbrev new_client : WebsocketClient
new_client = record {
  ws = none;
  game_id = none;
  token = none;
  reconnect_timeout = none;
  reconnect_interval = first_interval;
  store = record { state = initial_game_state; listeners = []; calls = [] };
  nudges = 0;
}

new_client-IsSound : Attempts.IsSound new_client
new_client-IsSound = (omega arith, omega arith, omega arith)

abbrev no_date : String → Option ℕ
no_date s = none

abbrev no_session : String → Option String
no_session g = none

abbrev dropped : List Event
dropped = socket_closing ∷ socket_closed ∷ timer true ∷ timer false ∷ socket_failed ∷ []

interval :
    (handle_all no_date no_session (starting false "a" "t" ∷ dropped) new_client).reconnect_interval
    ≡ 27000
unfolding handle_all handle init connect_live begin_game disconnect on_close on_timeout on_error
    schedule_reconnect
interval = refl

handle_all-IsSound_example : Attempts.IsSound (handle_all no_date no_session dropped new_client)
handle_all-IsSound_example =
    Attempts.handle_all-IsSound no_date no_session dropped new_client new_client-IsSound

handle_all-IsTrying_example :
    Trying.IsTrying (handle_all no_date no_session (starting false "a" "t" ∷ dropped) new_client)
handle_all-IsTrying_example =
    Trying.handle_all-IsTrying no_date no_session false "a" "t" dropped new_client
      new_client-IsSound refl (refl, (refl, (refl, (refl, (refl, tt)))))
