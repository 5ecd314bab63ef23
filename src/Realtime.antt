-- ===== src/Realtime.antt =====
-- The class WebsocketClient of frontend/src/core/projection/websocketClient.ts: the connection that
-- feeds the projection store, and its reconnects. The browser's events are an argument; times are
-- in quarters of a millisecond, in which every interval that occurs is a whole number.
pub mod Attempts
pub mod Trying
mod Tests
use runway_the_game.Prelude.{
  ℕ, suc, ◌*◌, ◌/◌, min, String, ◌==◌, Bool, true, false, ◌&&◌, not, Option, none, some, List, [],
  ◌∷◌, ltb, if◌then◌else◌,
}
use runway_the_game.Projection.{ConnectionState}
use runway_the_game.Projection.Raw.{RawSnapshot}
use runway_the_game.Projection.Store.{Store, reset, set_game_id, set_connection_state, receive}

-- `readyState`
pub data ReadyState : Type 0 where
  connecting opened closing closed : ReadyState

abbrev pub is_live : ReadyState → Bool
is_live connecting = true
is_live opened = true
is_live _ = false

-- `reconnect_timeout` is the delay of a pending timer; `nudges` counts the calls of triggerSync.
pub record WebsocketClient : Type 0 where
  pub ws : Option ReadyState
  pub game_id : Option String
  pub token : Option String
  pub reconnect_timeout : Option ℕ
  pub reconnect_interval : ℕ
  pub store : Store
  pub nudges : ℕ

abbrev pub first_interval : ℕ
first_interval = 12000

abbrev pub last_interval : ℕ
last_interval = 120000

-- `min(interval * 1.5, 30000)`
abbrev pub back_off : ℕ → ℕ
back_off interval = min (interval * 3 / 2) last_interval

abbrev pub tell : ConnectionState → WebsocketClient → WebsocketClient
tell status c = record c { store = set_connection_state status c.store }

pub schedule_reconnect : WebsocketClient → WebsocketClient
schedule_reconnect c = record c { reconnect_timeout = some c.reconnect_interval }

-- `throws` says whether the constructor of WebSocket throws.
pub connect_live : Bool → WebsocketClient → WebsocketClient
unfolding schedule_reconnect
connect_live throws c = elim c.game_id [
  | none ↦ c
  | some g ↦
      if throws
      then schedule_reconnect
          (tell ConnectionState.disconnected (tell ConnectionState.connecting c))
      else record (tell ConnectionState.connecting c) { ws = some connecting }
]

pub disconnect : WebsocketClient → WebsocketClient
disconnect c = tell ConnectionState.disconnected (record c { ws = none; reconnect_timeout = none })

abbrev pub same_text : Option String → String → Bool
same_text none t = false
same_text (some s) t = s == t

abbrev pub has_live : Option ReadyState → Bool
has_live none = false
has_live (some s) = is_live s

-- A socket whose `onclose` is still to come: a live one, or one that is closing.
abbrev pub has_socket : Option ReadyState → Bool
has_socket none = false
has_socket (some closed) = false
has_socket (some _) = true

-- `init` up to `connectLive`
pub begin_game : String → String → WebsocketClient → WebsocketClient
unfolding disconnect
begin_game game_id token c =
    let d = disconnect c in
    record d {
      game_id = some game_id;
      token = some token;
      store = set_game_id game_id (reset d.store);
    }

pub init : Bool → String → String → WebsocketClient → WebsocketClient
unfolding connect_live begin_game
init throws game_id token c =
    if game_id == ""
    then c
    else if same_text c.game_id game_id && same_text c.token token && has_live c.ws
    then c
    else connect_live throws (begin_game game_id token c)

pub on_open : WebsocketClient → WebsocketClient
on_open c =
    record (tell
      (if ltb first_interval c.reconnect_interval
        then ConnectionState.catching_up
        else ConnectionState.connected)
      (record c { ws = some opened })) { reconnect_interval = first_interval }

-- The message, when it parses.
pub on_message :
    (String → Option ℕ)
    → (String → Option String)
    → Option RawSnapshot
    → WebsocketClient
    → WebsocketClient
on_message parse_date session_team none c = c
on_message parse_date session_team (some raw) c =
    let told =
      tell ConnectionState.connected
        (record c { store = receive parse_date session_team raw c.store }) in
    record told { nudges = suc told.nudges }

pub on_close : WebsocketClient → WebsocketClient
unfolding schedule_reconnect
on_close c = schedule_reconnect (tell ConnectionState.disconnected (record c { ws = some closed }))

pub on_error : WebsocketClient → WebsocketClient
on_error c = tell ConnectionState.disconnected c

abbrev pub wake : WebsocketClient → WebsocketClient
wake c = record c { reconnect_timeout = none; reconnect_interval = back_off c.reconnect_interval }

-- The callback of the timer.
pub on_timeout : Bool → WebsocketClient → WebsocketClient
unfolding connect_live
on_timeout throws c = connect_live throws (wake c)

-- What happens to the client: calls, and events of the current socket, of the timer, and of a
-- socket that `disconnect` let go, of which only `onclose` was taken off. `socket_closing` is no
-- callback: the browser has begun to close the current socket.
pub data Event : Type 0 where
  starting : Bool → String → String → Event
  stopping : Event
  socket_opened socket_closing socket_closed socket_failed : Event
  message : Option RawSnapshot → Event
  timer : Bool → Event
  stale_error : Event

abbrev pub is_connecting : Option ReadyState → Bool
is_connecting (some connecting) = true
is_connecting _ = false

abbrev pub is_open : Option ReadyState → Bool
is_open (some opened) = true
is_open _ = false

abbrev pub is_pending : Option ℕ → Bool
is_pending none = false
is_pending (some n) = true

module _ (parse_date : String → Option ℕ) (session_team : String → Option String) where
  -- An event that the browser would not deliver in this state changes nothing.
  pub handle : Event → WebsocketClient → WebsocketClient
  unfolding init disconnect on_open on_close on_error on_message on_timeout
  handle (starting throws g t) c = init throws g t c
  handle stopping c = disconnect c
  handle socket_opened c = if is_connecting c.ws then on_open c else c
  handle socket_closing c = if has_live c.ws then record c { ws = some closing } else c
  handle socket_closed c = if has_socket c.ws then on_close c else c
  handle socket_failed c = if has_socket c.ws then on_error c else c
  handle (message m) c = if is_open c.ws then on_message parse_date session_team m c else c
  handle (timer throws) c = if is_pending c.reconnect_timeout then on_timeout throws c else c
  handle stale_error c = on_error c

  pub handle_all : List Event → WebsocketClient → WebsocketClient
  unfolding handle
  handle_all [] c = c
  handle_all (e ∷ events) c = handle_all events (handle e c)
