-- ===== src/Realtime/Attempts.antt =====
-- How often frontend/src/core/projection/websocketClient.ts tries to connect.
use runway_the_game.Prelude.{
  ℕ, ◌+◌, ◌≤◌, String, ◌==◌, ◌≡◌, refl, inl, inr, Bool, true, false, ◌&&◌, Option, none, some, List,
  [], ◌∷◌, arith, Bool-cases, Option-cases,
}
use runway_the_game.Realtime.{
  WebsocketClient, ReadyState, connecting, opened, closing, closed, Event, starting, stopping,
  socket_opened, socket_closing, socket_closed, socket_failed, message, timer, stale_error,
  has_live, has_socket, is_open, is_connecting, is_pending, first_interval, last_interval, back_off,
  schedule_reconnect, connect_live, disconnect, init, begin_game, wake, same_text, on_open,
  on_close, on_error, on_message, on_timeout, handle, handle_all,
}

abbrev pub count : Bool → ℕ
count true = 1
count false = 0

-- The connections that are made, kept or closing, and the timers that will make one.
abbrev pub attempts : WebsocketClient → ℕ
attempts c = count (has_socket c.ws) + count (is_pending c.reconnect_timeout)

-- At most one attempt, and an interval between 3 and 30 seconds.
abbrev pub IsSound : WebsocketClient → Type 0
IsSound c =
    (attempts c ≤ 1)
    × (first_interval ≤ c.reconnect_interval)
    × (c.reconnect_interval ≤ last_interval)

connect_live-IsSound :
    (throws : Bool) (c : WebsocketClient)
    → attempts c ≡ 0
    → first_interval ≤ c.reconnect_interval
    → c.reconnect_interval ≤ last_interval
    → IsSound (connect_live throws c)
unfolding connect_live schedule_reconnect
connect_live-IsSound true c h l k = elim (Option-cases c.game_id) [
  | inl e ↦ rw (e, connect_live) (omega (arith, h), l, k)
  | inr (g, e) ↦ rw (e, connect_live) (ground (arith, h), l, k)
]
connect_live-IsSound false c h l k = elim (Option-cases c.game_id) [
  | inl e ↦ rw (e, connect_live) (omega (arith, h), l, k)
  | inr (g, e) ↦ rw (e, connect_live) (ground (arith, h), l, k)
]

init-IsSound :
    (throws : Bool) (g t : String) (c : WebsocketClient) → IsSound c → IsSound (init throws g t c)
unfolding init begin_game disconnect
init-IsSound throws g t c h = elim (Bool-cases (g == "")) [
  | inl e ↦ rw e h
  | inr e ↦ elim (Bool-cases (same_text c.game_id g && same_text c.token t && has_live c.ws)) [
    | inl p ↦ rw (e, p) h
    | inr p ↦ rw (e, p) (connect_live-IsSound throws (begin_game g t c) refl h.1 h.2)
  ]
]

back_off-low : (n : ℕ) → first_interval ≤ n → first_interval ≤ back_off n
back_off-low n h = ground (arith, h)

back_off-high : (n : ℕ) → back_off n ≤ last_interval
back_off-high n = ground arith

pub closed_attempts :
    (c : WebsocketClient)
    → attempts c ≤ 1
    → has_socket c.ws ≡ true
    → count (is_pending c.reconnect_timeout) ≡ 0
closed_attempts c h e = ground (arith, h, e)

pub has_socket-is_connecting :
    (ws : Option ReadyState) → is_connecting ws ≡ true → has_socket ws ≡ true
has_socket-is_connecting none e = ground (arith, e)
has_socket-is_connecting (some connecting) e = refl
has_socket-is_connecting (some opened) e = refl
has_socket-is_connecting (some closing) e = refl
has_socket-is_connecting (some closed) e = ground (arith, e)

pub has_socket-has_live : (ws : Option ReadyState) → has_live ws ≡ true → has_socket ws ≡ true
has_socket-has_live none e = ground (arith, e)
has_socket-has_live (some connecting) e = refl
has_socket-has_live (some opened) e = refl
has_socket-has_live (some closing) e = refl
has_socket-has_live (some closed) e = ground (arith, e)

pub pending_attempts :
    (c : WebsocketClient)
    → attempts c ≤ 1
    → is_pending c.reconnect_timeout ≡ true
    → count (has_socket c.ws) ≡ 0
pending_attempts c h e = ground (arith, h, e)

module _ (parse_date : String → Option ℕ) (session_team : String → Option String) where
  pub handle-IsSound :
      (e : Event) (c : WebsocketClient) → IsSound c → IsSound (handle parse_date session_team e c)
  unfolding handle disconnect on_open on_close on_error on_message on_timeout schedule_reconnect
  handle-IsSound (starting throws g t) c h = init-IsSound throws g t c h
  handle-IsSound stopping c h = (omega arith, h.1, h.2)
  handle-IsSound socket_opened c h = elim (Bool-cases (is_connecting c.ws)) [
    | inl e ↦ rw e (
      omega (arith, closed_attempts c h.0 (has_socket-is_connecting c.ws e)),
      omega arith,
      omega arith,
    )
    | inr e ↦ rw e h
  ]
  handle-IsSound socket_closing c h = elim (Bool-cases (has_live c.ws)) [
    | inl e ↦ rw e (omega (arith, closed_attempts c h.0 (has_socket-has_live c.ws e)), h.1, h.2)
    | inr e ↦ rw e h
  ]
  handle-IsSound socket_closed c h = elim (Bool-cases (has_socket c.ws)) [
    | inl e ↦ rw e (omega arith, h.1, h.2)
    | inr e ↦ rw e h
  ]
  handle-IsSound socket_failed c h = elim (Bool-cases (has_socket c.ws)) [
    | inl e ↦ rw e h
    | inr e ↦ rw e h
  ]
  handle-IsSound (message none) c h = elim (Bool-cases (is_open c.ws)) [
    | inl e ↦ rw e h
    | inr e ↦ rw e h
  ]
  handle-IsSound (message (some raw)) c h = elim (Bool-cases (is_open c.ws)) [
    | inl e ↦ rw e h
    | inr e ↦ rw e h
  ]
  handle-IsSound (timer throws) c h = elim (Bool-cases (is_pending c.reconnect_timeout)) [
    | inl e ↦ rw e (
        connect_live-IsSound throws (wake c) (omega (arith, pending_attempts c h.0 e))
          (back_off-low c.reconnect_interval h.1) (back_off-high c.reconnect_interval))
    | inr e ↦ rw e h
  ]
  handle-IsSound stale_error c h = h

  -- Whatever calls and events follow, a sound client, such as a new one, has at most one connection
  -- (being made, open or closing) or pending reconnect at a time, and the interval stays between 3
  -- and 30 seconds.
  pub handle_all-IsSound :
      (events : List Event) (c : WebsocketClient)
      → IsSound c
      → IsSound (handle_all parse_date session_team events c)
  unfolding handle_all
  handle_all-IsSound [] c h = h
  handle_all-IsSound (e ∷ events) c h =
      handle_all-IsSound events (handle parse_date session_team e c) (handle-IsSound e c h)
