-- ===== src/Realtime/Trying.antt =====
-- That frontend/src/core/projection/websocketClient.ts goes on trying to connect.
use runway_the_game.Prelude.{
  ℕ, String, ◌==◌, ◌≡◌, refl, inl, inr, Bool, true, false, ◌&&◌, Option, none, some, List, [], ◌∷◌,
  arith, Bool-cases, Option-cases, All,
}
use runway_the_game.Realtime.{
  WebsocketClient, Event, starting, stopping, socket_opened, socket_closing, socket_closed,
  socket_failed, message, timer, stale_error, has_live, has_socket, is_open, is_connecting,
  is_pending, schedule_reconnect, connect_live, disconnect, init, begin_game, wake, same_text,
  on_open, on_close, on_error, on_message, on_timeout, handle, handle_all,
}
use runway_the_game.Realtime.Attempts.{
  IsSound, attempts, closed_attempts, pending_attempts, has_socket-has_live,
  has_socket-is_connecting, handle-IsSound,
}

abbrev is_named : Option String → Bool
is_named none = false
is_named (some g) = true

-- One connection, of which a closing one will schedule a reconnect, or one pending reconnect, for a
-- game.
abbrev pub IsTrying : WebsocketClient → Type 0
IsTrying c = (attempts c ≡ 1) × (is_named c.game_id ≡ true)

-- An event but a call of `disconnect`.
abbrev pub keeps_on : Event → Bool
keeps_on stopping = false
keeps_on _ = true

connect_live-IsTrying :
    (throws : Bool) (c : WebsocketClient)
    → attempts c ≡ 0
    → is_named c.game_id ≡ true
    → IsTrying (connect_live throws c)
unfolding connect_live schedule_reconnect
connect_live-IsTrying true c h k = elim (Option-cases c.game_id) [
  | inl e ↦ ground (arith, k, e)
  | inr (g, e) ↦ rw (e, connect_live) (ground (arith, h), k)
]
connect_live-IsTrying false c h k = elim (Option-cases c.game_id) [
  | inl e ↦ ground (arith, k, e)
  | inr (g, e) ↦ rw (e, connect_live) (ground (arith, h), k)
]

same_text-is_named : (o : Option String) (g : String) → same_text o g ≡ true → is_named o ≡ true
same_text-is_named none g e = ground (arith, e)
same_text-is_named (some s) g e = refl

init-IsTrying :
    (throws : Bool) (g t : String) (c : WebsocketClient)
    → IsSound c
    → g == "" ≡ false
    → IsTrying (init throws g t c)
unfolding init begin_game disconnect
init-IsTrying throws g t c h e =
    elim (Bool-cases (same_text c.game_id g && same_text c.token t && has_live c.ws)) [
      | inl p ↦
          let live : has_live c.ws ≡ true = ground (arith, p) in
          let kept = has_socket-has_live c.ws live in
          rw (e, p) (ground (arith, kept, h.0), same_text-is_named c.game_id g (ground (arith, p)))
      | inr p ↦ rw (e, p) (connect_live-IsTrying throws (begin_game g t c) refl refl)
    ]

module _ (parse_date : String → Option ℕ) (session_team : String → Option String) where
  handle-IsTrying :
      (e : Event) (c : WebsocketClient)
      → keeps_on e ≡ true
      → IsSound c
      → IsTrying c
      → IsTrying (handle parse_date session_team e c)
  unfolding handle on_open on_close on_error on_message on_timeout schedule_reconnect init
  handle-IsTrying (starting throws g t) c k s h = elim (Bool-cases (g == "")) [
    | inl e ↦ rw e h
    | inr e ↦ init-IsTrying throws g t c s e
  ]
  handle-IsTrying stopping c k s h = ground (arith, k)
  handle-IsTrying socket_opened c k s h = elim (Bool-cases (is_connecting c.ws)) [
    | inl e ↦ rw e (omega (arith, closed_attempts c s.0 (has_socket-is_connecting c.ws e)), h.1)
    | inr e ↦ rw e h
  ]
  handle-IsTrying socket_closing c k s h = elim (Bool-cases (has_live c.ws)) [
    | inl e ↦ rw e (omega (arith, closed_attempts c s.0 (has_socket-has_live c.ws e)), h.1)
    | inr e ↦ rw e h
  ]
  handle-IsTrying socket_closed c k s h = elim (Bool-cases (has_socket c.ws)) [
    | inl e ↦ rw e (refl, h.1)
    | inr e ↦ rw e h
  ]
  handle-IsTrying socket_failed c k s h = elim (Bool-cases (has_socket c.ws)) [
    | inl e ↦ rw e h
    | inr e ↦ rw e h
  ]
  handle-IsTrying (message none) c k s h = elim (Bool-cases (is_open c.ws)) [
    | inl e ↦ rw e h
    | inr e ↦ rw e h
  ]
  handle-IsTrying (message (some raw)) c k s h = elim (Bool-cases (is_open c.ws)) [
    | inl e ↦ rw e h
    | inr e ↦ rw e h
  ]
  handle-IsTrying (timer throws) c k s h = elim (Bool-cases (is_pending c.reconnect_timeout)) [
    | inl e ↦
        rw e (connect_live-IsTrying throws (wake c) (omega (arith, pending_attempts c s.0 e)) h.1)
    | inr e ↦ rw e h
  ]
  handle-IsTrying stale_error c k s h = h

  handle_all-IsTrying_from :
      (events : List Event) (c : WebsocketClient)
      → All (λ e. keeps_on e ≡ true) events
      → IsSound c
      → IsTrying c
      → IsTrying (handle_all parse_date session_team events c)
  unfolding handle_all
  handle_all-IsTrying_from [] c k s h = h
  handle_all-IsTrying_from (e ∷ events) c k s h =
      handle_all-IsTrying_from events (handle parse_date session_team e c) k.1
        (handle-IsSound parse_date session_team e c s) (handle-IsTrying e c k.0 s h)

  -- Once a sound client is started for a game, and until it is stopped, it has after every event
  -- one connection that is open, being made or closing, or one pending reconnect, whatever sockets
  -- close, fail or cannot be made.
  pub handle_all-IsTrying :
      (throws : Bool) (g t : String) (events : List Event) (c : WebsocketClient)
      → IsSound c
      → g == "" ≡ false
      → All (λ e. keeps_on e ≡ true) events
      → IsTrying (handle_all parse_date session_team (starting throws g t ∷ events) c)
  unfolding handle_all handle
  handle_all-IsTrying throws g t events c s e k =
      handle_all-IsTrying_from events (init throws g t c) k
        (handle-IsSound parse_date session_team (starting throws g t) c s)
        (init-IsTrying throws g t c s e)
