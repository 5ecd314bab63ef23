-- ===== src/Projection/Store/Informed.antt =====
-- Every subscriber of the store has last been told its current state.
use runway_the_game.Prelude.{
  ℕ, String, ◌==◌, true, not, ◌||◌, ◌≡◌, refl, Option, none, some, List, [], ◌∷◌, ◌++◌, filter, eqb,
  arith, if◌then◌else◌, Bool-cases, inl, inr,
}
use runway_the_game.Projection.{GameState}
use runway_the_game.Projection.Store.{
  Store, has_listener, call_all, emit, subscribe, unsubscribe, reset, set_connection_state,
  same_game, set_game_id, receive, Action, subscribing, unsubscribing, resetting, connecting,
  naming, receiving, perform, perform_all,
}

abbrev pub last_told : ℕ → List (ℕ × GameState) → Option GameState
last_told l [] = none
last_told l ((k, state) ∷ calls) = if eqb k l then some state else last_told l calls

-- The latest call of every listener handed it the state that the store is in.
abbrev pub IsInformed : Store → Type 0
IsInformed s = (l : ℕ) → has_listener l s.listeners ≡ true → last_told l s.calls ≡ some s.state

last_told-call_all :
    (l : ℕ) (ls : List ℕ) (state : GameState) (calls : List (ℕ × GameState))
    → last_told l (call_all ls state calls)
      ≡ (if has_listener l ls then some state else last_told l calls)
unfolding call_all
last_told-call_all l [] state calls = refl
last_told-call_all l (k ∷ ls) state calls =
    ground (arith, last_told-call_all l ls state ((k, state) ∷ calls))

emit-IsInformed : (s : Store) → IsInformed (emit s)
unfolding emit
emit-IsInformed s l h = ground (arith, last_told-call_all l s.listeners s.state s.calls)

has_listener-append :
    (l k : ℕ) (ls : List ℕ) → has_listener l (ls ++ k ∷ []) ≡ (has_listener l ls || eqb k l)
has_listener-append l k [] = ground arith
has_listener-append l k (j ∷ ls) = ground (arith, has_listener-append l k ls)

has_listener-filter :
    (l k : ℕ) (ls : List ℕ)
    → has_listener l (filter (λ j. not (eqb j k)) ls) ≡ true
    → has_listener l ls ≡ true
has_listener-filter l k [] h = h
has_listener-filter l k (j ∷ ls) h = ground (arith, has_listener-filter l k ls)

subscribe-IsInformed : (l : ℕ) (s : Store) → IsInformed s → IsInformed (subscribe l s)
unfolding subscribe
subscribe-IsInformed l s h k i = ground (arith, h k, has_listener-append k l s.listeners)

unsubscribe-IsInformed : (l : ℕ) (s : Store) → IsInformed s → IsInformed (unsubscribe l s)
unfolding unsubscribe
unsubscribe-IsInformed l s h k i = h k (has_listener-filter k l s.listeners i)

set_game_id-IsInformed : (g : String) (s : Store) → IsInformed s → IsInformed (set_game_id g s)
unfolding set_game_id
set_game_id-IsInformed g s h = elim (Bool-cases (g == "" || same_game s.state.game_id g)) [
  | inl e ↦ rw (e, set_game_id) h
  | inr e ↦
      rw (e, set_game_id)
        (emit-IsInformed (record s { state = record s.state { game_id = some g } }))
]

module _ (parse_date : String → Option ℕ) (session_team : String → Option String) where
  perform-IsInformed :
      (a : Action) (s : Store) → IsInformed s → IsInformed (perform parse_date session_team a s)
  unfolding perform reset set_connection_state receive
  perform-IsInformed (subscribing l) s h = subscribe-IsInformed l s h
  perform-IsInformed (unsubscribing l) s h = unsubscribe-IsInformed l s h
  perform-IsInformed resetting s h = emit-IsInformed _
  perform-IsInformed (connecting status) s h = emit-IsInformed _
  perform-IsInformed (naming g) s h = set_game_id-IsInformed g s h
  perform-IsInformed (receiving raw) s h = emit-IsInformed _

  -- From a store whose listeners are informed, such as one without listeners, any sequence of
  -- subscriptions, cancellations, resets, connection changes, game ids and snapshots leaves every
  -- listener last called with the current state.
  pub perform_all-IsInformed :
      (actions : List Action) (s : Store)
      → IsInformed s
      → IsInformed (perform_all parse_date session_team actions s)
  unfolding perform_all
  perform_all-IsInformed [] s h = h
  perform_all-IsInformed (a ∷ rest) s h =
      perform_all-IsInformed rest (perform parse_date session_team a s) (perform-IsInformed a s h)
