-- ===== src/Projection/Store.antt =====
-- The class ProjectionStore of frontend/src/core/projection/projectionStore.ts. A listener is a
-- number; `calls` records each call of a listener, newest first, with the state it was handed.
pub mod Informed
mod Tests
use runway_the_game.Prelude.{
  ℕ, String, ◌==◌, eq_iff, Bool, true, false, not, ◌&&◌, ◌||◌, ◌≡◌, refl, Option, none, some, List,
  [], ◌∷◌, ◌++◌, map, filter, any, All, All-imp, eqb, arith, if◌then◌else◌,
}
use runway_the_game.Projection.{GameState, ConnectionState, initial_game_state}
use runway_the_game.Projection.Raw.{RawSnapshot}
use runway_the_game.Projection.Snapshot.{apply_snapshot}

pub record Store : Type 0 where
  pub state : GameState
  pub listeners : List ℕ
  pub calls : List (ℕ × GameState)

abbrev has_listener : ℕ → List ℕ → Bool
has_listener l ls = any (λ k. eqb k l) ls

-- `forEach((listener) => listener(this.state))`
call_all : List ℕ → GameState → List (ℕ × GameState) → List (ℕ × GameState)
call_all [] state calls = calls
call_all (l ∷ ls) state calls = call_all ls state ((l, state) ∷ calls)

pub emit : Store → Store
unfolding call_all
emit s = record s { calls = call_all s.listeners s.state s.calls }

pub subscribe : ℕ → Store → Store
subscribe l s = record s {
  listeners = if has_listener l s.listeners then s.listeners else s.listeners ++ l ∷ [];
  calls = (l, s.state) ∷ s.calls;
}

-- The function that `subscribe` returns.
pub unsubscribe : ℕ → Store → Store
unsubscribe l s = record s { listeners = filter (λ k. not (eqb k l)) s.listeners }

pub reset : Store → Store
reset s = emit (record s { state = record initial_game_state { connection = s.state.connection } })

pub set_connection_state : ConnectionState → Store → Store
set_connection_state status s = emit (record s { state = record s.state { connection = status } })

same_game : Option String → String → Bool
same_game none game_id = false
same_game (some g) game_id = g == game_id

pub set_game_id : String → Store → Store
unfolding same_game
set_game_id game_id s =
    if game_id == "" || same_game s.state.game_id game_id
    then s
    else emit (record s { state = record s.state { game_id = some game_id } })

pub data Action : Type 0 where
  subscribing unsubscribing : ℕ → Action
  resetting : Action
  connecting : ConnectionState → Action
  naming : String → Action
  receiving : RawSnapshot → Action

module _ (parse_date : String → Option ℕ) (session_team : String → Option String) where
  pub receive : RawSnapshot → Store → Store
  receive raw s = emit (record s { state = apply_snapshot parse_date session_team raw s.state })

  pub perform : Action → Store → Store
  perform (subscribing l) s = subscribe l s
  perform (unsubscribing l) s = unsubscribe l s
  perform resetting s = reset s
  perform (connecting status) s = set_connection_state status s
  perform (naming game_id) s = set_game_id game_id s
  perform (receiving raw) s = receive raw s

  pub perform_all : List Action → Store → Store
  unfolding perform
  perform_all [] s = s
  perform_all (a ∷ rest) s = perform_all rest (perform a s)
