-- ===== src/Projection/Snapshot/Tests.antt =====
-- Snapshots and effect rows of a small race.
use runway_the_game.Prelude.{
  ℕ, String, eq_iff, ◌==◌, ◌≡◌, refl, Option, none, some, List, [], ◌∷◌, All, arith, if◌then◌else◌,
}
use runway_the_game.Projection.{
  ConnectionState, connected, LockState, bypassed, open_road, locked, GameState, initial_game_state,
}
use runway_the_game.Projection.Raw.{RawSnapshot, RawEffect}
use runway_the_game.Projection.Snapshot.{
  later_of, apply_effect, apply_effects, apply_snapshot, empty_effects,
}
use runway_the_game.Projection.Snapshot.Laws.{
  apply_snapshot-replay, apply_effects_latest, Covers, replay,
}

abbrev parse : String → Option ℕ
parse t = if t == "t1" then some 1 else if t == "t2" then some 2 else none

abbrev no_session : String → Option String
no_session g = none

abbrev bare : String → ℕ → RawSnapshot
bare game_id sequence = record {
  game_id = game_id;
  status = none;
  mode = none;
  clock = none;
  coin_rush = none;
  rules = none;
  board = none;
  teams = none;
  waypoint_states = none;
  road_states = none;
  positions = none;
  coins = none;
  inventory = none;
  effects = none;
  roadblocks = none;
  standings_list = none;
  standings = none;
  winner = none;
  public_log = some ("12:00 Game started" ∷ []);
  last_sequence = some sequence;
  disputes = none;
  progress = none;
  submissions = none;
}

bare_is_live :
    (apply_snapshot parse no_session (bare "g" 3) initial_game_state).state
    ≡ runway_the_game.Projection.RaceStatus.live
unfolding apply_snapshot
bare_is_live = refl

abbrev row : String → String → RawEffect
row kind until = record { kind = kind; until = until; meta = none }

abbrev rows : List RawEffect
rows = row "freeze" "t2" ∷ row "freeze" "t1" ∷ row "other" "t1" ∷ []

rows_frozen : (apply_effects parse empty_effects rows).frozen_until ≡ some "t2"
unfolding apply_effects apply_effect later_of
rows_frozen = refl

apply_snapshot-replay_example :
    apply_snapshot parse no_session
      (bare "g" 3)
      (replay parse no_session (bare "" 1 ∷ bare "h" 2 ∷ []) initial_game_state)
    ≡ record (apply_snapshot parse no_session
        (bare "g" 3)
        (record initial_game_state { last_sequence = 9 })) {
          connection = initial_game_state.connection;
        }
apply_snapshot-replay_example =
    apply_snapshot-replay parse no_session (bare "" 1 ∷ bare "h" 2 ∷ []) (bare "g" 3)
      initial_game_state (record initial_game_state { last_sequence = 9 })
      (ground (arith, eq_iff "g" ""))

apply_effects_latest_example : All (Covers parse (apply_effects parse empty_effects rows)) rows
apply_effects_latest_example =
    apply_effects_latest parse refl rows ((λ e. cc), ((λ e. cc), ((λ e. cc), tt)))
