-- ===== src/Sync/OfflineStore/Tests.antt =====
-- The queue of captures on concrete actions.
use runway_the_game.Prelude.{
  ℕ, String, ◌≡◌, refl, true, false, none, some, List, [], ◌∷◌, arith, if◌then◌else◌, any, filter,
  not,
}
use runway_the_game.Prelude.Int.{ℤ}
use runway_the_game.Sync.OfflineStore.{
  QueuedAction, ActionQueue, empty_queue, enqueue_action, get_queued_actions, purge_queue_for_game,
  of_game, resolved, rejected,
}
use runway_the_game.Sync.OfflineStore.Keys.{IsKeyed}
use runway_the_game.Sync.OfflineStore.Operations
use runway_the_game.Sync.OfflineStore.Purge

abbrev capture : String → String → QueuedAction
capture game key = record {
  id = none;
  idempotency_key = key;
  timestamp = "2026-01-01T10:00:00Z";
  payload = record {
    game_id = game;
    waypoint_id = "mid";
    road_id = none;
    challenge_id = "statue";
    photo = "photo";
    content_type = "image/jpeg";
    lat = ℤ.pos 51;
    lon = ℤ.pos 4;
    accuracy_m = 8;
    client_captured_at = "2026-01-01T09:59:58Z";
  };
}

abbrev of_id : ℕ → QueuedAction → QueuedAction
of_id n a = record a { id = some n }

abbrev two_games : ActionQueue
two_games = record {
  rows = of_id 1 (capture "a" "k1") ∷ of_id 4 (capture "b" "k2") ∷ [];
  next_key = 5;
}

two_games-IsKeyed : IsKeyed two_games
two_games-IsKeyed = ((refl, omega arith, (refl, omega arith, omega arith)), (refl, (refl, tt)))

third : (enqueue_action none false (capture "a" "k3") two_games).1 ≡ resolved (some 5)
unfolding enqueue_action
third = refl

all_rows : get_queued_actions none two_games ≡ resolved two_games.rows
unfolding get_queued_actions
all_rows = refl

abbrev calls : List Operations.Call
calls =
    Operations.Call.enqueue none false (capture "a" "k1")
    ∷ Operations.Call.enqueue none false (capture "a" "k1")
    ∷ Operations.Call.dequeue none 1
    ∷ Operations.Call.enqueue none false (capture "b" "k1")
    ∷ []

perform_all-IsKeyed_example : IsKeyed (Operations.perform_all calls empty_queue)
perform_all-IsKeyed_example = Operations.perform_all-IsKeyed calls

enqueue_action-retry_example :
    ((enqueue_action none false
        (capture "a" "k2")
        (enqueue_action none true (capture "b" "k2") two_games).0).0
      ≡ (enqueue_action none true (capture "b" "k2") two_games).0)
    × ((enqueue_action none false
          (capture "a" "k2")
          (enqueue_action none true (capture "b" "k2") two_games).0).1
        ≡ (enqueue_action none false (capture "b" "k2") two_games).1)
enqueue_action-retry_example =
    Operations.enqueue_action-retry true none false (capture "b" "k2") (capture "a" "k2") two_games
      refl

purge_queue_for_game-settles_example : purge_queue_for_game false (λ a. false) "a" two_games ≡ (
    if any (λ a. false) (filter (of_game "a") two_games.rows)
    then (two_games, some (rejected "Failed to purge queued actions"))
    else (
      record two_games { rows = filter (λ a. not (of_game "a" a)) two_games.rows },
      some (resolved tt),
    ))
purge_queue_for_game-settles_example =
    Purge.purge_queue_for_game-settles (λ a. false) "a" two_games two_games-IsKeyed
