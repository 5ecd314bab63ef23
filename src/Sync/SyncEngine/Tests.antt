-- ===== src/Sync/SyncEngine/Tests.antt =====
-- The sync engine on a queue of two actions, of which the server refuses one for now.
use runway_the_game.Prelude.{
  ℕ, String, ◌≡◌, refl, true, false, ◌++◌, inl, inr, none, some, List, [], ◌∷◌, arith, ◌==◌,
  if◌then◌else◌,
}
use runway_the_game.Prelude.Int.{ℤ}
use runway_the_game.Sync.OfflineStore.{QueuedAction}
use runway_the_game.Sync.OfflineStore.Keys.{IsKeyed}
use runway_the_game.Sync.SyncEngine.{
  SyncState, SyncEngine, World, Reply, load, set_state, process_action, dequeue_id, start_sync,
}
use runway_the_game.Sync.SyncEngine.Flush
use runway_the_game.Sync.SyncEngine.Overlap
use runway_the_game.Sync.SyncEngine.Kept
use runway_the_game.Sync.SyncEngine.Unsettled.{Has}
use runway_the_game.Sync.SyncEngine.Overlap.{Steps, Step, Run}

abbrev queued : ℕ → String → QueuedAction
queued n key = record {
  id = some n;
  idempotency_key = key;
  timestamp = "2026-01-01T10:00:00Z";
  payload = record {
    game_id = "a";
    waypoint_id = "mid";
    road_id = none;
    challenge_id = "statue";
    photo = "photo";
    content_type = "image/jpeg";
    lat = ℤ.pos 51;
    lon = ℤ.pos 4;
    accuracy_m = 8;
    client_captured_at = "2026-01-01T09:59:58Z";
  };
}

abbrev idle : SyncEngine
idle = record {
  current_state = SyncState.offline;
  heard = [];
  counted = [];
  is_processing = false;
  queue = record { rows = queued 1 "k1" ∷ queued 2 "k2" ∷ queued 3 "k3" ∷ []; next_key = 4 };
}

idle-IsKeyed : IsKeyed idle.queue
idle-IsKeyed = (
  (refl, omega arith, (refl, omega arith, (refl, omega arith, omega arith))),
  (refl, (refl, (refl, tt))),
)

-- The first is refused for good, the second fails at the upload.
abbrev world : World
world = record {
  has_session = λ g. true;
  presign = λ a. if a.idempotency_key == "k1" then Reply.api_error 409 else Reply.done;
  upload = λ a. if a.idempotency_key == "k2" then Reply.other_error else Reply.done;
  submit = λ a. Reply.done;
  dequeue_error = λ a. none;
  on_line = true;
  read_error = none;
  count_error = none;
}

left :
    Flush.drop_while (Flush.is_settled world) idle.queue.rows ≡ queued 2 "k2" ∷ queued 3 "k3" ∷ []
left = refl

start_sync-flushes_example : Flush.Flushed world idle none (start_sync world idle)
start_sync-flushes_example = Flush.start_sync-flushes world idle idle-IsKeyed refl

abbrev rows : List QueuedAction
rows = idle.queue.rows

abbrev twice : SyncEngine
twice = load rows (load rows idle)

-- Two calls that start before the first has read the queue are both in the loop with all actions.
both_sending : Steps world (idle, []) (twice, Run.sending rows ∷ Run.sending rows ∷ [])
unfolding load set_state
both_sending = Steps.next (Step.start idle [] refl) (
    Steps.next (Step.start idle (Run.waiting ∷ []) refl) (
      Steps.next (Step.read idle rows [] (Run.waiting ∷ []) refl) (
        Steps.next (Step.read (load rows idle) rows (Run.sending rows ∷ []) [] refl)
          (Steps.here (twice, Run.sending rows ∷ Run.sending rows ∷ [])))))

steps-IsReleased_example : Overlap.IsReleased (twice, Run.sending rows ∷ Run.sending rows ∷ [])
steps-IsReleased_example = Overlap.steps-IsReleased world both_sending (inl refl)

abbrev again : List QueuedAction
again = queued 2 "k2" ∷ queued 3 "k3" ∷ []

-- The first of the two calls sends its first action, which is taken from the queue.
abbrev sent : SyncEngine × List Run
sent =
    let r =
      Overlap.after_action world twice again (process_action world (queued 1 "k1") twice.queue) in
    (r.0, r.1 ++ Run.sending rows ∷ [])

one_sent : Steps world (idle, []) sent
unfolding load set_state
one_sent = Steps.next (Step.start idle [] refl) (
    Steps.next (Step.start idle (Run.waiting ∷ []) refl) (
      Steps.next (Step.read idle rows [] (Run.waiting ∷ []) refl) (
        Steps.next (Step.read (load rows idle) rows (Run.sending rows ∷ []) [] refl) (
          Steps.next (Step.act twice (queued 1 "k1") again [] (Run.sending rows ∷ []))
            (Steps.here sent)))))

one_left : sent.0.queue.rows ≡ again
unfolding load set_state process_action Overlap.after_action dequeue_id
one_left = refl

steps-Has_example : Has (queued 2 "k2") sent.0.queue.rows
steps-Has_example =
    Kept.steps-Has world (queued 2 "k2") idle sent idle-IsKeyed (inr (inl refl)) refl one_sent
