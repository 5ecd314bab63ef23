-- ===== src/Sync/OfflineStore.antt =====
-- frontend/src/core/projection/offlineStore.ts: the queue of captures in IndexedDB. An object store
-- with autoIncrement is its rows in the order of their keys, and the next key; the unique index on
-- idempotencyKey refuses a second row. A request's own failure, with its message, is an argument;
-- that the database opens (initDB) is taken for granted.
pub mod Keys
pub mod Operations
pub mod Purge
mod Tests
use Prim.Native.String
use runway_the_game.Prelude.{
  ℕ, suc, ◌-◌, String, ◌==◌, Bool, true, false, ◌||◌, not, Option, none, some, List, [], ◌∷◌, ◌++◌,
  map, filter, find, length, any, eqb, if◌then◌else◌,
}
use runway_the_game.Prelude.Int.{ℤ}

-- The photo is the name of its Blob; coordinates are fixed-point.
pub record QueuedCapturePayload : Type 0 where
  pub game_id : String
  pub waypoint_id : String
  pub road_id : Option String
  pub challenge_id : String
  pub photo : String
  pub content_type : String
  pub lat : ℤ
  pub lon : ℤ
  pub accuracy_m : ℕ
  pub client_captured_at : String

-- `type` is always "capture".
pub record QueuedAction : Type 0 where
  pub id : Option ℕ
  pub idempotency_key : String
  pub timestamp : String
  pub payload : QueuedCapturePayload

pub record ActionQueue : Type 0 where
  pub rows : List QueuedAction
  pub next_key : ℕ

abbrev pub empty_queue : ActionQueue
empty_queue = record { rows = []; next_key = 1 }

-- How a promise settles.
pub data Settled {ℓ} (A : Type ℓ) : Type ℓ where
  resolved : A → Settled A
  rejected : String → Settled A

abbrev fail_with : String → String → String
fail_with what error = String.◌++◌ what error

abbrev pub has_key : String → QueuedAction → Bool
has_key key a = a.idempotency_key == key

abbrev pub has_id : ℕ → QueuedAction → Bool
has_id n a = elim a.id [ none ↦ false | some m ↦ eqb m n ]

-- `store.add`, where no row has the idempotency key
abbrev pub add_row : QueuedAction → ActionQueue → ActionQueue
add_row action q = record {
  rows = q.rows ++ record action { id = some q.next_key } ∷ [];
  next_key = suc q.next_key;
}

-- After the index was asked for the key: a ConstraintError resolves to the row that has it, unless
-- looking it up fails, which `lookup_fails` tells.
pub enqueue_found :
    Bool → QueuedAction → ActionQueue → Option QueuedAction → ActionQueue × Settled (Option ℕ)
enqueue_found lookup_fails action q (some row) = (
  q,
  if lookup_fails then rejected "Failed to look up existing queued action" else resolved row.id,
)
enqueue_found lookup_fails action q none = (add_row action q, resolved (some q.next_key))

-- The first argument is the error of the request, but a ConstraintError, which the index decides.
pub enqueue_action :
    Option String → Bool → QueuedAction → ActionQueue → ActionQueue × Settled (Option ℕ)
unfolding enqueue_found
enqueue_action (some error) lookup_fails action q =
    (q, rejected (fail_with "Failed to enqueue action: " error))
enqueue_action none lookup_fails action q =
    enqueue_found lookup_fails action q (find (has_key action.idempotency_key) q.rows)

unfoldable pub get_queued_actions : Option String → ActionQueue → Settled (List QueuedAction)
get_queued_actions (some error) q = rejected (fail_with "Failed to retrieve actions: " error)
get_queued_actions none q = resolved q.rows

abbrev pub delete_row : ℕ → List QueuedAction → List QueuedAction
delete_row n rows = filter (λ a. not (has_id n a)) rows

unfoldable pub dequeue_action : Option String → ℕ → ActionQueue → ActionQueue × Settled (Unit {0})
dequeue_action (some error) n q = (q, rejected (fail_with "Failed to delete action: " error))
dequeue_action none n q = (record q { rows = delete_row n q.rows }, resolved tt)

pub clear_queue : Option String → ActionQueue → ActionQueue × Settled (Unit {0})
clear_queue (some error) q = (q, rejected (fail_with "Failed to clear action queue: " error))
clear_queue none q = (record q { rows = [] }, resolved tt)

-- `finish` of purgeQueueForGame after each of its deletions; nothing while some are left.
pub purge_finish : ℕ → Bool → List Bool → Option (Settled (Unit {0}))
purge_finish remaining failed [] = none
purge_finish remaining failed (error ∷ errors) =
    let rest = purge_finish (remaining - 1) (failed || error) errors in
    if eqb (remaining - 1) 0
    then some (if failed || error then rejected "Failed to purge queued actions" else resolved tt)
    else rest

abbrev pub of_game : String → QueuedAction → Bool
of_game game_id a = a.payload.game_id == game_id

abbrev pub delete_rows : List QueuedAction → List QueuedAction → List QueuedAction
delete_rows [] rows = rows
delete_rows (t ∷ ts) rows = elim t.id [
  | none ↦ delete_rows ts rows
  | some n ↦ delete_rows ts (delete_row n rows)
]

-- `delete_error` tells the rows whose deletion fails, which aborts the transaction; a row without a
-- key is passed over.
pub purge_queue_for_game :
    Bool → (QueuedAction → Bool) → String → ActionQueue → ActionQueue × Option (Settled (Unit {0}))
unfolding purge_finish
purge_queue_for_game true delete_error game_id q =
    (q, some (rejected "Failed to purge queued actions"))
purge_queue_for_game false delete_error game_id q =
    let targets = filter (of_game game_id) q.rows in
    (
      if any delete_error targets then q else record q { rows = delete_rows targets q.rows },
      if eqb (length targets) 0
          then some (resolved tt)
          else purge_finish (length targets) false (map delete_error targets),
    )
