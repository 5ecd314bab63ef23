-- ===== src/Sync/SyncEngine.antt =====
-- frontend/src/core/projection/syncEngine.ts: the engine that sends the queued captures. What the
-- API client and the stored sessions answer are arguments; the listeners are what they were told.
pub mod Flush
pub mod Overlap
pub mod Unsettled
pub mod Kept
mod Tests
use runway_the_game.Prelude.{
  ℕ, ◌≡◌, String, Bool, true, false, ◌&&◌, not, Option, none, some, List, [], ◌∷◌, ◌++◌, length,
  eqb, leb, ltb, if◌then◌else◌,
}
use runway_the_game.Sync.OfflineStore.{
  QueuedAction, ActionQueue, Settled, resolved, rejected, get_queued_actions, dequeue_action,
}

pub data SyncState : Type 0 where
  online offline syncing : SyncState

abbrev pub same_state : SyncState → SyncState → Bool
same_state online online = true
same_state offline offline = true
same_state syncing syncing = true
same_state _ _ = false

-- A call of the API client: done, an ApiError with its status, or another error.
pub data Reply : Type 0 where
  done : Reply
  api_error : ℕ → Reply
  other_error : Reply

-- What the engine meets outside: the team session of a game, the three calls that send an action,
-- the error of the request that dequeues it, and `navigator.onLine` at the end; and the errors of the
-- two requests for the rows, of startSync and of refreshQueueCount.
pub record World : Type 0 where
  pub has_session : String → Bool
  pub presign : QueuedAction → Reply
  pub upload : QueuedAction → Reply
  pub submit : QueuedAction → Reply
  pub dequeue_error : QueuedAction → Option String
  pub on_line : Bool
  pub read_error : Option String
  pub count_error : Option String

-- `heard` and `counted` are what the listeners of the state and of the count were called with.
pub record SyncEngine : Type 0 where
  pub current_state : SyncState
  pub heard : List SyncState
  pub counted : List ℕ
  pub is_processing : Bool
  pub queue : ActionQueue

pub set_state : SyncState → SyncEngine → SyncEngine
set_state state e =
    if not (same_state e.current_state state)
    then record e { current_state = state; heard = e.heard ++ state ∷ [] }
    else e

abbrev told_count : Settled (List QueuedAction) → SyncEngine → SyncEngine
told_count (rejected error) e = e
told_count (resolved rows) e = record e { counted = e.counted ++ length rows ∷ [] }

pub refresh_queue_count : World → SyncEngine → SyncEngine
unfolding get_queued_actions
refresh_queue_count w e = told_count (get_queued_actions w.count_error e.queue) e

-- The calls inside `try`, each made when the one before is done.
abbrev pub attempt : Reply → Reply → Reply → Reply
attempt done done r = r
attempt done r _ = r
attempt r _ _ = r

abbrev pub send : World → QueuedAction → Reply
send w a = attempt (w.presign a) (w.upload a) (w.submit a)

-- `err instanceof ApiError && err.status >= 400 && err.status < 500`
abbrev pub is_final : Reply → Bool
is_final done = true
is_final (api_error status) = leb 400 status && ltb status 500
is_final other_error = false

abbrev is_done : {A : Type 0} → Settled A → Bool
is_done (resolved x) = true
is_done (rejected error) = false

abbrev of_settled : ActionQueue × Settled (Unit {0}) → ActionQueue × Bool
of_settled (q, r) = (q, is_done r)

-- `if (action.id) await dequeueAction(action.id)`
abbrev pub dequeue_id : World → QueuedAction → Option ℕ → ActionQueue → ActionQueue × Bool
unfolding dequeue_action
dequeue_id w a none q = (q, true)
dequeue_id w a (some n) q =
    if eqb n 0 then (q, true) else of_settled (dequeue_action (w.dequeue_error a) n q)

-- With whether it returns; otherwise it throws.
pub process_action : World → QueuedAction → ActionQueue → ActionQueue × Bool
process_action w a q =
    let dequeued = dequeue_id w a a.id q in
    if not (w.has_session a.payload.game_id)
    then dequeued
    else if is_final (send w a)
    then dequeued
    else (q, false)

-- The loop in startSync, which the first throw ends.
pub process_all : World → List QueuedAction → ActionQueue → ActionQueue
unfolding process_action
process_all w [] q = q
process_all w (a ∷ rest) q =
    let r = process_action w a q in let next = process_all w rest r.0 in if r.1 then next else r.0

-- startSync after `await getQueuedActions()`: nothing to send, or the actions it will send.
pub load : List QueuedAction → SyncEngine → SyncEngine
unfolding set_state
load [] e = set_state online e
load (a ∷ actions) e = set_state syncing (record e { is_processing = true })

-- `finally`
pub finish : World → SyncEngine → SyncEngine
unfolding set_state refresh_queue_count
finish w e =
    refresh_queue_count w
      (set_state (if w.on_line then online else offline) (record e { is_processing = false }))

abbrev pub flush : World → List QueuedAction → SyncEngine → SyncEngine
unfolding load finish process_all
flush w [] e = load [] e
flush w (a ∷ rest) e =
    let loaded = load (a ∷ rest) e in
    finish w (record loaded { queue = process_all w (a ∷ rest) loaded.queue })

abbrev pub after_read :
    World → Settled (List QueuedAction) → SyncEngine → SyncEngine × Settled (Unit {0})
after_read w (rejected error) e = (e, rejected error)
after_read w (resolved rows) e = (flush w rows e, resolved tt)

-- A call of startSync that nothing interrupts, with how its promise settles.
pub start_sync : World → SyncEngine → SyncEngine × Settled (Unit {0})
unfolding get_queued_actions
start_sync w e =
    if e.is_processing
    then (e, resolved tt)
    else after_read w (get_queued_actions w.read_error e.queue) e

-- The promise of startSync is not waited for.
pub trigger_sync : World → SyncEngine → SyncEngine
unfolding start_sync
trigger_sync w e = if w.on_line then (start_sync w e).0 else e

pub handle_network_change : World → Bool → SyncEngine → SyncEngine
unfolding start_sync set_state
handle_network_change w is_online e =
    if is_online then (start_sync w (set_state online e)).0 else set_state offline e
