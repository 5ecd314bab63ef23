-- ===== src/Sync/SyncEngine/Flush.antt =====
-- One uninterrupted startSync of frontend/src/core/projection/syncEngine.ts.
use Prim.Native.String
use mathlib.Core.Path.{subst}
use runway_the_game.Prelude.{
  ℕ, ◌<◌, ◌≡◌, refl, sym, ap, ◌∙◌, inl, inr, Bool, true, false, ◌||◌, ◌&&◌, not, Option, String,
  none, some, List, [], ◌∷◌, or_default, arith, Bool-cases, Option-cases, eqb, if◌then◌else◌,
}
use runway_the_game.Sync.OfflineStore.{
  QueuedAction, ActionQueue, Settled, resolved, rejected, get_queued_actions, delete_row,
  dequeue_action,
}
use runway_the_game.Sync.OfflineStore.Keys.{IsKeyed, Ordered, Ordered-lower}
use runway_the_game.Sync.OfflineStore.Purge.{delete_row-head}
use runway_the_game.Sync.SyncEngine.{
  SyncState, online, offline, syncing, same_state, World, SyncEngine, set_state, send, is_final,
  dequeue_id, process_action, process_all, load, refresh_queue_count, finish, start_sync,
  after_read, flush,
}

-- An action that the engine is done with: sent, refused for good by the server, or of a game that
-- has no session here, and then dequeued.
abbrev pub is_settled : World → QueuedAction → Bool
is_settled w a =
    (not (w.has_session a.payload.game_id) || is_final (send w a))
    && elim (w.dequeue_error a) [ none ↦ true | some error ↦ false ]

abbrev pub drop_while : (QueuedAction → Bool) → List QueuedAction → List QueuedAction
drop_while p [] = []
drop_while p (a ∷ rest) = let dropped = drop_while p rest in if p a then dropped else a ∷ rest

abbrev queue_of : List QueuedAction → ℕ → ActionQueue
queue_of rows key = record { rows = rows; next_key = key }

positive_eqb : (n : ℕ) → 0 < n → eqb n 0 ≡ false
positive_eqb n h = ground (arith, h)

dequeue_id-some :
    (w : World) (a : QueuedAction) (n : ℕ) (q : ActionQueue)
    → 0 < n
    → dequeue_id w a (some n) q ≡ (
        if elim (w.dequeue_error a) [ none ↦ true | some error ↦ false ]
        then (record q { rows = delete_row n q.rows }, true)
        else (q, false))
unfolding dequeue_id dequeue_action
dequeue_id-some w a n q h = elim (Option-cases (w.dequeue_error a)) [
  | inl e ↦ rw (positive_eqb n h, e) refl
  | inr (error, e) ↦ rw (positive_eqb n h, e) refl
]

-- The first row of the queue is dequeued, unless the request fails.
dequeue_id-head :
    (w : World) (key : ℕ) (a : QueuedAction) (rest : List QueuedAction)
    → Ordered 0 key (a ∷ rest)
    → dequeue_id w a a.id (queue_of (a ∷ rest) key) ≡ (
        if elim (w.dequeue_error a) [ none ↦ true | some error ↦ false ]
        then (queue_of rest key, true)
        else (queue_of (a ∷ rest) key, false))
dequeue_id-head w key a rest h =
    ap (λ i. dequeue_id w a i (queue_of (a ∷ rest) key)) h.0
    ∙ dequeue_id-some w a (or_default a.id 0) (queue_of (a ∷ rest) key) h.1
    ∙ ap
        (λ r.
          if elim (w.dequeue_error a) [ none ↦ true | some error ↦ false ]
          then (queue_of r key, true)
          else (queue_of (a ∷ rest) key, false))
        (delete_row-head key a rest h.0 h.2)

process_action-head :
    (w : World) (key : ℕ) (a : QueuedAction) (rest : List QueuedAction)
    → Ordered 0 key (a ∷ rest)
    → process_action w a (queue_of (a ∷ rest) key)
      ≡ (if is_settled w a then (queue_of rest key, true) else (queue_of (a ∷ rest) key, false))
unfolding process_action
process_action-head w key a rest h = elim (Bool-cases (w.has_session a.payload.game_id)) [
  | inl s ↦ elim (Bool-cases (is_final (send w a))) [
    | inl f ↦ rw (s, f, dequeue_id-head w key a rest h) refl
    | inr f ↦ rw (s, f) refl
  ]
  | inr s ↦ rw (s, dequeue_id-head w key a rest h) refl
]

process_all-drop_while :
    (w : World) (key : ℕ) (rows : List QueuedAction)
    → Ordered 0 key rows
    → process_all w rows (queue_of rows key) ≡ queue_of (drop_while (is_settled w) rows) key
unfolding process_all
process_all-drop_while w key [] h = refl
process_all-drop_while w key (a ∷ rest) h = elim (Bool-cases (is_settled w a)) [
  | inl e ↦
      rw (process_action-head w key a rest h, e)
        (process_all-drop_while w key rest
          (Ordered-lower 0 (or_default a.id 0) key rest (omega (arith, h.1)) h.2))
  | inr e ↦ rw (process_action-head w key a rest h, e) refl
]

pub set_state-queue :
    (s : SyncState) (e : SyncEngine)
    → (set_state s e).queue ≡ e.queue × (set_state s e).is_processing ≡ e.is_processing
unfolding set_state
set_state-queue s e = elim (Bool-cases (same_state e.current_state s)) [
  | inl p ↦ rw p (refl, refl)
  | inr p ↦ rw p (refl, refl)
]

same_state-eq : (a b : SyncState) → same_state a b ≡ true → a ≡ b
same_state-eq online online e = refl
same_state-eq offline offline e = refl
same_state-eq syncing syncing e = refl
same_state-eq online offline e = ground arith
same_state-eq online syncing e = ground arith
same_state-eq offline online e = ground arith
same_state-eq offline syncing e = ground arith
same_state-eq syncing online e = ground arith
same_state-eq syncing offline e = ground arith

set_state-current : (s : SyncState) (e : SyncEngine) → (set_state s e).current_state ≡ s
unfolding set_state
set_state-current s e = elim (Bool-cases (same_state e.current_state s)) [
  | inl p ↦ rw p (same_state-eq e.current_state s p)
  | inr p ↦ rw p refl
]

refresh_queue_count-keeps :
    (w : World) (e : SyncEngine)
    → ((refresh_queue_count w e).queue ≡ e.queue)
      × ((refresh_queue_count w e).is_processing ≡ e.is_processing)
      × ((refresh_queue_count w e).current_state ≡ e.current_state)
unfolding refresh_queue_count get_queued_actions
refresh_queue_count-keeps w e = elim (Option-cases w.count_error) [
  | inl p ↦ rw p (refl, refl, refl)
  | inr (error, p) ↦ rw p (refl, refl, refl)
]

finish-keeps :
    (w : World) (e : SyncEngine)
    → ((finish w e).queue ≡ e.queue)
      × ((finish w e).is_processing ≡ false)
      × ((finish w e).current_state ≡ (if w.on_line then online else offline))
unfolding finish
finish-keeps w e =
    let last = if w.on_line then online else offline in
    let idle : SyncEngine = record e { is_processing = false } in
    let told = refresh_queue_count-keeps w (set_state last idle) in
    (
      told.0 ∙ (set_state-queue last idle).0,
      told.1 ∙ (set_state-queue last idle).1,
      told.2 ∙ set_state-current last idle,
    )

pub finish-queue :
    (w : World) (e : SyncEngine) → (finish w e).queue ≡ e.queue × (finish w e).is_processing ≡ false
finish-queue w e = ((finish-keeps w e).0, (finish-keeps w e).1)

finish-state :
    (w : World) (e : SyncEngine)
    → (finish w e).is_processing ≡ false
      × (finish w e).current_state ≡ (if w.on_line then online else offline)
finish-state w e = ((finish-keeps w e).1, (finish-keeps w e).2)

flush-queue :
    (w : World) (e : SyncEngine) (rows : List QueuedAction)
    → e.queue.rows ≡ rows
    → Ordered 0 e.queue.next_key rows
    → (flush w rows e).queue ≡ queue_of (drop_while (is_settled w) rows) e.queue.next_key
unfolding load finish flush
flush-queue w e [] p h = (set_state-queue online e).0 ∙ ap (λ r. queue_of r e.queue.next_key) p
flush-queue w e (a ∷ rest) p h =
    (finish-queue w
      (record (load (a ∷ rest) e) { queue = process_all w (a ∷ rest) (load (a ∷ rest) e).queue })).0
    ∙ ap (process_all w (a ∷ rest)) (
        (set_state-queue syncing (record e { is_processing = true })).0
        ∙ ap (λ r. queue_of r e.queue.next_key) p)
    ∙ process_all-drop_while w e.queue.next_key (a ∷ rest) h

abbrev pub last_state : World → List QueuedAction → SyncState
last_state w [] = online
last_state w (a ∷ rest) = if w.on_line then online else offline

flush-state :
    (w : World) (e : SyncEngine) (rows : List QueuedAction)
    → e.is_processing ≡ false
    → (flush w rows e).is_processing ≡ false × (flush w rows e).current_state ≡ last_state w rows
unfolding load finish flush
flush-state w e [] h = ((set_state-queue online e).1 ∙ h, set_state-current online e)
flush-state w e (a ∷ rest) h =
    finish-state w
      (record (load (a ∷ rest) e) { queue = process_all w (a ∷ rest) (load (a ∷ rest) e).queue })

-- How a sync ends, by the error of reading the queue.
abbrev pub Flushed : World → SyncEngine → Option String → SyncEngine × Settled (Unit {0}) → Type 0
Flushed w e (some error) s =
    (s.0 ≡ e) × (s.1 ≡ rejected (String.◌++◌ "Failed to retrieve actions: " error))
Flushed w e none s =
    (s.0.queue ≡ record e.queue { rows = drop_while (is_settled w) e.queue.rows })
    × (s.0.is_processing ≡ false)
    × (s.0.current_state ≡ last_state w e.queue.rows)
    × (s.1 ≡ resolved tt)

after_read-Flushed :
    (w : World) (e : SyncEngine) (error : Option String)
    → IsKeyed e.queue
    → e.is_processing ≡ false
    → Flushed w e error (after_read w (get_queued_actions error e.queue) e)
unfolding get_queued_actions
after_read-Flushed w e (some error) h p = (refl, refl)
after_read-Flushed w e none h p = (
  flush-queue w e e.queue.rows refl h.0,
  (flush-state w e e.queue.rows p).0,
  (flush-state w e e.queue.rows p).1,
  refl,
)

start_sync-after_read :
    (w : World) (e : SyncEngine)
    → e.is_processing ≡ false
    → start_sync w e ≡ after_read w (get_queued_actions w.read_error e.queue) e
unfolding start_sync
start_sync-after_read w e p =
    ap
      (λ b.
        if b then (e, resolved tt) else after_read w (get_queued_actions w.read_error e.queue) e)
      p

-- A sync on a keyed queue, when none is running and none interrupts it. When the request
-- for the rows fails, it changes nothing and its promise rejects. Else the promise resolves; the queue is left from
-- its first action that is not settled on, which stays with every later action, in order; no sync is
-- running, and the state is that of the network, or online when there was nothing to send.
pub start_sync-flushes :
    (w : World) (e : SyncEngine)
    → IsKeyed e.queue
    → e.is_processing ≡ false
    → Flushed w e w.read_error (start_sync w e)
start_sync-flushes w e h p =
    subst (Flushed w e w.read_error) (sym (start_sync-after_read w e p))
      (after_read-Flushed w e w.read_error h p)
