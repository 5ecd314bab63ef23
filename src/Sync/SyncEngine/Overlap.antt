-- ===== src/Sync/SyncEngine/Overlap.antt =====
-- Several calls of startSync of frontend/src/core/projection/syncEngine.ts, which interleave where
-- they wait.
use runway_the_game.Prelude.{
  ◌≡◌, refl, sym, ◌∙◌, ◌⊎◌, ◌||◌, inl, inr, any, arith, Bool, true, false, List, [], ◌∷◌, ◌++◌,
}
use runway_the_game.Sync.OfflineStore.{QueuedAction, ActionQueue}
use runway_the_game.Sync.SyncEngine.{SyncState, World, SyncEngine, process_action, load, finish}
use runway_the_game.Sync.SyncEngine.Flush.{set_state-queue, finish-queue}

-- A call of startSync: waiting for the rows, or in its loop with the actions that are left.
pub data Run : Type 0 where
  waiting : Run
  sending : List QueuedAction → Run

abbrev pub loaded : List QueuedAction → List Run
loaded [] = []
loaded (a ∷ actions) = sending (a ∷ actions) ∷ []

-- What the loop goes on with after one action, and the `finally` that a throw goes to.
unfoldable pub after_action :
    World → SyncEngine → List QueuedAction → ActionQueue × Bool → SyncEngine × List Run
unfolding finish
after_action w e rest (q, true) = (record e { queue = q }, sending rest ∷ [])
after_action w e rest (q, false) = (finish w (record e { queue = q }), [])

-- One call goes on, among others that wait.
pub data Step (w : World) : SyncEngine × List Run → SyncEngine × List Run → Type 0 where
  start :
      (e : SyncEngine) (runs : List Run)
      → e.is_processing ≡ false
      → Step w (e, runs) (e, runs ++ waiting ∷ [])
  read :
      (e : SyncEngine) (rows : List QueuedAction) (before after : List Run)
      → e.queue.rows ≡ rows
      → Step w (e, before ++ waiting ∷ after) (load rows e, before ++ (loaded rows ++ after))
  refused :  -- reading the rows fails, and the promise of the call rejects
      (e : SyncEngine) (before after : List Run)
      → Step w (e, before ++ waiting ∷ after) (e, before ++ after)
  act :
      (e : SyncEngine) (a : QueuedAction) (rest : List QueuedAction) (before after : List Run)
      → Step w
          (e, before ++ sending (a ∷ rest) ∷ after)
          (
            (after_action w e rest (process_action w a e.queue)).0,
            before ++ ((after_action w e rest (process_action w a e.queue)).1 ++ after),
          )
  leave :
      (e : SyncEngine) (before after : List Run)
      → Step w (e, before ++ sending [] ∷ after) (finish w e, before ++ after)

pub data Steps (w : World) : SyncEngine × List Run → SyncEngine × List Run → Type 0 where
  here : (s : SyncEngine × List Run) → Steps w s s
  next : {s t u : SyncEngine × List Run} → Step w s t → Steps w t u → Steps w s u

abbrev pub is_sending : Run → Bool
is_sending waiting = false
is_sending (sending actions) = true

-- The engine says that it is processing only while a call is in its loop.
abbrev pub IsReleased : SyncEngine × List Run → Type 0
IsReleased (e, runs) = (e.is_processing ≡ false) ⊎ (any is_sending runs ≡ true)

any-middle :
    (x : Run) (before after : List Run)
    → any is_sending (before ++ x ∷ after) ≡ (is_sending x || any is_sending (before ++ after))
any-middle x [] after = refl
any-middle x (b ∷ before) after = ground (arith, any-middle x before after)

any-sending :
    (actions : List QueuedAction) (before after : List Run)
    → any is_sending (before ++ sending actions ∷ after) ≡ true
any-sending actions before after = any-middle (sending actions) before after

any-waiting :
    (before after : List Run)
    → any is_sending (before ++ waiting ∷ after) ≡ any is_sending (before ++ after)
any-waiting before after = any-middle waiting before after

any-snoc : (runs : List Run) → any is_sending (runs ++ waiting ∷ []) ≡ any is_sending runs
any-snoc [] = refl
any-snoc (r ∷ runs) = ground (arith, any-snoc runs)

without_waiting :
    (e : SyncEngine) (before after : List Run)
    → IsReleased (e, before ++ waiting ∷ after)
    → IsReleased (e, before ++ after)
without_waiting e before after (inl h) = inl h
without_waiting e before after (inr h) = inr (sym (any-waiting before after) ∙ h)

load-IsReleased :
    (e : SyncEngine) (rows : List QueuedAction) (before after : List Run)
    → IsReleased (e, before ++ after)
    → IsReleased (load rows e, before ++ (loaded rows ++ after))
unfolding load
load-IsReleased e [] before after (inl h) = inl ((set_state-queue SyncState.online e).1 ∙ h)
load-IsReleased e [] before after (inr h) = inr h
load-IsReleased e (a ∷ rest) before after h = inr (any-sending (a ∷ rest) before after)

after_action-IsReleased :
    (w : World) (e : SyncEngine) (rest : List QueuedAction) (r : ActionQueue × Bool)
    (before after : List Run)
    → IsReleased ((after_action w e rest r).0, before ++ ((after_action w e rest r).1 ++ after))
unfolding after_action finish
after_action-IsReleased w e rest (q, true) before after = inr (any-sending rest before after)
after_action-IsReleased w e rest (q, false) before after =
    inl (finish-queue w (record e { queue = q })).1

step-IsReleased :
    (w : World) {s t : SyncEngine × List Run} → Step w s t → IsReleased s → IsReleased t
step-IsReleased w (start e runs p) h = inl p
step-IsReleased w (read e rows before after p) h =
    load-IsReleased e rows before after (without_waiting e before after h)
step-IsReleased w (refused e before after) h = without_waiting e before after h
step-IsReleased w (act e a rest before after) h =
    after_action-IsReleased w e rest (process_action w a e.queue) before after
step-IsReleased w (leave e before after) h = inl (finish-queue w e).1

-- Where the engine is processing only while some call is in its loop, as in a new engine, it stays
-- so however calls of startSync interleave where they wait, and whichever of their reads and actions
-- fail. So when no call is left, it is not processing.
pub steps-IsReleased :
    (w : World) {s t : SyncEngine × List Run} → Steps w s t → IsReleased s → IsReleased t
steps-IsReleased w (here s) h = h
steps-IsReleased w (next x xs) h = steps-IsReleased w xs (step-IsReleased w x h)
