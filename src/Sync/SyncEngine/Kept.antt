-- ===== src/Sync/SyncEngine/Kept.antt =====
-- That calls of startSync of frontend/src/core/projection/syncEngine.ts lose no action between them.
use mathlib.Core.Path.{subst}
use runway_the_game.Prelude.{
  ℕ, ◌<◌, ◌≤◌, ◌≡◌, refl, sym, ap, ◌∙◌, inl, inr, Bool, true, false, none, some, List, [], ◌∷◌,
  ◌++◌, All, All-append, or_default, arith, eqb,
}
use runway_the_game.Sync.OfflineStore.{QueuedAction, ActionQueue}
use runway_the_game.Sync.OfflineStore.Keys.{IsKeyed, Ordered}
use runway_the_game.Sync.SyncEngine.{SyncState, World, SyncEngine, process_action, load}
use runway_the_game.Sync.SyncEngine.Flush.{is_settled, set_state-queue, finish-queue}
use runway_the_game.Sync.SyncEngine.Overlap.{
  Run, waiting, sending, loaded, after_action, Step, start, read, refused, act, leave, Steps, here,
  next,
}
use runway_the_game.Sync.SyncEngine.Unsettled.{Has, IsOwn, IsKept, process_action-IsKept}

load-queue : (rows : List QueuedAction) (e : SyncEngine) → (load rows e).queue ≡ e.queue
unfolding load
load-queue [] e = (set_state-queue SyncState.online e).0
load-queue (a ∷ rows) e = (set_state-queue SyncState.syncing (record e { is_processing = true })).0

module _ (w : World) (kept : QueuedAction) (n : ℕ) where
  abbrev OwnRun : Run → Type 0
  OwnRun waiting = Unit
  OwnRun (sending actions) = IsOwn w kept n actions

  abbrev pub IsSafe : SyncEngine × List Run → Type 0
  IsSafe (e, runs) = IsKept w kept n e.queue × All OwnRun runs

  around :
      (x : Run) (before after : List Run)
      → All OwnRun (before ++ x ∷ after)
      → OwnRun x × ((ys : List Run) → All OwnRun ys → All OwnRun (before ++ (ys ++ after)))
  around x [] after h = (h.0, (λ ys k. All-append OwnRun ys after k h.1))
  around x (b ∷ before) after h =
      let rest = around x before after h.1 in (rest.0, (λ ys k. (h.0, rest.1 ys k)))

  loaded-OwnRun : (rows : List QueuedAction) → IsOwn w kept n rows → All OwnRun (loaded rows)
  loaded-OwnRun [] h = tt
  loaded-OwnRun (a ∷ rows) h = (h, tt)

  after_action-IsSafe :
      (e : SyncEngine) (rest : List QueuedAction) (r : ActionQueue × Bool) (before after : List Run)
      → IsKept w kept n r.0
      → IsOwn w kept n rest
      → ((ys : List Run) → All OwnRun ys → All OwnRun (before ++ (ys ++ after)))
      → IsSafe ((after_action w e rest r).0, before ++ ((after_action w e rest r).1 ++ after))
  unfolding after_action
  after_action-IsSafe e rest (q, true) before after h o f = (h, f (sending rest ∷ []) (o, tt))
  after_action-IsSafe e rest (q, false) before after h o f =
      (subst (IsKept w kept n) (sym (finish-queue w (record e { queue = q })).0) h, f [] tt)

  step-IsSafe :
      {s t : SyncEngine × List Run}
      → kept.id ≡ some n
      → is_settled w kept ≡ false
      → Step w s t
      → IsSafe s
      → IsSafe t
  step-IsSafe k u (start e runs p) h = (h.0, All-append OwnRun runs (waiting ∷ []) h.1 (tt, tt))
  step-IsSafe k u (read e rows before after p) h = (
    subst (IsKept w kept n) (sym (load-queue rows e)) h.0,
    (around waiting before after h.1).1 (loaded rows)
        (loaded-OwnRun rows (subst (IsOwn w kept n) p h.0.1)),
  )
  step-IsSafe k u (refused e before after) h = (h.0, (around waiting before after h.1).1 [] tt)
  step-IsSafe k u (act e a rest before after) h =
      let here = around (sending (a ∷ rest)) before after h.1 in
      after_action-IsSafe e rest (process_action w a e.queue) before after
        (process_action-IsKept w kept n a e.queue k u here.0.0 h.0) here.0.1 here.1
  step-IsSafe k u (leave e before after) h = (
    subst (IsKept w kept n) (sym (finish-queue w e).0) h.0,
    (around (sending []) before after h.1).1 [] tt,
  )

  steps-IsSafe :
      {s t : SyncEngine × List Run}
      → kept.id ≡ some n
      → is_settled w kept ≡ false
      → Steps w s t
      → IsSafe s
      → IsSafe t
  steps-IsSafe k u (here s) h = h
  steps-IsSafe k u (next x xs) h = steps-IsSafe k u xs (step-IsSafe k u x h)

  Ordered-above :
      (low high : ℕ) (rows : List QueuedAction)
      → n ≤ low
      → Ordered low high rows
      → IsOwn w kept n rows
  Ordered-above low high [] l h = tt
  Ordered-above low high (x ∷ rows) l h = (
    inr (ap (λ i. elim i [ none ↦ false | some m ↦ eqb m n ]) h.0 ∙ ground (arith, l, h.1)),
    Ordered-above (or_default x.id 0) high rows (omega (arith, l, h.1)) h.2,
  )

  -- In ordered rows, the key of a row is a number above `low`, and no other row has it.
  Ordered-IsOwn :
      (low high : ℕ) (rows : List QueuedAction)
      → n ≡ or_default kept.id 0
      → Ordered low high rows
      → Has kept rows
      → (kept.id ≡ some n) × (low < n) × IsOwn w kept n rows
  Ordered-IsOwn low high [] p h k = elim k [ ]
  Ordered-IsOwn low high (x ∷ rows) p h (inl e) =
      let same : or_default x.id 0 ≡ n = ap (λ y. or_default y.id 0) e ∙ sym p in
      (
        sym (ap (λ y. y.id) e) ∙ h.0 ∙ ap (λ m. some m) same,
        omega (arith, h.1, same),
        (inl e, Ordered-above (or_default x.id 0) high rows (omega (arith, same)) h.2),
      )
  Ordered-IsOwn low high (x ∷ rows) p h (inr k) =
      let rest = Ordered-IsOwn (or_default x.id 0) high rows p h.2 k in
      (
        rest.0,
        omega (arith, h.1, rest.1),
        (
          inr (ap (λ i. elim i [ none ↦ false | some m ↦ eqb m n ]) h.0 ∙ ground (arith, rest.1)),
          rest.2,
        ),
      )

-- An action of a keyed queue that is not settled, since it has a session and no final reply or its
-- row cannot be deleted, stays in the queue however calls of startSync interleave where they wait, and
-- whichever of their reads fail, when nothing else changes the queue meanwhile and what each request
-- answers about an action does not change.
pub steps-Has :
    (w : World) (kept : QueuedAction) (e : SyncEngine) (t : SyncEngine × List Run)
    → IsKeyed e.queue
    → Has kept e.queue.rows
    → is_settled w kept ≡ false
    → Steps w (e, []) t
    → Has kept t.0.queue.rows
steps-Has w kept e t h m u steps =
    let n = or_default kept.id 0 in
    let own = Ordered-IsOwn w kept n 0 e.queue.next_key e.queue.rows refl h.0 m in
    (steps-IsSafe w kept n own.0 u steps ((m, own.2), tt)).0.0
