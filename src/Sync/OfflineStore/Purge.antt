-- ===== src/Sync/OfflineStore/Purge.antt =====
-- purgeQueueForGame of frontend/src/core/projection/offlineStore.ts.
use runway_the_game.Prelude.{
  ℕ, suc, ◌≤◌, ◌<◌, String, ◌≡◌, refl, ap, ◌∙◌, inl, inr, Bool, false, ◌||◌, not, some, List, [],
  ◌∷◌, map, filter, length, any, eqb, or_default, arith, Bool-cases, if◌then◌else◌,
}
use runway_the_game.Sync.OfflineStore.{
  QueuedAction, ActionQueue, Settled, resolved, rejected, delete_row, purge_finish,
  purge_queue_for_game, of_game, delete_rows,
}
use runway_the_game.Sync.OfflineStore.Keys.{IsKeyed, Ordered, Ordered-filter, Ordered-lower}

abbrev outcome : Bool → Settled (Unit {0})
outcome failed = if failed then rejected "Failed to purge queued actions" else resolved tt

-- The promise settles at the last of the deletions.
purge_finish-settles :
    {A : Type 0} (p : A → Bool) (failed : Bool) (x : A) (xs : List A)
    → purge_finish (suc (length xs)) failed (map p (x ∷ xs))
      ≡ some (outcome (failed || any p (x ∷ xs)))
unfolding purge_finish
purge_finish-settles p failed x [] = ground arith
purge_finish-settles p failed x (y ∷ ys) =
    ground (arith, purge_finish-settles p (failed || p x) y ys)

-- A row whose key is at or above `n`, or no more, is not the row `n` deletes.
delete_row-above :
    (n low high : ℕ) (rows : List QueuedAction)
    → n ≤ low
    → Ordered low high rows
    → delete_row n rows ≡ rows
delete_row-above n low high [] l h = refl
delete_row-above n low high (a ∷ rows) l h = rw h.0 (
    ground
      (arith, h.1, l, delete_row-above n (or_default a.id 0) high rows (omega (arith, l, h.1)) h.2))

delete_row-other :
    (n : ℕ) (a : QueuedAction) (rows : List QueuedAction)
    → a.id ≡ some (or_default a.id 0)
    → or_default a.id 0 < n
    → delete_row n (a ∷ rows) ≡ a ∷ delete_row n rows
delete_row-other n a rows e l = rw e (ground (arith, l))

pub delete_row-head :
    (high : ℕ) (a : QueuedAction) (rows : List QueuedAction)
    → a.id ≡ some (or_default a.id 0)
    → Ordered (or_default a.id 0) high rows
    → delete_row (or_default a.id 0) (a ∷ rows) ≡ rows
delete_row-head high a rows e h = rw e (
    ground
      (arith, delete_row-above (or_default a.id 0) (or_default a.id 0) high rows (omega arith) h))

delete_rows-below :
    (a : QueuedAction) (high : ℕ) (ts rows : List QueuedAction)
    → a.id ≡ some (or_default a.id 0)
    → Ordered (or_default a.id 0) high ts
    → delete_rows ts (a ∷ rows) ≡ a ∷ delete_rows ts rows
delete_rows-below a high [] rows e h = refl
delete_rows-below a high (t ∷ ts) rows e h = rw h.0 (
    ap (delete_rows ts) (delete_row-other (or_default t.id 0) a rows e h.1)
    ∙ delete_rows-below a high ts (delete_row (or_default t.id 0) rows) e
        (Ordered-lower (or_default a.id 0) (or_default t.id 0) high ts (omega (arith, h.1)) h.2))

delete_rows-filter :
    (p : QueuedAction → Bool) (low high : ℕ) (rows : List QueuedAction)
    → Ordered low high rows
    → delete_rows (filter p rows) rows ≡ filter (λ a. not (p a)) rows
delete_rows-filter p low high [] h = refl
delete_rows-filter p low high (a ∷ rows) h = elim (Bool-cases (p a)) [
  | inl e ↦
      rw (e, h.0)
        (ap (delete_rows (filter p rows)) (delete_row-head high a rows h.0 h.2)
          ∙ delete_rows-filter p (or_default a.id 0) high rows h.2)
  | inr e ↦ rw e (
      delete_rows-below a high (filter p rows) rows h.0
        (Ordered-filter p (or_default a.id 0) high rows h.2)
      ∙ ap (λ r. a ∷ r) (delete_rows-filter p (or_default a.id 0) high rows h.2))
]

purge_targets-outcome :
    (delete_error : QueuedAction → Bool) (q : ActionQueue) (game_id : String)
    (ts : List QueuedAction)
    → (if eqb (length ts) 0
        then some (resolved tt)
        else purge_finish (length ts) false (map delete_error ts))
      ≡ some (outcome (any delete_error ts))
purge_targets-outcome delete_error q game_id [] = refl
purge_targets-outcome delete_error q game_id (t ∷ ts) =
    ground (arith, purge_finish-settles delete_error false t ts)

-- On a keyed queue, purging a game whose rows can be read settles. When no deletion fails it
-- resolves, exactly the rows of the game are gone and the others stand in their order; when one
-- fails it rejects and every row is still there.
pub purge_queue_for_game-settles :
    (delete_error : QueuedAction → Bool) (game_id : String) (q : ActionQueue)
    → IsKeyed q
    → purge_queue_for_game false delete_error game_id q ≡ (
        if any delete_error (filter (of_game game_id) q.rows)
        then (q, some (rejected "Failed to purge queued actions"))
        else (record q { rows = filter (λ a. not (of_game game_id a)) q.rows }, some (resolved tt)))
unfolding purge_queue_for_game
purge_queue_for_game-settles delete_error game_id q h =
    elim (Bool-cases (any delete_error (filter (of_game game_id) q.rows))) [
      | inl e ↦
          rw (e, purge_targets-outcome delete_error q game_id (filter (of_game game_id) q.rows), e)
            refl
      | inr e ↦
          rw
            (
              e,
              purge_targets-outcome delete_error q game_id (filter (of_game game_id) q.rows),
              e,
              delete_rows-filter (of_game game_id) 0 q.next_key q.rows h.0,
            )
            refl
    ]
