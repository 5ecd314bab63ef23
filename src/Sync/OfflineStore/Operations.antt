-- ===== src/Sync/OfflineStore/Operations.antt =====
-- The operations of frontend/src/core/projection/offlineStore.ts on a queue, one after another.
use Prim.Native.String
use mathlib.Core.Path.{subst}
use runway_the_game.Prelude.{
  ℕ, ◌<◌, String, ◌≡◌, refl, sym, ap, ◌∙◌, inl, inr, Bool, true, false, not, Option, none, some,
  List, [], ◌∷◌, ◌++◌, filter, find, any, or_default, arith, eq_iff, Bool-cases, Option-cases,
}
use runway_the_game.Sync.OfflineStore.{
  QueuedAction, ActionQueue, Settled, resolved, rejected, empty_queue, has_key, has_id,
  enqueue_found, enqueue_action, dequeue_action, delete_row, clear_queue, purge_queue_for_game,
  of_game, delete_rows,
}
use runway_the_game.Sync.OfflineStore.Keys.{
  IsKeyed, Ordered, Ordered-snoc, Distinct-snoc, Ordered-filter, Distinct-filter,
}

-- A call, with how its requests fare.
pub data Call : Type 0 where
  enqueue : Option String → Bool → QueuedAction → Call
  dequeue : Option String → ℕ → Call
  clear : Option String → Call
  purge : Bool → (QueuedAction → Bool) → String → Call

pub perform : Call → ActionQueue → ActionQueue
unfolding enqueue_action dequeue_action clear_queue purge_queue_for_game
perform (enqueue error lookup_fails action) q = (enqueue_action error lookup_fails action q).0
perform (dequeue error n) q = (dequeue_action error n q).0
perform (clear error) q = (clear_queue error q).0
perform (purge error delete_error game_id) q = (purge_queue_for_game error delete_error game_id q).0

abbrev pub perform_all : List Call → ActionQueue → ActionQueue
perform_all [] q = q
perform_all (c ∷ calls) q = perform_all calls (perform c q)

IsKeyed-filter :
    (p : QueuedAction → Bool) (q : ActionQueue)
    → IsKeyed q
    → IsKeyed (record q { rows = filter p q.rows })
IsKeyed-filter p q h = (Ordered-filter p 0 q.next_key q.rows h.0, Distinct-filter p q.rows h.1)

IsKeyed-delete_rows :
    (ts : List QueuedAction) (q : ActionQueue)
    → IsKeyed q
    → IsKeyed (record q { rows = delete_rows ts q.rows })
IsKeyed-delete_rows [] q h = h
IsKeyed-delete_rows (t ∷ ts) q h = elim (Option-cases t.id) [
  | inl e ↦ rw e (IsKeyed-delete_rows ts q h)
  | inr (n, e) ↦ rw e (
      IsKeyed-delete_rows ts (record q { rows = delete_row n q.rows })
        (IsKeyed-filter (λ a. not (has_id n a)) q h))
]

low_high : (low high : ℕ) (rows : List QueuedAction) → Ordered low high rows → low < high
low_high low high [] h = h
low_high low high (a ∷ rows) h = omega (arith, h.1, low_high (or_default a.id 0) high rows h.2)

IsKeyed-enqueue_found :
    (b : Bool) (action : QueuedAction) (q : ActionQueue) (found : Option QueuedAction)
    → find (has_key action.idempotency_key) q.rows ≡ found
    → IsKeyed q
    → IsKeyed (enqueue_found b action q found).0
unfolding enqueue_found
IsKeyed-enqueue_found b action q (some row) e h = h
IsKeyed-enqueue_found b action q none e h = (
  Ordered-snoc 0 q.next_key action q.rows h.0,
  Distinct-snoc (record action { id = some q.next_key }) q.rows h.1 e,
)

perform-IsKeyed : (c : Call) (q : ActionQueue) → IsKeyed q → IsKeyed (perform c q)
unfolding perform enqueue_action dequeue_action clear_queue purge_queue_for_game
perform-IsKeyed (enqueue (some error) b action) q h = h
perform-IsKeyed (enqueue none b action) q h =
    IsKeyed-enqueue_found b action q (find (has_key action.idempotency_key) q.rows) refl h
perform-IsKeyed (dequeue (some error) n) q h = h
perform-IsKeyed (dequeue none n) q h = IsKeyed-filter (λ a. not (has_id n a)) q h
perform-IsKeyed (clear (some error)) q h = h
perform-IsKeyed (clear none) q h = (low_high 0 q.next_key q.rows h.0, tt)
perform-IsKeyed (purge true delete_error game_id) q h = h
perform-IsKeyed (purge false delete_error game_id) q h =
    elim (Bool-cases (any delete_error (filter (of_game game_id) q.rows))) [
      | inl e ↦ rw e h
      | inr e ↦ rw e (IsKeyed-delete_rows (filter (of_game game_id) q.rows) q h)
    ]

perform_all-IsKeyed_from :
    (calls : List Call) (q : ActionQueue) → IsKeyed q → IsKeyed (perform_all calls q)
perform_all-IsKeyed_from [] q h = h
perform_all-IsKeyed_from (c ∷ calls) q h =
    perform_all-IsKeyed_from calls (perform c q) (perform-IsKeyed c q h)

-- After any calls on a new queue, whatever requests fail, every row has a key, the rows stand in
-- the order of their keys, each below the next key, and no two rows have one idempotency key.
pub perform_all-IsKeyed : (calls : List Call) → IsKeyed (perform_all calls empty_queue)
perform_all-IsKeyed calls = perform_all-IsKeyed_from calls empty_queue (omega arith, tt)

find-snoc_some :
    (a b : QueuedAction) (rows : List QueuedAction)
    → find (has_key b.idempotency_key) rows ≡ none
    → a.idempotency_key ≡ b.idempotency_key
    → find (has_key b.idempotency_key) (rows ++ a ∷ []) ≡ some a
find-snoc_some a b [] h e = ground (arith, e, eq_iff a.idempotency_key b.idempotency_key)
find-snoc_some a b (c ∷ rows) h e = ground (arith, h, find-snoc_some a b rows)

find-enqueue_found :
    (b : Bool) (first again : QueuedAction) (q : ActionQueue) (found : Option QueuedAction)
    → find (has_key first.idempotency_key) q.rows ≡ found
    → first.idempotency_key ≡ again.idempotency_key
    → find (has_key again.idempotency_key) (enqueue_found b first q found).0.rows
      ≡ some (or_default found (record first { id = some q.next_key }))
unfolding enqueue_found
find-enqueue_found b first again q (some row) p e = ap (λ k. find (has_key k) q.rows) (sym e) ∙ p
find-enqueue_found b first again q none p e =
    find-snoc_some (record first { id = some q.next_key }) again q.rows
      (ap (λ k. find (has_key k) q.rows) (sym e) ∙ p) e

enqueue_found-id :
    (first : QueuedAction) (q : ActionQueue) (found : Option QueuedAction)
    → (enqueue_found false first q found).1
      ≡ resolved (or_default found (record first { id = some q.next_key })).id
unfolding enqueue_found
enqueue_found-id first q (some row) = refl
enqueue_found-id first q none = refl

-- How an action fares that is queued a second time, by the failures of its own requests; `first` is
-- how the first call settles when looking up its key does not fail.
abbrev pub Retried : Option String → Bool → Settled (Option ℕ) → Settled (Option ℕ) → Type 0
Retried (some error) lookup_fails first again =
    again ≡ rejected (String.◌++◌ "Failed to enqueue action: " error)
Retried none true first again = again ≡ rejected "Failed to look up existing queued action"
Retried none false first again = again ≡ first

enqueue_found-Retried :
    (c : Bool) (again row : QueuedAction) (q : ActionQueue) (found : Option QueuedAction)
    → found ≡ some row
    → ((enqueue_found c again q found).0 ≡ q)
      × Retried none c (resolved row.id) (enqueue_found c again q found).1
unfolding enqueue_found
enqueue_found-Retried c again row q none e = absurd (ground (arith, e))
enqueue_found-Retried true again row q (some r) e = (refl, refl)
enqueue_found-Retried false again row q (some r) e =
    (refl, ap (λ o. resolved (or_default o row).id) e)

-- An action is queued, its request failing at most for a key that is there, and queued again under
-- its idempotency key, with whatever else. Then the second call leaves the queue as the first did. It
-- rejects when its request fails otherwise, or when looking up the key fails; else it settles as the
-- first call does when its own lookup does not fail.
pub enqueue_action-retry :
    (b : Bool) (error : Option String) (c : Bool) (first again : QueuedAction) (q : ActionQueue)
    → first.idempotency_key ≡ again.idempotency_key
    → ((enqueue_action error c again (enqueue_action none b first q).0).0
        ≡ (enqueue_action none b first q).0)
      × Retried error c
          (enqueue_action none false first q).1
          (enqueue_action error c again (enqueue_action none b first q).0).1
unfolding enqueue_action
enqueue_action-retry b (some error) c first again q e = (refl, refl)
enqueue_action-retry b none c first again q e =
    let found = find (has_key first.idempotency_key) q.rows in
    let q1 = (enqueue_found b first q found).0 in
    let row = or_default found (record first { id = some q.next_key }) in
    let second =
      enqueue_found-Retried c again row q1 (find (has_key again.idempotency_key) q1.rows)
        (find-enqueue_found b first again q found refl e) in
    (
      second.0,
      subst
          (λ r.
            Retried none c r
              (enqueue_found c again q1 (find (has_key again.idempotency_key) q1.rows)).1)
          (sym (enqueue_found-id first q found)) second.1,
    )
