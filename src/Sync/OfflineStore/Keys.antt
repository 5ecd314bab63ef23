-- ===== src/Sync/OfflineStore/Keys.antt =====
-- The rows of the queue of frontend/src/core/projection/offlineStore.ts: their keys and their order.
use runway_the_game.Prelude.{
  ℕ, suc, ◌≤◌, ◌<◌, String, ◌≡◌, refl, inl, inr, Bool, false, none, some, List, [], ◌∷◌, ◌++◌,
  filter, find, or_default, arith, eq_iff, Bool-cases,
}
use runway_the_game.Sync.OfflineStore.{QueuedAction, ActionQueue, has_key}

-- Rows with ascending keys, each above `low` and below `high`.
abbrev pub Ordered : ℕ → ℕ → List QueuedAction → Type 0
Ordered low high [] = low < high
Ordered low high (a ∷ rest) =
    a.id ≡ some (or_default a.id 0)
    × (low < or_default a.id 0)
    × Ordered (or_default a.id 0) high rest

-- No two rows have one idempotency key.
abbrev pub Distinct : List QueuedAction → Type 0
Distinct [] = Unit
Distinct (a ∷ rest) = find (has_key a.idempotency_key) rest ≡ none × Distinct rest

abbrev pub IsKeyed : ActionQueue → Type 0
IsKeyed q = Ordered 0 q.next_key q.rows × Distinct q.rows

pub Ordered-snoc :
    (low high : ℕ) (a : QueuedAction) (rows : List QueuedAction)
    → Ordered low high rows
    → Ordered low (suc high) (rows ++ record a { id = some high } ∷ [])
Ordered-snoc low high a [] h = (refl, h, omega arith)
Ordered-snoc low high a (b ∷ rows) h = (h.0, h.1, Ordered-snoc (or_default b.id 0) high a rows h.2)

pub Ordered-lower :
    (low low' high : ℕ) (rows : List QueuedAction)
    → low ≤ low'
    → Ordered low' high rows
    → Ordered low high rows
Ordered-lower low low' high [] l h = omega (arith, h)
Ordered-lower low low' high (a ∷ rows) l h = (h.0, omega (arith, h.1), h.2)

pub Ordered-filter :
    (p : QueuedAction → Bool) (low high : ℕ) (rows : List QueuedAction)
    → Ordered low high rows
    → Ordered low high (filter p rows)
Ordered-filter p low high [] h = h
Ordered-filter p low high (a ∷ rows) h = elim (Bool-cases (p a)) [
  | inl e ↦ rw e (h.0, h.1, Ordered-filter p (or_default a.id 0) high rows h.2)
  | inr e ↦ rw e (
      Ordered-filter p low high rows
        (Ordered-lower low (or_default a.id 0) high rows (omega (arith, h.1)) h.2))
]

find-filter :
    (k : String) (p : QueuedAction → Bool) (rows : List QueuedAction)
    → find (has_key k) rows ≡ none
    → find (has_key k) (filter p rows) ≡ none
find-filter k p [] h = h
find-filter k p (a ∷ rows) h = ground (arith, h, find-filter k p rows)

pub Distinct-filter :
    (p : QueuedAction → Bool) (rows : List QueuedAction) → Distinct rows → Distinct (filter p rows)
Distinct-filter p [] h = tt
Distinct-filter p (a ∷ rows) h = elim (Bool-cases (p a)) [
  | inl e ↦ rw e (find-filter a.idempotency_key p rows h.0, Distinct-filter p rows h.1)
  | inr e ↦ rw e (Distinct-filter p rows h.1)
]

find-snoc_none :
    (k : String) (a : QueuedAction) (rows : List QueuedAction)
    → find (has_key k) rows ≡ none
    → has_key k a ≡ false
    → find (has_key k) (rows ++ a ∷ []) ≡ none
find-snoc_none k a [] h e = ground (arith, e)
find-snoc_none k a (b ∷ rows) h e = ground (arith, h, find-snoc_none k a rows)

not_has_key :
    (a b : QueuedAction) (rows : List QueuedAction)
    → find (has_key a.idempotency_key) (b ∷ rows) ≡ none
    → has_key b.idempotency_key a ≡ false
not_has_key a b rows e = ground (
  arith,
  e,
  eq_iff a.idempotency_key b.idempotency_key,
  eq_iff b.idempotency_key a.idempotency_key,
)

find-cons_none :
    (a b : QueuedAction) (rows : List QueuedAction)
    → find (has_key a.idempotency_key) (b ∷ rows) ≡ none
    → find (has_key a.idempotency_key) rows ≡ none
find-cons_none a b rows e = ground (arith, e)

pub Distinct-snoc :
    (a : QueuedAction) (rows : List QueuedAction)
    → Distinct rows
    → find (has_key a.idempotency_key) rows ≡ none
    → Distinct (rows ++ a ∷ [])
Distinct-snoc a [] h e = (refl, tt)
Distinct-snoc a (b ∷ rows) h e = (
  find-snoc_none b.idempotency_key a rows h.0 (not_has_key a b rows e),
  Distinct-snoc a rows h.1 (find-cons_none a b rows e),
)
