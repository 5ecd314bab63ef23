-- ===== src/Sync/SyncEngine/Unsettled.antt =====
-- What processAction of frontend/src/core/projection/syncEngine.ts leaves of a queue in which one
-- action is not settled.
use mathlib.Core.Path.{subst}
use runway_the_game.Prelude.{
  String, ℕ, ◌≡◌, refl, sym, ap, ◌∙◌, ◌⊎◌, inl, inr, Bool, true, false, ◌||◌, not, Option, none,
  some, List, [], ◌∷◌, All, filter, arith, Bool-cases, Option-cases, eqb,
}
use runway_the_game.Sync.OfflineStore.{
  QueuedAction, ActionQueue, has_id, delete_row, dequeue_action,
}
use runway_the_game.Sync.SyncEngine.{World, send, is_final, dequeue_id, process_action}
use runway_the_game.Sync.SyncEngine.Flush.{is_settled}

dequeue_id-refused :
    (w : World) (a : QueuedAction) (i : Option ℕ) (q : ActionQueue) (error : String)
    → w.dequeue_error a ≡ some error
    → (dequeue_id w a i q).0 ≡ q
unfolding dequeue_id dequeue_action
dequeue_id-refused w a none q error e = refl
dequeue_id-refused w a (some m) q error e = elim (Bool-cases (eqb m 0)) [
  | inl f ↦ rw f refl
  | inr f ↦ rw (f, e) refl
]

-- An action that is not settled leaves the queue as it is.
process_action-unsettled :
    (w : World) (a : QueuedAction) (q : ActionQueue)
    → is_settled w a ≡ false
    → (process_action w a q).0 ≡ q
unfolding process_action
process_action-unsettled w a q h = elim (Option-cases (w.dequeue_error a)) [
  | inl e ↦
      let f : (not (w.has_session a.payload.game_id) || is_final (send w a)) ≡ false =
        ground (arith, h, e) in
      let s : w.has_session a.payload.game_id ≡ true = ground (arith, f) in
      let t : is_final (send w a) ≡ false = ground (arith, f) in rw (s, t) refl
  | inr (error, e) ↦ elim (Bool-cases (w.has_session a.payload.game_id)) [
    | inl s ↦ elim (Bool-cases (is_final (send w a))) [
      | inl t ↦ rw (s, t) (dequeue_id-refused w a a.id q error e)
      | inr t ↦ rw (s, t) refl
    ]
    | inr s ↦ rw s (dequeue_id-refused w a a.id q error e)
  ]
]

process_action-dequeue_id :
    (w : World) (a : QueuedAction) (q : ActionQueue)
    → ((process_action w a q).0 ≡ q) ⊎ ((process_action w a q).0 ≡ (dequeue_id w a a.id q).0)
unfolding process_action
process_action-dequeue_id w a q = elim (Bool-cases (w.has_session a.payload.game_id)) [
  | inl s ↦ elim (Bool-cases (is_final (send w a))) [
    | inl t ↦ inr (rw (s, t) refl)
    | inr t ↦ inl (rw (s, t) refl)
  ]
  | inr s ↦ inr (rw s refl)
]

module _ (kept : QueuedAction) where
  -- The action is one of the rows.
  abbrev pub Has : List QueuedAction → Type 0
  Has [] = ⊥
  Has (x ∷ xs) = (x ≡ kept) ⊎ Has xs

  Has-filter :
      (p : QueuedAction → Bool) (xs : List QueuedAction)
      → p kept ≡ true
      → Has xs
      → Has (filter p xs)
  Has-filter p [] k h = h
  Has-filter p (x ∷ xs) k (inl e) = let t : p x ≡ true = ap p e ∙ k in rw t (inl e)
  Has-filter p (x ∷ xs) k (inr h) = elim (Bool-cases (p x)) [
    | inl e ↦ rw e (inr (Has-filter p xs k h))
    | inr e ↦ rw e (Has-filter p xs k h)
  ]

-- An action that the engine is not done with, and the key of its row.
module _ (w : World) (kept : QueuedAction) (n : ℕ) where
  -- No other of the actions has its key.
  abbrev pub IsOwn : List QueuedAction → Type 0
  IsOwn xs = All (λ x. (x ≡ kept) ⊎ (has_id n x ≡ false)) xs

  IsOwn-filter : (p : QueuedAction → Bool) (xs : List QueuedAction) → IsOwn xs → IsOwn (filter p xs)
  IsOwn-filter p [] h = tt
  IsOwn-filter p (x ∷ xs) h = elim (Bool-cases (p x)) [
    | inl e ↦ rw e (h.0, IsOwn-filter p xs h.1)
    | inr e ↦ rw e (IsOwn-filter p xs h.1)
  ]

  abbrev pub IsKept : ActionQueue → Type 0
  IsKept q = Has kept q.rows × IsOwn q.rows

  IsKept-delete_row :
      (m : ℕ) (q : ActionQueue)
      → kept.id ≡ some n
      → eqb n m ≡ false
      → IsKept q
      → IsKept (record q { rows = delete_row m q.rows })
  IsKept-delete_row m q k e h = (
    Has-filter kept (λ a. not (has_id m a)) q.rows
        (ap (λ i. not (elim i [ none ↦ false | some j ↦ eqb j m ])) k ∙ ap not e) h.0,
    IsOwn-filter (λ a. not (has_id m a)) q.rows h.1,
  )

  dequeue_id-IsKept :
      (a : QueuedAction) (i : Option ℕ) (q : ActionQueue)
      → kept.id ≡ some n
      → elim i [ none ↦ false | some m ↦ eqb m n ] ≡ false
      → IsKept q
      → IsKept (dequeue_id w a i q).0
  unfolding dequeue_id dequeue_action
  dequeue_id-IsKept a none q k e h = h
  dequeue_id-IsKept a (some m) q k e h = elim (Bool-cases (eqb m 0)) [
    | inl z ↦ rw z h
    | inr z ↦ elim (Option-cases (w.dequeue_error a)) [
      | inl o ↦ rw (z, o) (IsKept-delete_row m q k (ground (arith, e)) h)
      | inr (error, o) ↦ rw (z, o) h
    ]
  ]

  pub process_action-IsKept :
      (a : QueuedAction) (q : ActionQueue)
      → kept.id ≡ some n
      → is_settled w kept ≡ false
      → (a ≡ kept) ⊎ (has_id n a ≡ false)
      → IsKept q
      → IsKept (process_action w a q).0
  process_action-IsKept a q k u (inl e) h =
      subst IsKept (sym (process_action-unsettled w a q (ap (is_settled w) e ∙ u))) h
  process_action-IsKept a q k u (inr e) h = elim (process_action-dequeue_id w a q) [
    | inl p ↦ subst IsKept (sym p) h
    | inr p ↦ subst IsKept (sym p) (dequeue_id-IsKept a a.id q k e h)
  ]
