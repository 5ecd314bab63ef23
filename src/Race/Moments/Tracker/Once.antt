-- ===== src/Race/Moments/Tracker/Once.antt =====
-- createMomentTracker of frontend/src/core/game/raceMoments.ts over a sequence of states.
use runway_the_game.Prelude.{
  String, ◌≡◌, refl, inl, inr, Bool, true, false, ◌||◌, not, Option, none, some, List, [], ◌∷◌,
  ◌++◌, map, filter, All, All-imp, includes, add_text, includes-append, includes-add_text, arith,
  eq_iff, Bool-cases,
}
use runway_the_game.Projection.{GameState}
use runway_the_game.Race.Moments.{MomentBatch, RivalEvent, CelebrationMoment}
use runway_the_game.Race.Moments.Difference.{diff_moments}
use runway_the_game.Race.Moments.Tracker.{
  MomentTracker, batch_keys, unseen_of, fresh_celebration, add_texts, observe, observe_after,
  observe_new, is_quiet, create_moment_tracker,
}

-- The batches of a sequence of states, each with whether it is the object seen last.
abbrev pub observe_all : String → List (Bool × GameState) → MomentTracker → List MomentBatch
unfolding observe
observe_all t [] tracker = []
observe_all t ((same, g) ∷ rest) tracker =
    (observe t same g tracker).1 ∷ observe_all t rest (observe t same g tracker).0

-- No batch holds a key of `old` or of an earlier batch.
abbrev pub Once : List String → List MomentBatch → Type 0
Once old [] = Unit
Once old (b ∷ bs) = All (λ k. includes k old ≡ false) (batch_keys b) × Once (batch_keys b ++ old) bs

includes-add_texts :
    (k : String) (ks seen : List String)
    → includes k (add_texts ks seen) ≡ (includes k ks || includes k seen)
unfolding add_texts
includes-add_texts k [] seen = refl
includes-add_texts k (j ∷ ks) seen =
    ground
      (arith, includes-add_texts k ks (add_text j seen), includes-add_text j k seen, eq_iff j k)

All-append_keys :
    (P : String → Type 0) (xs ys : List String) → All P xs → All P ys → All P (xs ++ ys)
All-append_keys P [] ys h k = k
All-append_keys P (x ∷ xs) ys h k = (h.0, All-append_keys P xs ys h.1 k)

rival_unseen :
    (seen : List String) (es : List RivalEvent)
    → All
        (λ k. includes k seen ≡ false)
        (map (λ e. e.key) (filter (λ e. not (includes e.key seen)) es))
rival_unseen seen [] = tt
rival_unseen seen (e ∷ es) = elim (Bool-cases (includes e.key seen)) [
  | inl p ↦ rw p (rival_unseen seen es)
  | inr p ↦ rw p (p, rival_unseen seen es)
]

abbrev shown_keys : Option CelebrationMoment → List String
shown_keys none = []
shown_keys (some c) = c.key ∷ []

fresh_celebration-keys :
    (seen : List String) (c : Option CelebrationMoment)
    → All
        (λ k. includes k seen ≡ false)
        (elim (fresh_celebration seen c) [ none ↦ [] | some d ↦ d.key ∷ [] ])
fresh_celebration-keys seen none = tt
fresh_celebration-keys seen (some c) = elim (Bool-cases (includes c.key seen)) [
  | inl p ↦ rw p tt
  | inr p ↦ rw p (p, tt)
]

unseen_of-keys :
    (seen : List String) (b : MomentBatch)
    → All (λ k. includes k seen ≡ false) (batch_keys (unseen_of seen b))
unfolding unseen_of
unseen_of-keys seen b =
    All-append_keys (λ k. includes k seen ≡ false)
      (elim (fresh_celebration seen b.celebration) [ none ↦ [] | some d ↦ d.key ∷ [] ])
      (map (λ e. e.key) (filter (λ e. not (includes e.key seen)) b.rival))
      (fresh_celebration-keys seen b.celebration) (rival_unseen seen b.rival)

-- What one observation leaves: its keys were not seen, and then they are, with those seen before.
abbrev Marks : List String → MomentTracker × MomentBatch → Type 0
Marks seen r =
    All (λ k. includes k seen ≡ false) (batch_keys r.1)
    × ((k : String) → includes k r.0.seen ≡ (includes k (batch_keys r.1) || includes k seen))

observe_after-Marks :
    (t : String) (same : Bool) (g : GameState) (seen : List String) (prev : Option GameState)
    → Marks seen (observe_after t same g seen prev)
unfolding observe_after observe_new
observe_after-Marks t same g seen none = (tt, λ k. refl)
observe_after-Marks t same g seen (some before) = elim (Bool-cases (is_quiet same before g)) [
  | inl e ↦ rw e (tt, λ k. refl)
  | inr e ↦ rw e (
    unseen_of-keys seen (diff_moments before g t),
    λ k. includes-add_texts k (batch_keys (unseen_of seen (diff_moments before g t))) seen,
  )
]

not_old :
    (k : String) (old seen : List String)
    → (includes k old ≡ true → includes k seen ≡ true)
    → includes k seen ≡ false
    → includes k old ≡ false
not_old k old seen h e = elim (Bool-cases (includes k old)) [
  | inl p ↦ ground (arith, h p)
  | inr p ↦ p
]

still_seen :
    (k : String) (old keys seen seen' : List String)
    → (includes k old ≡ true → includes k seen ≡ true)
    → includes k seen' ≡ (includes k keys || includes k seen)
    → includes k (keys ++ old) ≡ true
    → includes k seen' ≡ true
still_seen k old keys seen seen' h e p = elim (Bool-cases (includes k old)) [
  | inl o ↦ ground (arith, h o, e)
  | inr o ↦ ground (arith, e, includes-append k keys old)
]

-- With every key of `old` already seen, no later batch shows a key of `old` or of a batch before it.
observe_all-Once_from :
    (t : String) (old : List String) (states : List (Bool × GameState)) (tracker : MomentTracker)
    → ((k : String) → includes k old ≡ true → includes k tracker.seen ≡ true)
    → Once old (observe_all t states tracker)
unfolding observe
observe_all-Once_from t old [] tracker h = tt
observe_all-Once_from t old ((same, g) ∷ rest) tracker h =
    let r = observe t same g tracker in
    let m = observe_after-Marks t same g tracker.seen tracker.prev in
    (
      All-imp (batch_keys r.1) (λ k e. not_old k old tracker.seen (h k) e) m.0,
      observe_all-Once_from t (batch_keys r.1 ++ old) rest r.0
          (λ k e. still_seen k old (batch_keys r.1) tracker.seen r.0.seen (h k) (m.1 k) e),
    )

-- Over any sequence of states fed to a new tracker, no celebration and no rival event has the key of
-- one that an earlier batch held.
pub observe_all-Once :
    (t : String) (states : List (Bool × GameState))
    → Once [] (observe_all t states create_moment_tracker)
observe_all-Once t states =
    observe_all-Once_from t [] states create_moment_tracker (λ k e. ground (arith, e))
