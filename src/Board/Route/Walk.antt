-- ===== src/Board/Route/Walk.antt =====
-- What visiting the neighbors of one waypoint keeps: walks, the order of the queue, and its tiers.
use text.Mathlib.TextPositions.{eq_refl}
use runway_the_game.Prelude.{
  ℕ, zero, suc, ◌≤◌, String, ◌==◌, eq_iff, Bool, Bool-cases, true, ◌≡◌, inl, inr, none, some, [],
  ◌∷◌, ◌++◌, map, All, includes, Dict, lookup, insert, lookup-insert, arith,
}
use runway_the_game.Board.Route.{Queue}

-- A walk of n roads from the start, by a test for "is joined to".
abbrev pub Walk : (String → String → Bool) → String → ℕ → String → Type 0
Walk edge start zero u = u ≡ start
Walk edge start (suc n) u = (p : String) × Walk edge start n p × (edge p u ≡ true)

abbrev pub queued : String → Queue → Bool
queued u q = includes u (map (λ e. e.0) q)

-- Each entry carries the tier of its waypoint.
abbrev pub Carries : Dict ℕ → Queue → Type 0
Carries tiers q = All (λ e. lookup e.0 tiers ≡ some e.1) q

abbrev pub Below : ℕ → Queue → Type 0
Below k q = All (λ e. k ≤ e.1) q

abbrev pub Ascending : Queue → Type 0
Ascending [] = Unit
Ascending (e ∷ q) = Below e.1 q × Ascending q

-- No tier passes k.
abbrev pub AtMost : ℕ → Dict ℕ → Type 0
AtMost k tiers = (u : String) (m : ℕ) → lookup u tiers ≡ some m → m ≤ k

pub lookup_kept :
    (n u : String) (k m : ℕ) (tiers : Dict ℕ)
    → lookup n tiers ≡ none
    → lookup u tiers ≡ some m
    → lookup u (insert n k tiers) ≡ some m
lookup_kept n u k m tiers h e = ground (arith, lookup-insert n u k tiers, eq_iff n u)

Carries-insert :
    (q : Queue) (n : String) (k : ℕ) (tiers : Dict ℕ)
    → lookup n tiers ≡ none
    → Carries tiers q
    → Carries (insert n k tiers) (q ++ (n, k) ∷ [])
Carries-insert [] n k tiers h c = (ground (arith, lookup-insert n n k tiers, eq_refl n), tt)
Carries-insert (e ∷ q) n k tiers h c =
    (lookup_kept n e.0 k e.1 tiers h c.0, Carries-insert q n k tiers h c.1)

Below-append : (q : Queue) (n : String) (j k : ℕ) → j ≤ k → Below j q → Below j (q ++ (n, k) ∷ [])
Below-append [] n j k h b = (h, tt)
Below-append (e ∷ q) n j k h b = (b.0, Below-append q n j k h b.1)

Ascending-append :
    (q : Queue) (n : String) (k : ℕ) (tiers : Dict ℕ)
    → AtMost k tiers
    → Carries tiers q
    → Ascending q
    → Ascending (q ++ (n, k) ∷ [])
Ascending-append [] n k tiers m c a = (tt, tt)
Ascending-append (e ∷ q) n k tiers m c a =
    (Below-append q n e.1 k (m e.0 e.1 c.0) a.0, Ascending-append q n k tiers m c.1 a.1)

AtMost-insert : (n : String) (k : ℕ) (tiers : Dict ℕ) → AtMost k tiers → AtMost k (insert n k tiers)
AtMost-insert n k tiers h u m e = ground (arith, lookup-insert n u k tiers, h u m)

pub queued-append :
    (u n : String) (k : ℕ) (q : Queue) → queued u q ≡ true → queued u (q ++ (n, k) ∷ []) ≡ true
queued-append u n k [] h = cc
queued-append u n k (e ∷ q) h = ground (arith, queued-append u n k q)

pub queued-append_self : (n : String) (k : ℕ) (q : Queue) → queued n (q ++ (n, k) ∷ []) ≡ true
queued-append_self n k [] = ground (arith, eq_refl n)
queued-append_self n k (e ∷ q) = ground (arith, queued-append_self n k q)

-- The state between two rounds of the `forEach`, and what a whole `forEach` makes of it.
pub record Visiting (edge : String → String → Bool) (start : String) (k : ℕ) (q : Queue)
    (tiers : Dict ℕ) : Type 0 where
  pub sound : (u : String) (m : ℕ) → lookup u tiers ≡ some m → Walk edge start m u
  pub carries : Carries tiers q
  pub ascending : Ascending q
  pub below : Below k q
  pub at_most : AtMost (suc k) tiers

sound-insert :
    (edge : String → String → Bool) (start n : String) (k : ℕ) (tiers : Dict ℕ)
    → ((u : String) (m : ℕ) → lookup u tiers ≡ some m → Walk edge start m u)
    → Walk edge start k n
    → (u : String) (m : ℕ) → lookup u (insert n k tiers) ≡ some m
    → Walk edge start m u
sound-insert edge start n k tiers h w u m e = elim (Bool-cases (n == u)) [
  | inl same ↦
      let here : k ≡ m = ground (arith, lookup-insert n u k tiers) in
      rw (← (eq_iff n u).0 same, ← here) w
  | inr other ↦ h u m (ground (arith, lookup-insert n u k tiers))
]

pub Visiting-insert :
    (edge : String → String → Bool) (start n : String) (k : ℕ) (q : Queue) (tiers : Dict ℕ)
    → lookup n tiers ≡ none
    → Walk edge start (suc k) n
    → Visiting edge start k q tiers
    → Visiting edge start k (q ++ (n, suc k) ∷ []) (insert n (suc k) tiers)
Visiting-insert edge start n k q tiers h w v = record {
  sound = sound-insert edge start n (suc k) tiers v.sound w;
  carries = Carries-insert q n (suc k) tiers h v.carries;
  ascending = Ascending-append q n (suc k) tiers v.at_most v.carries v.ascending;
  below = Below-append q n k (suc k) (omega arith) v.below;
  at_most = AtMost-insert n (suc k) tiers v.at_most;
}
