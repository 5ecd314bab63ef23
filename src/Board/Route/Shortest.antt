-- ===== src/Board/Route/Shortest.antt =====
-- computeRouteOrder assigns shortest distances: the invariant of its queue loop.
use text.Mathlib.TextPositions.{eq_refl}
use native.Mathlib.Numerals.{add-one}
use runway_the_game.Prelude.{
  ℕ, zero, suc, ◌+◌, ◌≤◌, String, ◌==◌, eq_iff, Bool, Bool-cases, Option-cases, true, ◌≡◌, ◌⊎◌, inl,
  inr, some, List, [], ◌∷◌, ◌++◌, includes, Dict, lookup, insert, lookup-insert, arith,
}
use runway_the_game.Board.Route.{Queue, neighbors, visit, search_from}
use runway_the_game.Board.Route.Walk.{
  Walk, queued, Carries, Ascending, AtMost, Visiting, Visiting-insert, lookup_kept, queued-append,
  queued-append_self,
}

visit-Visiting :
    (edge : String → String → Bool) (start : String) (k : ℕ) (ns : List String) (q : Queue)
    (tiers : Dict ℕ)
    → ((v : String) → includes v ns ≡ true → Walk edge start (suc k) v)
    → Visiting edge start k q tiers
    → Visiting edge start k (visit k ns q tiers).0 (visit k ns q tiers).1
unfolding visit
visit-Visiting edge start k [] q tiers w v = v
visit-Visiting edge start k (n ∷ ns) q tiers w v = elim (Option-cases (lookup n tiers)) [
  | inl fresh ↦
      rw (fresh, visit, add-one)
        (visit-Visiting edge start k ns (q ++ (n, suc k) ∷ []) (insert n (suc k) tiers)
          (λ u i. w u (ground arith))
          (Visiting-insert edge start n k q tiers fresh (w n (ground (arith, eq_refl n))) v))
  | inr (m, old) ↦
      rw (old, visit) (visit-Visiting edge start k ns q tiers (λ u i. w u (ground arith)) v)
]

visit-lookup :
    (k : ℕ) (ns : List String) (q : Queue) (tiers : Dict ℕ) (u : String) (m : ℕ)
    → lookup u tiers ≡ some m
    → lookup u (visit k ns q tiers).1 ≡ some m
unfolding visit
visit-lookup k [] q tiers u m e = e
visit-lookup k (n ∷ ns) q tiers u m e = ground (
  arith,
  visit-lookup k ns (q ++ (n, k + 1) ∷ []) (insert n (k + 1) tiers) u m,
  visit-lookup k ns q tiers u m,
  lookup_kept n u (k + 1) m tiers,
)

visit-queued :
    (k : ℕ) (ns : List String) (q : Queue) (tiers : Dict ℕ) (u : String)
    → queued u q ≡ true
    → queued u (visit k ns q tiers).0 ≡ true
unfolding visit
visit-queued k [] q tiers u h = h
visit-queued k (n ∷ ns) q tiers u h = ground (
  arith,
  visit-queued k ns (q ++ (n, k + 1) ∷ []) (insert n (k + 1) tiers) u,
  visit-queued k ns q tiers u,
  queued-append u n (k + 1) q,
)

-- Every neighbor has a tier afterwards.
visit_reached :
    (k : ℕ) (ns : List String) (q : Queue) (tiers : Dict ℕ) (u : String)
    → includes u ns ≡ true
    → (m : ℕ) × (lookup u (visit k ns q tiers).1 ≡ some m)
unfolding visit
visit_reached k [] q tiers u h = cc
visit_reached k (n ∷ ns) q tiers u h = elim (Option-cases (lookup n tiers)) [
  | inl fresh ↦ elim (Bool-cases (n == u)) [
    | inl same ↦ (
      k + 1,
      rw (fresh, visit)
          (visit-lookup k ns (q ++ (n, k + 1) ∷ []) (insert n (k + 1) tiers) u (k + 1)
            (ground (arith, lookup-insert n u (k + 1) tiers))),
    )
    | inr other ↦
        rw (fresh, visit)
          (visit_reached k ns (q ++ (n, k + 1) ∷ []) (insert n (k + 1) tiers) u (ground arith))
  ]
  | inr (m, old) ↦ elim (Bool-cases (n == u)) [
    | inl same ↦
        (m, rw (old, visit) (visit-lookup k ns q tiers u m (rw (← (eq_iff n u).0 same) old)))
    | inr other ↦ rw (old, visit) (visit_reached k ns q tiers u (ground arith))
  ]
]

-- A tier after the round is an old one, or its waypoint is in the queue.
visit_new :
    (k : ℕ) (ns : List String) (q : Queue) (tiers : Dict ℕ) (u : String) (m : ℕ)
    → lookup u (visit k ns q tiers).1 ≡ some m
    → (queued u (visit k ns q tiers).0 ≡ true) ⊎ (lookup u tiers ≡ some m)
unfolding visit
visit_new k [] q tiers u m e = inr e
visit_new k (n ∷ ns) q tiers u m e = ground (
  arith,
  visit_new k ns (q ++ (n, k + 1) ∷ []) (insert n (k + 1) tiers) u m,
  visit_new k ns q tiers u m,
  lookup-insert n u (k + 1) tiers,
  eq_iff n u,
  visit-queued k ns (q ++ (n, k + 1) ∷ []) (insert n (k + 1) tiers) u,
  queued-append_self n (k + 1) q,
)

abbrev pub edge_of : Dict (List String) → String → String → Bool
edge_of adj u v = includes v (neighbors adj u)

abbrev pub Done : (String → String → Bool) → Dict ℕ → String → ℕ → Type 0
Done edge tiers u m =
    (v : String) → edge u v ≡ true → (l : ℕ) × (lookup v tiers ≡ some l) × (l ≤ suc m)

abbrev pub Ahead : Queue → Dict ℕ → Type 0
Ahead [] tiers = Unit
Ahead (e ∷ q) tiers = AtMost (suc e.1) tiers

pub record Searching (edge : String → String → Bool) (start : String) (q : Queue) (tiers : Dict ℕ)
    : Type 0 where
  pub first : lookup start tiers ≡ some 0
  pub sound : (u : String) (m : ℕ) → lookup u tiers ≡ some m → Walk edge start m u
  pub carries : Carries tiers q
  pub ascending : Ascending q
  pub ahead : Ahead q tiers
  pub settled :
      (u : String) (m : ℕ) → lookup u tiers ≡ some m → (queued u q ≡ true) ⊎ Done edge tiers u m

Ahead-of_Visiting :
    (edge : String → String → Bool) (start : String) (k : ℕ) (q : Queue) (tiers : Dict ℕ)
    → Visiting edge start k q tiers
    → Ahead q tiers
Ahead-of_Visiting edge start k [] tiers v = tt
Ahead-of_Visiting edge start k (e ∷ q) tiers v = λ u m h. omega (arith, v.at_most u m h, v.below.0)

module _ (adj : Dict (List String)) (start id : String) (k : ℕ) (q : Queue) (tiers : Dict ℕ)
    (s : Searching (edge_of adj) start ((id, k) ∷ q) tiers) where
  round :
      Visiting
        (edge_of adj)
        start
        k
        (visit k (neighbors adj id) q tiers).0
        (visit k (neighbors adj id) q tiers).1
  round =
      visit-Visiting (edge_of adj) start k (neighbors adj id) q tiers
        (λ v i. (id, s.sound id k s.carries.0, i))
        (record {
          sound = s.sound;
          carries = s.carries.1;
          ascending = s.ascending.1;
          below = s.ascending.0;
          at_most = s.ahead;
        })

  Done-visited : Done (edge_of adj) (visit k (neighbors adj id) q tiers).1 id k
  Done-visited v i =
      let (l, e) = visit_reached k (neighbors adj id) q tiers v i in (l, e, round.at_most v l e)

  Done-kept :
      (u : String) (m : ℕ)
      → Done (edge_of adj) tiers u m
      → Done (edge_of adj) (visit k (neighbors adj id) q tiers).1 u m
  Done-kept u m d v i =
      let (l, e, h) = d v i in (l, visit-lookup k (neighbors adj id) q tiers v l e, h)

  settled-visit :
      (u : String) (m : ℕ)
      → lookup u (visit k (neighbors adj id) q tiers).1 ≡ some m
      → (queued u (visit k (neighbors adj id) q tiers).0 ≡ true)
        ⊎ Done (edge_of adj) (visit k (neighbors adj id) q tiers).1 u m
  settled-visit u m e = elim (visit_new k (neighbors adj id) q tiers u m e) [
    | inl new ↦ inl new
    | inr old ↦ elim (s.settled u m old) [
      | inr done ↦ inr (Done-kept u m done)
      | inl waiting ↦ elim (Bool-cases (id == u)) [
        | inl same ↦
            let here : k ≡ m = ground (arith, s.carries.0, eq_iff id u) in
            inr (rw (← (eq_iff id u).0 same, ← here) Done-visited)
        | inr other ↦ inl (visit-queued k (neighbors adj id) q tiers u (ground arith))
      ]
    ]
  ]

  Searching-visit :
      Searching
        (edge_of adj)
        start
        (visit k (neighbors adj id) q tiers).0
        (visit k (neighbors adj id) q tiers).1
  Searching-visit = record {
    first = visit-lookup k (neighbors adj id) q tiers start 0 s.first;
    sound = round.sound;
    carries = round.carries;
    ascending = round.ascending;
    ahead = Ahead-of_Visiting (edge_of adj) start k _ _ round;
    settled = settled-visit;
  }

pub search_from_sound :
    (fuel : ℕ) (adj : Dict (List String)) (start : String) (q : Queue) (tiers result : Dict ℕ)
    → Searching (edge_of adj) start q tiers
    → search_from fuel adj q tiers ≡ some result
    → Searching (edge_of adj) start [] result
unfolding search_from
search_from_sound fuel adj start [] tiers result s e =
    let same : tiers ≡ result = cc in rw (← same) s
search_from_sound zero adj start ((id, k) ∷ q) tiers result s e = cc
search_from_sound (suc fuel) adj start ((id, k) ∷ q) tiers result s e =
    search_from_sound fuel adj start (visit k (neighbors adj id) q tiers).0
      (visit k (neighbors adj id) q tiers).1 result (Searching-visit adj start id k q tiers s) e

-- Once the queue is empty, no walk is shorter than a tier.
pub settled_shortest :
    (edge : String → String → Bool) (start : String) (tiers : Dict ℕ)
    → Searching edge start [] tiers
    → (n : ℕ) (u : String) → Walk edge start n u
    → (m : ℕ) × (lookup u tiers ≡ some m) × (m ≤ n)
settled_shortest edge start tiers s zero u w = (0, rw w s.first, omega arith)
settled_shortest edge start tiers s (suc n) u (p, w, i) =
    let (m, e, h) = settled_shortest edge start tiers s n p w in
    elim (s.settled p m e) [
      | inl waiting ↦ cc
      | inr done ↦ let (l, e', h') = done u i in (l, e', omega arith)
    ]
