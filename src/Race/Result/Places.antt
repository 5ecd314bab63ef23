-- ===== src/Race/Result/Places.antt =====
-- The places that computeRaceResult of frontend/src/surfaces/report/raceResult.ts gives.
use mathlib.Core.Path.{subst}
use runway_the_game.Prelude.{
  ℕ, suc, ◌+◌, ◌≤◌, ◌<◌, String, ◌≡◌, refl, sym, ap, ◌⊎◌, inl, inr, Bool, true, false, Option, List,
  [], ◌∷◌, filter, length, All, All-imp, ltb, Bool-cases, arith, if◌then◌else◌,
}
use runway_the_game.Projection.{GameMode}
use runway_the_game.Race.Result.{
  Standing, RankedStanding, RaceReport, ranked_of, shares, rank_after, rank, compute_race_result,
  named_winner, rows_of, is_solo,
}
use runway_the_game.Race.Result.Ties.{Shared, rank-Shared}

-- How many of the teams have a place before `n`.
abbrev pub ahead_of : ℕ → List RankedStanding → ℕ
ahead_of n rs = length (filter (λ r. ltb r.place n) rs)

ahead_of-none : (n : ℕ) (rs : List RankedStanding) → All (λ r. n ≤ r.place) rs → ahead_of n rs ≡ 0
ahead_of-none n [] h = refl
ahead_of-none n (r ∷ rs) h = ground (arith, h.0, ahead_of-none n rs h.1)

module _ (mode : GameMode) (w : Option String) where
  pub rank_after-low :
      (i : ℕ) (previous : Standing) (place : ℕ) (rows : List Standing)
      → place ≤ i
      → All (λ r. place ≤ r.place) (rank_after mode w i previous place rows)
  unfolding rank_after
  rank_after-low i previous place [] h = tt
  rank_after-low i previous place (row ∷ rows) h = elim (Bool-cases (shares mode w previous row)) [
    | inl e ↦ rw e (omega arith, rank_after-low (i + 1) row place rows (omega (arith, h)))
    | inr e ↦ rw e (
      omega (arith, h),
      All-imp (rank_after mode w (i + 1) row (i + 1) rows) (λ r k. omega (arith, h, k))
          (rank_after-low (i + 1) row (i + 1) rows (omega arith)),
    )
  ]

  -- A place from row `i` on: that of the row before, or one more than the rows before it.
  abbrev Placed : ℕ → ℕ → List RankedStanding → RankedStanding → Type 0
  Placed i place rs r = (r.place ≡ place) ⊎ (i < r.place × suc (i + ahead_of r.place rs) ≡ r.place)

  Placed-same :
      (i place : ℕ) (x : RankedStanding) (rs : List RankedStanding) (r : RankedStanding)
      → place ≤ i
      → x.place ≡ place
      → Placed (i + 1) place rs r
      → Placed i place (x ∷ rs) r
  Placed-same i place x rs r l e (inl p) = inl p
  Placed-same i place x rs r l e (inr (p, q)) = inr (omega (arith, p), ground (arith, l, e, p, q))

  Placed-next :
      (i place : ℕ) (x : RankedStanding) (rs : List RankedStanding) (r : RankedStanding)
      → x.place ≡ i + 1
      → All (λ r. i + 1 ≤ r.place) rs
      → Placed (i + 1) (i + 1) rs r
      → Placed i place (x ∷ rs) r
  Placed-next i place x rs r e a (inl p) = inr (
    omega (arith, p),
    omega (
      arith,
      p,
      ahead_of-none r.place (x ∷ rs)
          (omega (arith, p, e), All-imp rs (λ s k. omega (arith, p, k)) a),
    ),
  )
  Placed-next i place x rs r e a (inr (p, q)) = inr (omega (arith, p), ground (arith, e, p, q))

  pub rank_after-shares :
      (b : Bool) (i : ℕ) (previous : Standing) (place : ℕ) (row : Standing) (rows : List Standing)
      → shares mode w previous row ≡ b
      → rank_after mode w i previous place (row ∷ rows)
        ≡ ranked_of (if b then place else i + 1) row
          ∷ rank_after mode w (i + 1) row (if b then place else i + 1) rows
  unfolding rank_after
  rank_after-shares b i previous place row rows e =
      ap
        (λ c.
          ranked_of (if c then place else i + 1) row
          ∷ rank_after mode w (i + 1) row (if c then place else i + 1) rows)
        e

  rank_after-Placed :
      (i : ℕ) (previous : Standing) (place : ℕ) (rows : List Standing)
      → place ≤ i
      → All
          (Placed i place (rank_after mode w i previous place rows))
          (rank_after mode w i previous place rows)
  unfolding rank_after
  rank_after-Placed i previous place [] h = tt
  rank_after-Placed i previous place (row ∷ rows) h =
      elim (Bool-cases (shares mode w previous row)) [
        | inl e ↦
            let rs = rank_after mode w (i + 1) row place rows in
            subst (λ xs. All (Placed i place xs) xs)
              (sym (rank_after-shares true i previous place row rows e))
              (
                inl refl,
                All-imp rs (λ r k. Placed-same i place (ranked_of place row) rs r h refl k)
                    (rank_after-Placed (i + 1) row place rows (omega (arith, h))),
              )
        | inr e ↦
            let rs = rank_after mode w (i + 1) row (i + 1) rows in
            let low = rank_after-low (i + 1) row (i + 1) rows (omega arith) in
            let x = ranked_of (i + 1) row in
            subst (λ xs. All (Placed i place xs) xs)
              (sym (rank_after-shares false i previous place row rows e))
              (
                Placed-next i place x rs x refl low (inl refl),
                All-imp rs (λ r k. Placed-next i place x rs r refl low k)
                    (rank_after-Placed (i + 1) row (i + 1) rows (omega arith)),
              )
      ]

  place_of-Placed :
      (x : RankedStanding) (rs : List RankedStanding) (r : RankedStanding)
      → x.place ≡ 1
      → All (λ s. 1 ≤ s.place) rs
      → Placed 1 1 rs r
      → suc (ahead_of r.place (x ∷ rs)) ≡ r.place
  place_of-Placed x rs r e a (inl p) = omega (
    arith,
    p,
    ahead_of-none r.place (x ∷ rs) (omega (arith, p, e), All-imp rs (λ s k. omega (arith, p, k)) a),
  )
  place_of-Placed x rs r e a (inr (p, q)) = ground (arith, e, p, q)

  rank-places :
      (rows : List Standing)
      → All (λ r. suc (ahead_of r.place (rank mode w rows)) ≡ r.place) (rank mode w rows)
  unfolding rank
  rank-places [] = tt
  rank-places (row ∷ rows) =
      let x = ranked_of 1 row in
      let rs = rank_after mode w 1 row 1 rows in
      let low = rank_after-low 1 row 1 rows (omega arith) in
      (
        place_of-Placed x rs x refl low (inl refl),
        All-imp rs (λ r k. place_of-Placed x rs r refl low k)
            (rank_after-Placed 1 row 1 rows (omega arith)),
      )

compute_race_result-ranked :
    (parse_date : String → Option ℕ) (report : RaceReport)
    → (compute_race_result parse_date report).ranked
      ≡ rank report.mode (named_winner report) (rows_of report)
unfolding compute_race_result
compute_race_result-ranked parse_date report = elim (Bool-cases (is_solo report.mode)) [
  | inl e ↦ rw e refl
  | inr e ↦ rw e refl
]

-- In the result of any report, the place of a team is one more than the number of teams with an
-- earlier place. The rows, in the order of rows_of, are ranked one by one, and a row has the place of
-- the one before it exactly when the two are tied: both show their coins, neither is the winner that
-- the report names outside a coin rush, and their scores are the same.
pub compute_race_result-places :
    (parse_date : String → Option ℕ) (report : RaceReport)
    → All
        (λ r. suc (ahead_of r.place (compute_race_result parse_date report).ranked) ≡ r.place)
        (compute_race_result parse_date report).ranked
      × Shared report.mode
          (named_winner report)
          (rows_of report)
          (compute_race_result parse_date report).ranked
compute_race_result-places parse_date report =
    subst
      (λ rs.
        All (λ r. suc (ahead_of r.place rs) ≡ r.place) rs
        × Shared report.mode (named_winner report) (rows_of report) rs)
      (sym (compute_race_result-ranked parse_date report))
      (
        rank-places report.mode (named_winner report) (rows_of report),
        rank-Shared report.mode (named_winner report) (rows_of report),
      )
