-- ===== src/Race/Result/Ties.antt =====
-- The teams that share a place in frontend/src/surfaces/report/raceResult.ts.
use runway_the_game.Prelude.{
  ℕ, ◌+◌, ◌≤◌, String, ◌==◌, ◌≡◌, ◌≢◌, refl, sym, ap, inl, inr, ◌↔◌, Bool, true, false, not, ◌&&◌,
  ◌||◌, Option, none, some, List, [], ◌∷◌, or_default, eqb, arith, eq_iff, Bool-cases,
  if◌then◌else◌,
}
use runway_the_game.Projection.{GameMode}
use runway_the_game.Race.Result.{
  Standing, RankedStanding, is_rush, is_hidden, same_bool, is_winner_row, tied_with, shares,
  rank_after, rank,
}

-- The scores that the server sorts by are the same: in a coin rush, the coins and the rank at the
-- finish, where no rank is 0; else whether the team finished, its distance to the finish and its coins.
abbrev pub SameScores : Bool → Standing → Standing → Type 0
SameScores true a b =
    (a.coins ≡ b.coins) × (or_default a.finish_rank 0 ≡ or_default b.finish_rank 0)
SameScores false a b =
    (a.finished ≡ b.finished) × (a.distance_to_finish ≡ b.distance_to_finish) × (a.coins ≡ b.coins)

-- Both teams show their coins, neither is the named winner, and their scores are the same.
abbrev pub Tied : GameMode → Option String → Standing → Standing → Type 0
Tied mode w a b =
    (a.coins_visible ≢ some false)
    × (b.coins_visible ≢ some false)
    × (w ≢ some a.team_id)
    × (w ≢ some b.team_id)
    × SameScores (is_rush mode) a b

-- Each row is ranked, in order; it has the place of the row before it exactly when the two are tied.
abbrev pub SharedAfter :
    GameMode → Option String → Standing → ℕ → List Standing → List RankedStanding → Type 0
SharedAfter mode w previous place [] [] = Unit
SharedAfter mode w previous place (row ∷ rows) (r ∷ rs) =
    (r.team_id ≡ row.team_id)
    × ((r.place ≡ place) ↔ Tied mode w previous row)
    × SharedAfter mode w row r.place rows rs
SharedAfter mode w previous place _ _ = ⊥

abbrev pub Shared : GameMode → Option String → List Standing → List RankedStanding → Type 0
Shared mode w [] [] = Unit
Shared mode w (row ∷ rows) (r ∷ rs) =
    (r.team_id ≡ row.team_id) × SharedAfter mode w row r.place rows rs
Shared mode w _ _ = ⊥

hidden_iff : (v : Option Bool) → (is_hidden v ≡ false) ↔ (v ≢ some false)
hidden_iff none = ((λ e p. ground (arith, p)), (λ h. refl))
hidden_iff (some true) = ((λ e p. ground (arith, p)), (λ h. refl))
hidden_iff (some false) = ((λ e p. ground (arith, e)), (λ h. absurd (h refl)))

same_bool_iff : (a b : Bool) → (same_bool a b ≡ true) ↔ (a ≡ b)
same_bool_iff true b = ground arith
same_bool_iff false b = ground arith

scores_iff :
    (rush : Bool) (a b : Standing)
    → ((if rush
          then eqb a.coins b.coins && eqb (or_default a.finish_rank 0) (or_default b.finish_rank 0)
          else same_bool a.finished b.finished
            && eqb a.distance_to_finish b.distance_to_finish
            && eqb a.coins b.coins)
        ≡ true)
      ↔ SameScores rush a b
scores_iff true a b = ground arith
scores_iff false a b = ground (arith, same_bool_iff a.finished b.finished)

not_named : (w : String) (a : Standing) → (a.team_id == w ≡ false) ↔ (some w ≢ some a.team_id)
not_named w a = (
  (λ e p. ground (arith, e, eq_iff a.team_id w, ap (λ o. or_default o "") p)),
  (λ h. elim (Bool-cases (a.team_id == w)) [
    | inl e ↦ absurd (h (ap (λ s. some s) (sym ((eq_iff a.team_id w).0 e))))
    | inr e ↦ e
  ]),
)

winner_iff :
    (w : Option String) (a b : Standing)
    → (is_winner_row w a b ≡ false) ↔ ((w ≢ some a.team_id) × (w ≢ some b.team_id))
winner_iff none a b = ((λ e. ((λ p. ground (arith, p)), (λ p. ground (arith, p)))), (λ h. refl))
winner_iff (some w) a b =
    let first = not_named w a in
    let second = not_named w b in
    (
      (λ e. (first.0 (ground (arith, e)), second.0 (ground (arith, e)))),
      (λ h. (let p = first.1 h.0 in let q = second.1 h.1 in ground (arith, p, q))),
    )

shares_shape :
    (n h k s : Bool)
    → (not n && (if h || k then false else s) ≡ true)
      ↔ ((n ≡ false) × (h ≡ false) × (k ≡ false) × (s ≡ true))
shares_shape n h k s = ground arith

pub shares_iff :
    (mode : GameMode) (w : Option String) (a b : Standing)
    → (shares mode w a b ≡ true) ↔ Tied mode w a b
unfolding shares tied_with
shares_iff mode w a b =
    let seen_a = hidden_iff a.coins_visible in
    let seen_b = hidden_iff b.coins_visible in
    let others = winner_iff w a b in
    let scores = scores_iff (is_rush mode) a b in
    let shape =
      shares_shape (is_winner_row w a b) (is_hidden a.coins_visible) (is_hidden b.coins_visible)
        _ in
    (
      (λ e.
          (let s = shape.0 e in
            let o = others.0 s.0 in (seen_a.0 s.1, seen_b.0 s.2, o.0, o.1, scores.0 s.3))),
      (λ t. shape.1 (others.1 (t.2, t.3), seen_a.1 t.0, seen_b.1 t.1, scores.1 t.4)),
    )

-- The place of the row is that of the one before exactly when the code says that they share it.
place_iff :
    (mode : GameMode) (w : Option String) (a b : Standing) (place i : ℕ)
    → place ≤ i
    → ((if shares mode w a b then place else i + 1) ≡ place) ↔ Tied mode w a b
place_iff mode w a b place i h = elim (Bool-cases (shares mode w a b)) [
  | inl e ↦ rw e ((λ p. (shares_iff mode w a b).0 e), (λ t. refl))
  | inr e ↦ rw e (
    (λ p. ground (arith, h, p)),
    (λ t. (let f = (shares_iff mode w a b).1 t in ground (arith, e, f))),
  )
]

bounded : (b : Bool) (place i : ℕ) → place ≤ i → (if b then place else i + 1) ≤ i + 1
bounded b place i h = ground (arith, h)

rank_after-SharedAfter :
    (mode : GameMode) (w : Option String) (i : ℕ) (previous : Standing) (place : ℕ)
    (rows : List Standing)
    → place ≤ i
    → SharedAfter mode w previous place rows (rank_after mode w i previous place rows)
unfolding rank_after
rank_after-SharedAfter mode w i previous place [] h = tt
rank_after-SharedAfter mode w i previous place (row ∷ rows) h = (
  refl,
  place_iff mode w previous row place i h,
  rank_after-SharedAfter mode w (i + 1) row (if shares mode w previous row then place else i + 1)
      rows (bounded (shares mode w previous row) place i h),
)

pub rank-Shared :
    (mode : GameMode) (w : Option String) (rows : List Standing)
    → Shared mode w rows (rank mode w rows)
unfolding rank
rank-Shared mode w [] = tt
rank-Shared mode w (row ∷ rows) = (refl, rank_after-SharedAfter mode w 1 row 1 rows (omega arith))
