-- ===== src/Race/Result/Leaders.antt =====
-- Who leads in computeRaceResult of frontend/src/surfaces/report/raceResult.ts.
use mathlib.Core.Path.{subst}
use runway_the_game.Prelude.{
  ℕ, suc, ◌≤◌, String, ◌==◌, ◌≡◌, refl, sym, ap, ◌∙◌, inl, inr, true, false, Option, none, some,
  List, [], ◌∷◌, map, filter, any, take, length, All, ltb, eqb, length-take_le, ltb→lt, Bool-cases,
  arith, eq_iff,
}
use runway_the_game.Projection.{GameMode, present}
use runway_the_game.Race.Result.{
  Standing, RankedStanding, RaceReport, ResultKind, winner, tie, empty, no_finishers, opened,
  solo_dnf, solo_finished, ranked_of, has_place, shares, rank_after, rank, rows_of, take_out,
  winner_first, named_winner, is_solo, team_kind, solo_kind, solo_elapsed_seconds, is_rush,
  is_ended, anyone_finished, compute_race_result,
}
use runway_the_game.Race.Result.Places.{rank_after-low, rank_after-shares}

-- How many leaders each headline has.
abbrev pub Leads : ResultKind → ℕ → Type 0
Leads winner n = n ≡ 1
Leads tie n = 2 ≤ n
Leads empty n = n ≡ 0
Leads no_finishers n = 1 ≤ n
Leads opened n = Unit
Leads solo_finished n = n ≤ 1
Leads solo_dnf n = n ≤ 1

suc_not_zero : (n : ℕ) → eqb (suc n) 0 ≡ false
suc_not_zero n = ground arith

one_of : (n : ℕ) → 1 ≤ n → ltb 1 n ≡ false → n ≡ 1
one_of n h k = ground (arith, h, k)

empty-Leads : (report : RaceReport) → Leads (team_kind report [] []) 0
unfolding team_kind
empty-Leads report = refl

team_kind-Leads_some :
    (report : RaceReport) (ranked top : List RankedStanding)
    → eqb (length ranked) 0 ≡ false
    → 1 ≤ length top
    → Leads (team_kind report ranked top) (length top)
unfolding team_kind
team_kind-Leads_some report ranked top e h = elim (Bool-cases (is_ended report.status)) [
  | inr p ↦ rw (e, p) tt
  | inl p ↦ elim (Bool-cases (anyone_finished report ranked)) [
    | inr q ↦ rw (e, p, q) h
    | inl q ↦ elim (Bool-cases (ltb 1 (length top))) [
      | inl k ↦ rw (e, p, q, k) (ltb→lt 1 (length top) k)
      | inr k ↦ rw (e, p, q, k) (one_of (length top) h k)
    ]
  ]
]

rank-Leads :
    (report : RaceReport) (rows : List Standing)
    → Leads
        (team_kind report
          (rank report.mode (named_winner report) rows)
          (filter (has_place 1) (rank report.mode (named_winner report) rows)))
        (length (filter (has_place 1) (rank report.mode (named_winner report) rows)))
unfolding rank
rank-Leads report [] = empty-Leads report
rank-Leads report (row ∷ rows) =
    let ranked = ranked_of 1 row ∷ rank_after report.mode (named_winner report) 1 row 1 rows in
    team_kind-Leads_some report ranked (filter (has_place 1) ranked)
      (suc_not_zero (length (rank_after report.mode (named_winner report) 1 row 1 rows)))
      (omega arith)

solo_kind-Leads :
    (report : RaceReport) (seconds : Option ℕ) (n : ℕ) → n ≤ 1 → Leads (solo_kind report seconds) n
unfolding solo_kind
solo_kind-Leads report none n h = elim (Bool-cases (is_ended report.status)) [
  | inl p ↦ rw p h
  | inr p ↦ rw p tt
]
solo_kind-Leads report (some s) n h = elim (Bool-cases (is_ended report.status)) [
  | inl p ↦ rw p h
  | inr p ↦ rw p tt
]

-- The headline of any report fits its leaders: a winner stands alone, a tie has at least two, an
-- empty report has none, and a race nobody finished still has its best teams; a solo run that is
-- over has at most one. Of a race still open nothing is said.
pub compute_race_result-Leads :
    (parse_date : String → Option ℕ) (report : RaceReport)
    → Leads
        (compute_race_result parse_date report).kind
        (length (compute_race_result parse_date report).leaders)
unfolding compute_race_result
compute_race_result-Leads parse_date report = elim (Bool-cases (is_solo report.mode)) [
  | inl e ↦ rw e (
      solo_kind-Leads report (solo_elapsed_seconds parse_date report)
        (length
          (take 1 (filter (has_place 1) (rank report.mode (named_winner report) (rows_of report)))))
        (length-take_le 1
          (filter (has_place 1) (rank report.mode (named_winner report) (rows_of report)))))
  | inr e ↦ rw e (rank-Leads report (rows_of report))
]

not_first : (rs : List RankedStanding) → All (λ r. 2 ≤ r.place) rs → filter (has_place 1) rs ≡ []
not_first [] h = refl
not_first (r ∷ rs) h = ground (arith, h.0, not_first rs h.1)

abbrev Found : String → Option (Standing × List Standing) → Type 0
Found w none = ⊥
Found w (some (r, rest)) = r.team_id ≡ w

Found-skip :
    (w : String) (r : Standing) (o : Option (Standing × List Standing))
    → Found w o
    → Found w (elim o [ none ↦ none | some (s, rest) ↦ some (s, r ∷ rest) ])
Found-skip w r none h = h
Found-skip w r (some (s, rest)) h = h

take_out-Found :
    (w : String) (rows : List Standing)
    → any (λ s. s.team_id == w) rows ≡ true
    → Found w (take_out w rows)
unfolding take_out
take_out-Found w [] h = ground (arith, h)
take_out-Found w (r ∷ rows) h = elim (Bool-cases (r.team_id == w)) [
  | inl e ↦ rw e (ground (arith, e, eq_iff r.team_id w))
  | inr e ↦ rw e (Found-skip w r (take_out w rows) (take_out-Found w rows (ground (arith, h, e))))
]

abbrev StartsWith : String → List Standing → Type 0
StartsWith w [] = ⊥
StartsWith w (r ∷ rest) = r.team_id ≡ w

Found-StartsWith :
    (w : String) (rows : List Standing) (o : Option (Standing × List Standing))
    → Found w o
    → StartsWith w (elim o [ none ↦ rows | some (r, rest) ↦ r ∷ rest ])
Found-StartsWith w rows none h = elim h [ ]
Found-StartsWith w rows (some (r, rest)) h = h

shares_not :
    (mode : GameMode) (w : String) (r row : Standing)
    → r.team_id ≡ w
    → shares mode (some w) r row ≡ false
unfolding shares
shares_not mode w r row e = ground (arith, e, eq_iff r.team_id w)

-- The row after the winner's starts a place of its own.
after_winner :
    (mode : GameMode) (w : String) (r : Standing) (rows : List Standing)
    → r.team_id ≡ w
    → All (λ x. 2 ≤ x.place) (rank_after mode (some w) 1 r 1 rows)
unfolding rank_after
after_winner mode w r [] e = tt
after_winner mode w r (row ∷ rows) e =
    subst (λ xs. All (λ x. 2 ≤ x.place) xs)
      (sym (rank_after-shares mode (some w) false 1 r 1 row rows (shares_not mode w r row e)))
      (omega arith, rank_after-low mode (some w) 2 row 2 rows (omega arith))

rank-first :
    (mode : GameMode) (w : String) (rows : List Standing)
    → StartsWith w rows
    → map (λ r. r.team_id) (filter (has_place 1) (rank mode (some w) rows)) ≡ w ∷ []
unfolding rank
rank-first mode w [] h = elim h [ ]
rank-first mode w (r ∷ rows) h =
    rw (not_first (rank_after mode (some w) 1 r 1 rows) (after_winner mode w r rows h), h) refl

take_single :
    (w : String) (top : List RankedStanding)
    → map (λ r. r.team_id) top ≡ w ∷ []
    → map (λ r. r.team_id) (take 1 top) ≡ w ∷ []
take_single w [] h = h
take_single w (r ∷ rs) h = ap (take 1) h

named_winner-of_present :
    (report : RaceReport) (w : String)
    → is_rush report.mode ≡ false
    → present report.winner_team_id ≡ some w
    → named_winner report ≡ some w
named_winner-of_present report w e p = rw e p

rows_of-StartsWith :
    (report : RaceReport) (w : String)
    → named_winner report ≡ some w
    → any (λ s. s.team_id == w) report.standings ≡ true
    → StartsWith w (rows_of report)
unfolding rows_of winner_first
rows_of-StartsWith report w e h =
    subst (StartsWith w)
      (sym
        (ap (λ o. elim o [ none ↦ report.standings | some v ↦ winner_first v report.standings ]) e))
      (Found-StartsWith w report.standings (take_out w report.standings)
        (take_out-Found w report.standings h))

top-first :
    (report : RaceReport) (w : String)
    → named_winner report ≡ some w
    → any (λ s. s.team_id == w) report.standings ≡ true
    → map
        (λ r. r.team_id)
        (filter (has_place 1) (rank report.mode (named_winner report) (rows_of report)))
      ≡ w ∷ []
top-first report w e h =
    ap (λ o. map (λ r. r.team_id) (filter (has_place 1) (rank report.mode o (rows_of report)))) e
    ∙ rank-first report.mode w (rows_of report) (rows_of-StartsWith report w e h)

-- Outside a coin rush, when the report names a winner that is in its standings, that team alone
-- leads, wherever its row stands and whatever its scores tie with.
pub compute_race_result-winner :
    (parse_date : String → Option ℕ) (report : RaceReport) (w : String)
    → is_rush report.mode ≡ false
    → present report.winner_team_id ≡ some w
    → any (λ s. s.team_id == w) report.standings ≡ true
    → map (λ r. r.team_id) (compute_race_result parse_date report).leaders ≡ w ∷ []
unfolding compute_race_result
compute_race_result-winner parse_date report w m p h = elim (Bool-cases (is_solo report.mode)) [
  | inl e ↦ rw e (
      take_single w (filter (has_place 1) (rank report.mode (named_winner report) (rows_of report)))
        (top-first report w (named_winner-of_present report w m p) h))
  | inr e ↦ rw e (top-first report w (named_winner-of_present report w m p) h)
]
