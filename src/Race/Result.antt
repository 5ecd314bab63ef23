-- ===== src/Race/Result.antt =====
-- frontend/src/surfaces/report/raceResult.ts: the places and the headline of a race report. The
-- reports are those of frontend/src/core/api/report.ts, with the fields that are read here.
pub mod Places
pub mod Leaders
pub mod Ties
mod Tests
use runway_the_game.Prelude.{
  ℕ, suc, ◌+◌, ◌-◌, ◌*◌, ◌/◌, String, ◌==◌, Bool, true, false, ◌&&◌, ◌||◌, not, Option, none, some,
  List, [], ◌∷◌, map, filter, any, take, length, eqb, ltb, or_default, if◌then◌else◌,
}
use runway_the_game.Projection.{GameMode, present}

pub record Standing : Type 0 where
  pub team_id : String
  pub team_name : String
  pub waypoints_reached : ℕ
  pub distance_to_finish : ℕ
  pub coins : ℕ
  pub coins_visible : Option Bool
  pub finished : Bool
  pub finish_rank : Option ℕ
  pub finish_bonus : Option ℕ

pub data ReportStatus : Type 0 where
  draft live ended : ReportStatus

pub record ReportClock : Type 0 where
  pub started_at : Option String
  pub finished_at : Option String
  pub time_penalty_seconds : ℕ

pub record RaceReport : Type 0 where
  pub mode : GameMode
  pub status : ReportStatus
  pub winner_team_id : Option String
  pub standings : List Standing
  pub clock : ReportClock

pub data ResultKind : Type 0 where
  winner tie no_finishers opened empty solo_finished solo_dnf : ResultKind

pub record RankedStanding : Type 0 where
  pub team_id : String
  pub team_name : String
  pub place : ℕ
  pub finished : Bool
  pub waypoints : ℕ
  pub coins : Option ℕ
  pub coins_visible : Bool
  pub finish_rank : ℕ
  pub finish_bonus : ℕ

pub record RaceResult : Type 0 where
  pub kind : ResultKind
  pub ranked : List RankedStanding
  pub leaders : List RankedStanding
  pub runners_up : List RankedStanding
  pub solo_seconds : Option ℕ

abbrev pub is_solo : GameMode → Bool
is_solo GameMode.solo_time_trial = true
is_solo GameMode.solo_casual = true
is_solo _ = false

abbrev pub is_rush : GameMode → Bool
is_rush GameMode.coin_rush = true
is_rush _ = false

abbrev pub is_ended : ReportStatus → Bool
is_ended ended = true
is_ended _ = false

-- `coins_visible === false`
abbrev pub is_hidden : Option Bool → Bool
is_hidden (some false) = true
is_hidden _ = false

abbrev pub same_bool : Bool → Bool → Bool
same_bool true b = b
same_bool false b = not b

pub tied_with : GameMode → Standing → Standing → Bool
tied_with mode a b =
    if is_hidden a.coins_visible || is_hidden b.coins_visible
    then false
    else if is_rush mode
    then eqb a.coins b.coins && eqb (or_default a.finish_rank 0) (or_default b.finish_rank 0)
    else same_bool a.finished b.finished
      && eqb a.distance_to_finish b.distance_to_finish
      && eqb a.coins b.coins

-- `Date.parse`, in milliseconds, is an argument; `none` stands for NaN.
pub solo_elapsed_seconds : (String → Option ℕ) → RaceReport → Option ℕ
solo_elapsed_seconds parse_date report = elim (present report.clock.finished_at) [
  | none ↦ none
  | some finished_at ↦ elim (present report.clock.started_at) [
    | none ↦ none
    | some started_at ↦ elim (parse_date finished_at) [
      | none ↦ none
      | some last ↦ elim (parse_date started_at) [
        | none ↦ none
        | some first ↦ some ((last - first + 500) / 1000 + report.clock.time_penalty_seconds)
      ]
    ]
  ]
]

-- The first row of a team, and the rows without it.
pub take_out : String → List Standing → Option (Standing × List Standing)
take_out w [] = none
take_out w (r ∷ rows) =
    let found = take_out w rows in
    if r.team_id == w
    then some (r, rows)
    else elim found [ none ↦ none | some (s, rest) ↦ some (s, r ∷ rest) ]

pub winner_first : String → List Standing → List Standing
unfolding take_out
winner_first w rows = elim (take_out w rows) [ none ↦ rows | some (r, rest) ↦ r ∷ rest ]

-- `winnerId && !coinRush`
abbrev pub named_winner : RaceReport → Option String
named_winner report = if is_rush report.mode then none else present report.winner_team_id

pub rows_of : RaceReport → List Standing
unfolding winner_first
rows_of report = elim (named_winner report) [
  | none ↦ report.standings
  | some w ↦ winner_first w report.standings
]

abbrev pub ranked_of : ℕ → Standing → RankedStanding
ranked_of place row = record {
  team_id = row.team_id;
  team_name = row.team_name;
  place = place;
  finished = row.finished;
  waypoints = row.waypoints_reached;
  coins = if is_hidden row.coins_visible then none else some row.coins;
  coins_visible = not (is_hidden row.coins_visible);
  finish_rank = or_default row.finish_rank 0;
  finish_bonus = or_default row.finish_bonus 0;
}

abbrev pub is_winner_row : Option String → Standing → Standing → Bool
is_winner_row none previous row = false
is_winner_row (some w) previous row = row.team_id == w || previous.team_id == w

pub shares : GameMode → Option String → Standing → Standing → Bool
unfolding tied_with
shares mode w previous row = not (is_winner_row w previous row) && tied_with mode previous row

-- `rows.forEach`, from the row at `i` on, with the row before it and that row's place.
pub rank_after : GameMode → Option String → ℕ → Standing → ℕ → List Standing → List RankedStanding
unfolding shares
rank_after mode w i previous place [] = []
rank_after mode w i previous place (row ∷ rows) =
    let p = if shares mode w previous row then place else i + 1 in
    ranked_of p row ∷ rank_after mode w (i + 1) row p rows

pub rank : GameMode → Option String → List Standing → List RankedStanding
unfolding rank_after
rank mode w [] = []
rank mode w (row ∷ rows) = ranked_of 1 row ∷ rank_after mode w 1 row 1 rows

abbrev pub has_place : ℕ → RankedStanding → Bool
has_place n r = eqb r.place n

abbrev pub some_winner : Option String → Bool
some_winner none = false
some_winner (some w) = true

pub anyone_finished : RaceReport → List RankedStanding → Bool
anyone_finished report ranked =
    some_winner (present report.winner_team_id)
    || (if is_rush report.mode
        then any (λ r. ltb 0 r.finish_rank) ranked
        else any (λ r. r.finished) ranked)

pub team_kind : RaceReport → List RankedStanding → List RankedStanding → ResultKind
unfolding anyone_finished
team_kind report ranked top =
    if eqb (length ranked) 0
    then empty
    else if not (is_ended report.status)
    then opened
    else if not (anyone_finished report ranked)
    then no_finishers
    else if ltb 1 (length top)
    then tie
    else winner

pub solo_kind : RaceReport → Option ℕ → ResultKind
solo_kind report seconds =
    if not (is_ended report.status)
    then opened
    else elim seconds [ none ↦ solo_dnf | some s ↦ solo_finished ]

pub compute_race_result : (String → Option ℕ) → RaceReport → RaceResult
unfolding rank rows_of solo_elapsed_seconds solo_kind team_kind
compute_race_result parse_date report =
    let ranked = rank report.mode (named_winner report) (rows_of report) in
    let top = filter (has_place 1) ranked in
    if is_solo report.mode
    then record {
      kind = solo_kind report (solo_elapsed_seconds parse_date report);
      ranked = ranked;
      leaders = take 1 top;
      runners_up = [];
      solo_seconds = solo_elapsed_seconds parse_date report;
    }
    else record {
      kind = team_kind report ranked top;
      ranked = ranked;
      leaders = top;
      runners_up = filter (λ r. has_place 2 r || has_place 3 r) ranked;
      solo_seconds = none;
    }
