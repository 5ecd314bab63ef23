-- ===== src/Race/Result/Tests.antt =====
-- computeRaceResult on concrete reports.
use runway_the_game.Prelude.{
  ℕ, suc, String, ◌≡◌, refl, true, none, some, [], ◌∷◌, map, length, All, Option,
}
use runway_the_game.Projection.{GameMode}
use runway_the_game.Race.Result.{
  Standing, RaceReport, ReportStatus, ResultKind, compute_race_result, rank, rank_after, rows_of,
  named_winner, winner_first, take_out, tied_with, shares, team_kind, anyone_finished,
}
use runway_the_game.Race.Result.Places
use runway_the_game.Race.Result.Ties
use runway_the_game.Race.Result.Leaders

abbrev row : String → ℕ → Standing
row id coins = record {
  team_id = id;
  team_name = id;
  waypoints_reached = 3;
  distance_to_finish = 0;
  coins = coins;
  coins_visible = none;
  finished = true;
  finish_rank = none;
  finish_bonus = none;
}

abbrev race : RaceReport
race = record {
  mode = GameMode.team;
  status = ReportStatus.ended;
  winner_team_id = some "blue";
  standings = row "red" 5 ∷ row "green" 5 ∷ row "blue" 5 ∷ row "gold" 1 ∷ [];
  clock = record { started_at = none; finished_at = none; time_penalty_seconds = 0 };
}

abbrev no_date : String → Option ℕ
no_date s = none

places : map (λ r. r.place) (compute_race_result no_date race).ranked ≡ 1 ∷ 2 ∷ 2 ∷ 4 ∷ []
unfolding compute_race_result rank rank_after rows_of winner_first take_out tied_with shares
places = refl

kind_won : (compute_race_result no_date race).kind ≡ ResultKind.winner
unfolding compute_race_result rank rank_after rows_of winner_first take_out tied_with shares
    team_kind anyone_finished
kind_won = refl

compute_race_result-places_example :
    All
      (λ r. suc (Places.ahead_of r.place (compute_race_result no_date race).ranked) ≡ r.place)
      (compute_race_result no_date race).ranked
    × Ties.Shared race.mode
        (named_winner race)
        (rows_of race)
        (compute_race_result no_date race).ranked
compute_race_result-places_example = Places.compute_race_result-places no_date race

compute_race_result-Leads_example :
    Leaders.Leads
      (compute_race_result no_date race).kind
      (length (compute_race_result no_date race).leaders)
compute_race_result-Leads_example = Leaders.compute_race_result-Leads no_date race

compute_race_result-winner_example :
    map (λ r. r.team_id) (compute_race_result no_date race).leaders ≡ "blue" ∷ []
compute_race_result-winner_example =
    Leaders.compute_race_result-winner no_date race "blue" refl refl refl
