-- ===== src/Race/Moments/Rivals.antt =====
-- What happened around a team: the rival events of diffMoments in
-- frontend/src/core/game/raceMoments.ts.
use runway_the_game.Prelude.{
  String, ◌==◌, Bool, true, false, ◌||◌, not, Option, none, some, List, [], ◌∷◌, ◌++◌, filter_map,
  includes, lookup, truthy, if◌then◌else◌,
}
use runway_the_game.Projection.{GameMode, TeamProgress, GameState, present}
use runway_the_game.Race.Moments.{
  nerfed, rival_finished, rival_won, countdown_started, rival_opened, RivalEvent, is_text,
  cleared_at, bypassed_at, opened_by, gated, text_after, only_if,
}

module _ (prev next : GameState) (t : String) where
  frozen_until_of : GameState → Option String
  frozen_until_of g = elim (lookup t g.effects) [ none ↦ none | some e ↦ present e.frozen_until ]

  nerfed_event : List RivalEvent
  unfolding frozen_until_of
  nerfed_event = elim (frozen_until_of next) [
    | none ↦ []
    | some until ↦ only_if (not (is_text (frozen_until_of prev) until)) (record {
      key = text_after "nerfed:" until;
      kind = nerfed;
      team_id = none;
      waypoint_id = none;
      seconds = none;
    })
  ]

  opened_event : List String → String → Option RivalEvent
  unfolding opened_by
  opened_event before id =
      if includes id before || not (gated next id) || cleared_at next id t || bypassed_at next id t
      then none
      else elim (opened_by next id t) [
        | none ↦ none
        | some rival ↦
            if truthy rival
            then some (record {
              key = text_after "rival-opened:" id;
              kind = rival_opened;
              team_id = some rival;
              waypoint_id = some id;
              seconds = none;
            })
            else none
      ]

  opened_events : List RivalEvent
  unfolding opened_event
  opened_events = elim (lookup t prev.progress) [
    | none ↦ []
    | some before ↦ elim (lookup t next.progress) [
      | none ↦ []
      | some after ↦ filter_map (opened_event before.cleared_waypoints) after.cleared_waypoints
    ]
  ]

  rival_winner : Option String
  rival_winner = elim (present next.winner) [
    | none ↦ none
    | some w ↦ if w == t || is_text prev.winner w then none else some w
  ]

  abbrev is_team_mode : GameMode → Bool
  is_team_mode GameMode.team = true
  is_team_mode _ = false

  rival_won_event : List RivalEvent
  unfolding rival_winner
  rival_won_event = elim rival_winner [
    | none ↦ []
    | some w ↦ only_if (is_team_mode next.mode) (record {
      key = text_after "rival-won:" w;
      kind = rival_won;
      team_id = some w;
      waypoint_id = none;
      seconds = none;
    })
  ]

  finished_before : String → Bool
  finished_before id = elim (lookup id prev.progress) [ none ↦ false | some p ↦ p.reached_finish ]

  rival_finished_event : String × TeamProgress → Option RivalEvent
  unfolding rival_winner finished_before
  rival_finished_event (id, progress) =
      if id == t || is_text rival_winner id || not progress.reached_finish || finished_before id
      then none
      else some (record {
        key = text_after "rival-finished:" id;
        kind = rival_finished;
        team_id = some id;
        waypoint_id = none;
        seconds = none;
      })

  deadline_of : GameState → Option String
  deadline_of g = elim g.coin_rush [ none ↦ none | some c ↦ present c.deadline ]

  countdown_event : List RivalEvent
  unfolding deadline_of
  countdown_event = elim (deadline_of next) [
    | none ↦ []
    | some deadline ↦ elim (deadline_of prev) [
      | some _ ↦ []
      | none ↦
          record {
            key = text_after "countdown:" deadline;
            kind = countdown_started;
            team_id = none;
            waypoint_id = none;
            seconds = some next.rules.coin_rush_countdown_seconds;
          }
          ∷ []
    ]
  ]

  unfoldable pub rival_events : List RivalEvent
  unfolding nerfed_event opened_events rival_won_event rival_finished_event countdown_event
  rival_events =
      nerfed_event
      ++ (opened_events
          ++ (rival_won_event
              ++ (filter_map rival_finished_event next.progress ++ countdown_event)))
