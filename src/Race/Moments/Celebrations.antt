-- ===== src/Race/Moments/Celebrations.antt =====
-- What a team may celebrate: the candidates of diffMoments in frontend/src/core/game/raceMoments.ts.
use runway_the_game.Prelude.{
  String, ◌==◌, Bool, true, ◌&&◌, ◌||◌, not, Option, none, some, List, [], ◌++◌, find, filter_map,
  includes, lookup, values, truthy, if◌then◌else◌,
}
use runway_the_game.Projection.{Road, TeamProgress, SubmissionInfo, GameState}
use runway_the_game.Race.Moments.{
  won, finished, cleared, arrived, CelebrationMoment, is_text, bypassed_at, own_clears, gated,
  text_after, celebrate, only_if, coins_gained,
}

module _ (prev next : GameState) (t : String) where
  unfoldable pub won_moment : List CelebrationMoment
  won_moment =
      only_if (is_text next.winner t && not (is_text prev.winner t))
        (celebrate won (text_after "won:" t) none none (coins_gained prev next t))

  unfoldable pub finished_moment : TeamProgress → TeamProgress → List CelebrationMoment
  finished_moment before after = only_if (after.reached_finish && not before.reached_finish) (
      celebrate finished (text_after "finished:" t) (some after.current_waypoint_id) none
        (coins_gained prev next t))

  unfoldable pub arrived_moment : TeamProgress → TeamProgress → List CelebrationMoment
  arrived_moment before after =
      only_if
        (truthy after.current_waypoint_id
          && not (after.current_waypoint_id == before.current_waypoint_id)
          && not after.reached_finish)
        (celebrate arrived (text_after "arrived:" after.current_waypoint_id)
          (some after.current_waypoint_id) none (coins_gained prev next t))

  unfoldable pub clear_moment : String → Option CelebrationMoment
  unfolding own_clears
  clear_moment id =
      if includes id (own_clears prev t) || not (gated next id) || bypassed_at next id t
      then none
      else some
          (celebrate cleared (text_after "cleared:" id) (some id) none (coins_gained prev next t))

  unfoldable pub passed_before : SubmissionInfo → Bool
  passed_before sub = elim (lookup sub.submission_id prev.submissions) [
    | none ↦ true
    | some was ↦ was.status == "pass"
  ]

  unfoldable pub submission_moment : SubmissionInfo → Option CelebrationMoment
  unfolding passed_before
  submission_moment sub =
      if not (sub.team_id == t) || not (sub.status == "pass") || passed_before sub
      then none
      else if truthy sub.road_id
      then some (
          celebrate cleared (text_after "cleared:road:" sub.road_id) none (some sub.road_id)
            (coins_gained prev next t))
      else some (
          celebrate cleared (text_after "cleared:" sub.waypoint_id) (some sub.waypoint_id) none
            (coins_gained prev next t))

  unfoldable pub completed_before : Road → Bool
  completed_before road = elim (find (λ r. r.id == road.id) prev.roads) [
    | none ↦ true
    | some was ↦ is_text was.completed_by t
  ]

  unfoldable pub road_moment : Road → Option CelebrationMoment
  unfolding completed_before
  road_moment road =
      if not (truthy road.challenge_id)
        || not (is_text road.completed_by t)
        || completed_before road
      then none
      else some (
          celebrate cleared (text_after "cleared:road:" road.id) none (some road.id)
            (coins_gained prev next t))

  unfoldable pub candidates_of : TeamProgress → TeamProgress → List CelebrationMoment
  unfolding won_moment finished_moment arrived_moment clear_moment submission_moment road_moment
      own_clears
  candidates_of before after =
      won_moment
      ++ (finished_moment before after
          ++ (arrived_moment before after
              ++ (filter_map clear_moment (own_clears next t)
                  ++ (filter_map submission_moment (values next.submissions)
                      ++ filter_map road_moment next.roads))))

  -- `if (before && after)`
  unfoldable pub candidates : List CelebrationMoment
  unfolding candidates_of
  candidates = elim (lookup t prev.progress) [
    | none ↦ []
    | some before ↦ elim (lookup t next.progress) [
      | none ↦ []
      | some after ↦ candidates_of before after
    ]
  ]
