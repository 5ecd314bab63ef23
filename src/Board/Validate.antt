-- ===== src/Board/Validate.antt =====
-- validateBoard of frontend/src/core/editor/geometryUtils.ts. A problem is one constructor for each
-- error that the source pushes, with what its id, its message and its waypoint ids are made of.
pub mod Playable
mod Tests
use runway_the_game.Prelude.{
  ℕ, suc, ◌+◌, String, Bool, true, false, ◌&&◌, ◌||◌, not, Option, none, some, List, [], ◌∷◌, ◌++◌,
  length, filter, any, all, Dict, lookup, insert, ltb, eqb, truthy, blank, if◌then◌else◌,
}
use runway_the_game.Board.{WaypointDraft, RoadDraft, ChallengeDraft}
use runway_the_game.Board.Crossing.{Point, roads_intersect}
use runway_the_game.Board.Route.{
  is_some, neighbors, adj_map, degree, starts, RouteOrderResult, compute_route_order,
}

-- The fields of a BoardDraft that the validation reads.
pub record BoardDraft : Type 0 where
  pub waypoints : List WaypointDraft
  pub roads : List RoadDraft
  pub challenges : Dict ChallengeDraft

pub data Problem : Type 0 where
  no_waypoints : Problem
  start_count finish_count : ℕ → Problem
  start_is_finish : WaypointDraft → Problem
  intersect : ℕ → ℕ → RoadDraft → RoadDraft → Problem
  isolated : WaypointDraft → Problem
  finish_unreachable : WaypointDraft → WaypointDraft → Problem
  unreachable : WaypointDraft → Problem
  no_challenges : Problem
  finish_has_challenge : WaypointDraft → Problem
  challenge_missing : WaypointDraft → Problem
  empty_prompt : WaypointDraft → Problem
  coin_range veto_range : WaypointDraft → ℕ → Problem

-- `type === 'warning'`
abbrev pub is_warning : Problem → Bool
is_warning (intersect _ _ _ _) = true
is_warning no_challenges = true
is_warning (challenge_missing _) = true
is_warning _ = false

abbrev pub finishes : List WaypointDraft → List WaypointDraft
finishes ws = filter (λ w. w.is_finish) ws

-- One problem for each waypoint that fails a test.
abbrev pub flag :
    (WaypointDraft → Bool) → (WaypointDraft → Problem) → List WaypointDraft → List Problem
flag bad p [] = []
flag bad p (w ∷ ws) = let rest = flag bad p ws in if bad w then p w ∷ rest else rest

abbrev flag_if : Bool → Problem → List Problem
flag_if b p = if b then p ∷ [] else []

-- `board.challenges[w.id] || w.challenge`
abbrev pub challenge_of : Dict ChallengeDraft → WaypointDraft → Option ChallengeDraft
challenge_of challenges w = elim (lookup w.id challenges) [ some c ↦ some c | none ↦ w.challenge ]

abbrev pub road_has_challenge : RoadDraft → Bool
road_has_challenge r =
    is_some r.challenge || elim r.challenge_id [ none ↦ false | some c ↦ truthy c ]

pub board_has_challenges : BoardDraft → Bool
board_has_challenges b =
    any (λ w. not w.is_finish && is_some (challenge_of b.challenges w)) b.waypoints
    || any road_has_challenge b.roads

abbrev pub out_of : ℕ → ℕ → Option ℕ → Bool
out_of lo hi none = false
out_of lo hi (some n) = ltb n lo || ltb hi n

abbrev pub amount : Option ℕ → ℕ
amount none = 0
amount (some n) = n

check_draft : WaypointDraft → ChallengeDraft → List Problem
check_draft w c =
    flag_if (blank c.prompt) (empty_prompt w)
    ++ flag_if (out_of 5 40 c.coin_reward) (coin_range w (amount c.coin_reward))
    ++ flag_if (out_of 900 14400 c.veto_penalty_seconds)
        (veto_range w (amount c.veto_penalty_seconds))

-- `any_challenge` is `boardHasChallenges`, and `ch` the waypoint's challenge.
check_found : Bool → WaypointDraft → Option ChallengeDraft → List Problem
unfolding check_draft
check_found any_challenge w ch =
    if w.is_finish && is_some ch
    then finish_has_challenge w ∷ []
    else if w.is_start || w.is_finish
    then []
    else elim ch [ none ↦ flag_if any_challenge (challenge_missing w) | some c ↦ check_draft w c ]

check_challenge : Bool → Dict ChallengeDraft → WaypointDraft → List Problem
unfolding check_found
check_challenge any_challenge challenges w = check_found any_challenge w (challenge_of challenges w)

check_challenges : Bool → Dict ChallengeDraft → List WaypointDraft → List Problem
unfolding check_challenge
check_challenges any_challenge challenges [] = []
check_challenges any_challenge challenges (w ∷ ws) =
    check_challenge any_challenge challenges w ++ check_challenges any_challenge challenges ws

finish_unreachable_of : Dict ℕ → List WaypointDraft → List WaypointDraft → List Problem
finish_unreachable_of tiers (s ∷ []) (f ∷ []) =
    flag_if (not (is_some (lookup f.id tiers))) (finish_unreachable s f)
finish_unreachable_of tiers _ _ = []

-- toPlanar calls Math.cos, so `planar` is a parameter: the planar point of a waypoint, given all the
-- board's waypoints, whose mean latitude it uses. `name_le` is that of computeRouteOrder.
module _ (planar : List WaypointDraft → WaypointDraft → Point)
    (name_le : String → String → Bool) where
  waypoint_points : List WaypointDraft → List WaypointDraft → Dict Point → Dict Point
  waypoint_points all [] points = points
  waypoint_points all (w ∷ ws) points = waypoint_points all ws (insert w.id (planar all w) points)

  abbrev crosses : Dict Point → RoadDraft → RoadDraft → Bool
  crosses points s1 s2 = elim (lookup s1.waypoint_id_a points) [
    | none ↦ false
    | some p1 ↦ elim (lookup s1.waypoint_id_b points) [
      | none ↦ false
      | some q1 ↦ elim (lookup s2.waypoint_id_a points) [
        | none ↦ false
        | some p2 ↦ elim (lookup s2.waypoint_id_b points) [
          | none ↦ false
          | some q2 ↦ roads_intersect p1 q1 p2 q2
        ]
      ]
    ]
  ]

  -- The inner loop, from road j on.
  crossings_of : Dict Point → ℕ → RoadDraft → ℕ → List RoadDraft → List Problem
  crossings_of points i s1 j [] = []
  crossings_of points i s1 j (s2 ∷ roads) =
      flag_if (crosses points s1 s2) (intersect i j s1 s2) ++ crossings_of points i s1 (suc j) roads

  crossings : Dict Point → ℕ → List RoadDraft → List Problem
  unfolding crossings_of
  crossings points i [] = []
  crossings points i (s1 ∷ roads) =
      crossings_of points i s1 (suc i) roads ++ crossings points (suc i) roads

  problems_of : BoardDraft → RouteOrderResult → List Problem
  unfolding crossings waypoint_points finish_unreachable_of check_challenges board_has_challenges
  problems_of b order =
      flag_if (not (eqb (length (starts b.waypoints)) 1))
        (start_count (length (starts b.waypoints)))
      ++ (flag_if (not (eqb (length (finishes b.waypoints)) 1))
            (finish_count (length (finishes b.waypoints)))
          ++ (flag (λ w. w.is_start && w.is_finish) start_is_finish b.waypoints
              ++ (crossings (waypoint_points b.waypoints b.waypoints []) 0 b.roads
                  ++ (flag (λ w. eqb (degree (adj_map b.waypoints b.roads) w) 0) isolated
                        b.waypoints
                      ++ (finish_unreachable_of order.tiers (starts b.waypoints)
                            (finishes b.waypoints)
                          ++ (flag (λ _. true) unreachable order.unreachable
                              ++ (flag_if
                                    (eqb (length (starts b.waypoints)) 1
                                      && eqb (length (finishes b.waypoints)) 1
                                      && not (board_has_challenges b))
                                    no_challenges
                                  ++ check_challenges (board_has_challenges b) b.challenges
                                      b.waypoints)))))))

  -- `none` would mean that the route search ran out of fuel, which it never does.
  pub validate_board : BoardDraft → Option (List Problem)
  unfolding problems_of
  validate_board b =
      if eqb (length b.waypoints) 0
      then some (no_waypoints ∷ [])
      else elim (compute_route_order name_le b.waypoints b.roads) [
        | none ↦ none
        | some order ↦ some (problems_of b order)
      ]
