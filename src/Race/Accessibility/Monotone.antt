-- ===== src/Race/Accessibility/Monotone.antt =====
-- Clearing one more waypoint never closes a road.
use text.Mathlib.TextPositions.{eq_refl}
use runway_the_game.Prelude.{
  String, eq_iff, true, ◌≡◌, ◌≢◌, refl, some, List, [], ◌∷◌, ◌++◌, includes, includes-append, Dict,
  lookup, insert, lookup-insert, arith,
}
use runway_the_game.Projection.{Waypoint, Road, TeamProgress, GameState, some_true}
use runway_the_game.Race.Accessibility.{
  RoadAccessibility, record_all, road_access, road_open, is_roadblocked, is_traversed, team_cleared,
  cleared_of, unlocked_of, start_of, keys_where, result_of, access_of, compute_race_accessibility,
}

-- The race after the team has cleared one more waypoint.
abbrev pub clear : String → TeamProgress → String → GameState → GameState
clear t p id g = record g {
  progress = insert t (record p { cleared_waypoints = p.cleared_waypoints ++ id ∷ [] }) g.progress;
}

module _ (open_in open_out : Road → RoadAccessibility)
    (keeps : (s : Road)
      → (open_in s).is_accessible ≡ true
      → (open_out s).is_accessible ≡ true) where
  record_all_mono :
      (xs : List Road) (d e : Dict RoadAccessibility)
      → ((k : String) → road_open d k ≡ true → road_open e k ≡ true)
      → (k : String) → road_open (record_all (λ s. s.id) open_in xs d) k ≡ true
      → road_open (record_all (λ s. s.id) open_out xs e) k ≡ true
  record_all_mono [] d e h k o = h k o
  record_all_mono (s ∷ xs) d e h k o =
      record_all_mono xs (insert s.id (open_in s) d) (insert s.id (open_out s) e)
        (λ j i. ground (
          arith,
          lookup-insert s.id j (open_in s) d,
          lookup-insert s.id j (open_out s) e,
          h j,
          keeps s,
        ))
        k o

module _ (g : GameState) (t : String) (p : TeamProgress) (id : String)
    (found : lookup t g.progress ≡ some p) where
  -- The team's progress afterwards.
  abbrev progressed : TeamProgress
  progressed = record p { cleared_waypoints = p.cleared_waypoints ++ id ∷ [] }

  progress_kept : lookup t (insert t progressed g.progress) ≡ some progressed
  progress_kept = ground (arith, lookup-insert t t progressed g.progress, eq_refl t)

  more_left :
      (x : String) (rest : List String)
      → includes x (p.cleared_waypoints ++ rest) ≡ true
      → includes x ((p.cleared_waypoints ++ id ∷ []) ++ rest) ≡ true
  more_left x rest h = ground (
    arith,
    includes-append x p.cleared_waypoints rest,
    includes-append x (p.cleared_waypoints ++ id ∷ []) rest,
    includes-append x p.cleared_waypoints (id ∷ []),
  )

  cleared_kept :
      (x : String)
      → includes x (cleared_of g (some t)) ≡ true
      → includes x (cleared_of (clear t p id g) (some t)) ≡ true
  unfolding cleared_of team_cleared
  cleared_kept x h = simp progress_kept (more_left x _ (simp found at h))

  unlocked_kept :
      (s : Waypoint) (x : String)
      → includes x (unlocked_of g (some t) (cleared_of g (some t)) s) ≡ true
      → includes x (unlocked_of (clear t p id g) (some t) (cleared_of (clear t p id g) (some t)) s)
        ≡ true
  unfolding unlocked_of
  unlocked_kept s x h = ground (
    arith,
    cleared_kept x,
    includes-append x (cleared_of g (some t))
        (keys_where (λ st. some_true st.cleared_by) g.waypoint_states),
    includes-append x (cleared_of (clear t p id g) (some t))
        (keys_where (λ st. some_true st.cleared_by) g.waypoint_states),
    includes-append x
        (cleared_of g (some t) ++ keys_where (λ st. some_true st.cleared_by) g.waypoint_states)
        (s.id ∷ []),
    includes-append x
        (cleared_of (clear t p id g) (some t)
          ++ keys_where (λ st. some_true st.cleared_by) g.waypoint_states)
        (s.id ∷ []),
  )

  traversed_kept : (s : Road) → is_traversed (clear t p id g) (some t) s ≡ is_traversed g (some t) s
  unfolding is_traversed
  traversed_kept s = ground (arith, progress_kept, found)

  blocked_kept :
      (s : Road) → is_roadblocked (clear t p id g) (some t) s ≡ is_roadblocked g (some t) s
  unfolding is_roadblocked
  blocked_kept s = refl

  road_kept :
      (w : Waypoint) (s : Road)
      → let before = cleared_of g (some t) in
        let after = cleared_of (clear t p id g) (some t) in
        (road_access g (some t) before (unlocked_of g (some t) before w) s).is_accessible ≡ true
        → (road_access
            (clear t p id g)
            (some t)
            after
            (unlocked_of (clear t p id g) (some t) after w)
            s).is_accessible
          ≡ true
  unfolding road_access
  road_kept w s h = ground (
    arith,
    traversed_kept s,
    blocked_kept s,
    cleared_kept s.waypoint_a,
    cleared_kept s.waypoint_b,
    unlocked_kept w s.waypoint_a,
    unlocked_kept w s.waypoint_b,
  )

  access_kept :
      (ws : List Waypoint) (k : String)
      → road_open (access_of g (some t) ws).roads k ≡ true
      → road_open (access_of (clear t p id g) (some t) ws).roads k ≡ true
  unfolding access_of result_of
  access_kept [] k o = cc
  access_kept (w ∷ ws) k o =
      record_all_mono _ _ (road_kept (start_of w ws)) g.roads [] [] (λ j i. i) k o

-- For a team with progress in the race, each road that is shown open stays open when one more
-- waypoint is cleared for it.
pub compute_race_accessibility-clear :
    (g : GameState) (t : String) (p : TeamProgress) (id k : String)
    → t ≢ ""
    → lookup t g.progress ≡ some p
    → road_open (compute_race_accessibility g (some t)).roads k ≡ true
    → road_open (compute_race_accessibility (clear t p id g) (some t)).roads k ≡ true
unfolding compute_race_accessibility
compute_race_accessibility-clear g t p id k named found o =
    ground (arith, eq_iff t "", access_kept g t p id found g.waypoints k)
