-- ===== src/Race/Accessibility/Roads.antt =====
-- What an entry of the accessibility result says of its road or waypoint.
use mathlib.Core.List.{Memᴰ}
use runway_the_game.Prelude.{
  String, ◌==◌, eq_iff, Bool, Bool-cases, true, false, ◌&&◌, ◌||◌, ◌≡◌, refl, ap, ◌⊎◌, ◌↔◌, inl,
  inr, Option, none, some, List, [], ◌∷◌, ◌++◌, includes, includes-append, Dict, lookup, insert,
  lookup-insert, any, filter, arith,
}
use runway_the_game.Projection.{Waypoint, Road, GameState, present, some_true}
use runway_the_game.Race.Accessibility.{
  RoadAccessibility, WaypointAccessibility, record_all, road_access, road_open, waypoint_access,
  is_none, is_roadblocked, is_traversed, gate_open, cleared_of, unlocked_of, start_of, current_of,
  progress_of, keys_where, result_of, access_of, compute_race_accessibility,
}

-- Why a road may be open: it is not blocked, and it was walked already or its gate is open and it
-- touches ground that the team may leave from.
pub record MayTake (g : GameState) (active : Option String) (unlocked : List String) (s : Road)
    : Type 0 where
  pub unblocked : is_roadblocked g active s ≡ false
  pub reason :
      (is_traversed g active s ≡ true)
      ⊎ ((gate_open s ≡ true)
          × ((includes s.waypoint_a unlocked || includes s.waypoint_b unlocked) ≡ true))

road_access-MayTake :
    (g : GameState) (active : Option String) (cleared_ids unlocked : List String) (s : Road)
    → ((id : String) → includes id cleared_ids ≡ true → includes id unlocked ≡ true)
    → ((road_access g active cleared_ids unlocked s).is_accessible ≡ true)
      ↔ MayTake g active unlocked s
unfolding road_access
road_access-MayTake g active cleared_ids unlocked s within =
    ground (arith, within s.waypoint_a, within s.waypoint_b)

-- Why a waypoint may be open: the team stands there, it is cleared, it is the start of a preview, or
-- an open road of the board touches it.
pub data MayReach (g : GameState) (active : Option String) (cleared_ids : List String)
    (current_id : String) (roads : Dict RoadAccessibility) (v : Waypoint) : Type 0 where
  standing : current_id ≡ v.id → MayReach g active cleared_ids current_id roads v
  is_cleared : includes v.id cleared_ids ≡ true → MayReach g active cleared_ids current_id roads v
  preview_start :
      v.is_start ≡ true → active ≡ none → MayReach g active cleared_ids current_id roads v
  by_road :
      (s : Road)
      → Memᴰ s g.roads
      → (s.waypoint_a ≡ v.id) ⊎ (s.waypoint_b ≡ v.id)
      → road_open roads s.id ≡ true
      → MayReach g active cleared_ids current_id roads v

none_of : (o : Option String) → is_none o ≡ true → o ≡ none
none_of none h = refl
none_of (some a) h = cc

any-filter_to :
    (p q : Road → Bool) (xs : List Road)
    → any p (filter q xs) ≡ true
    → (x : Road) × Memᴰ x xs × (q x ≡ true) × (p x ≡ true)
any-filter_to p q [] h = cc
any-filter_to p q (y ∷ ys) h = elim (Bool-cases (q y && p y)) [
  | inl e ↦ (y, Memᴰ.head refl, ground arith, ground arith)
  | inr e ↦ let (x, m, k, l) = any-filter_to p q ys (ground arith) in (x, Memᴰ.tail m, k, l)
]

any-filter_from :
    (p q : Road → Bool) (xs : List Road) (x : Road)
    → Memᴰ x xs
    → q x ≡ true
    → p x ≡ true
    → any p (filter q xs) ≡ true
any-filter_from p q [] x m h k = elim m [ ]
any-filter_from p q (y ∷ ys) x (Memᴰ.head e) h k = ground (arith, ap q e, ap p e)
any-filter_from p q (y ∷ ys) x (Memᴰ.tail m) h k = ground (arith, any-filter_from p q ys x m h k)

waypoint_to :
    (g : GameState) (active : Option String) (cleared_ids : List String) (current_id : String)
    (roads : Dict RoadAccessibility) (v : Waypoint)
    → (waypoint_access g active cleared_ids current_id roads v).is_accessible ≡ true
    → MayReach g active cleared_ids current_id roads v
unfolding waypoint_access
waypoint_to g active cleared_ids current_id roads v h =
    elim (Bool-cases (includes v.id cleared_ids)) [
      | inl e ↦ is_cleared e
      | inr e ↦ elim (Bool-cases (current_id == v.id)) [
        | inl e' ↦ standing ((eq_iff current_id v.id).0 e')
        | inr e' ↦ elim (Bool-cases (v.is_start && is_none active)) [
          | inl e'' ↦ preview_start (ground arith) (none_of active (ground arith))
          | inr e'' ↦
              let (s, m, t, o) =
                any-filter_to (λ s. road_open roads s.id)
                  (λ s. s.waypoint_a == v.id || s.waypoint_b == v.id) g.roads (ground arith) in
              by_road s m (ground (arith, eq_iff s.waypoint_a v.id, eq_iff s.waypoint_b v.id)) o
        ]
      ]
    ]

waypoint_from :
    (g : GameState) (active : Option String) (cleared_ids : List String) (current_id : String)
    (roads : Dict RoadAccessibility) (v : Waypoint)
    → MayReach g active cleared_ids current_id roads v
    → (waypoint_access g active cleared_ids current_id roads v).is_accessible ≡ true
unfolding waypoint_access
waypoint_from g active cleared_ids current_id roads v (standing e) =
    ground (arith, eq_iff current_id v.id)
waypoint_from g active cleared_ids current_id roads v (is_cleared e) = ground arith
waypoint_from g active cleared_ids current_id roads v (preview_start e n) = ground arith
waypoint_from g active cleared_ids current_id roads v (by_road s m t o) = ground (
  arith,
  any-filter_from (λ s. road_open roads s.id) (λ s. s.waypoint_a == v.id || s.waypoint_b == v.id)
      g.roads s m,
  eq_iff s.waypoint_a v.id,
  eq_iff s.waypoint_b v.id,
)

waypoint_access-MayReach :
    (g : GameState) (active : Option String) (cleared_ids : List String) (current_id : String)
    (roads : Dict RoadAccessibility) (v : Waypoint)
    → ((waypoint_access g active cleared_ids current_id roads v).is_accessible ≡ true)
      ↔ MayReach g active cleared_ids current_id roads v
waypoint_access-MayReach g active cleared_ids current_id roads v = (
  waypoint_to g active cleared_ids current_id roads v,
  waypoint_from g active cleared_ids current_id roads v,
)

-- Each entry of a table is the value of some element with that key.
record_all_lem :
    {A B : Type 0} (key : A → String) (f : A → B) (xs : List A) (d : Dict B) (k : String) (b : B)
    → lookup k (record_all key f xs d) ≡ some b
    → ((x : A) × Memᴰ x xs × (key x ≡ k) × (b ≡ f x)) ⊎ (lookup k d ≡ some b)
record_all_lem key f [] d k b e = inr e
record_all_lem key f (x ∷ xs) d k b e =
    elim (record_all_lem key f xs (insert (key x) (f x) d) k b e) [
      | inl (y, m, p, q) ↦ inl (y, Memᴰ.tail m, p, q)
      | inr old ↦ elim (Bool-cases (key x == k)) [
        | inl same ↦ inl (
          x,
          Memᴰ.head refl,
          (eq_iff (key x) k).0 same,
          ground (arith, lookup-insert (key x) k (f x) d),
        )
        | inr other ↦ inr (ground (arith, lookup-insert (key x) k (f x) d))
      ]
    ]

-- The waypoints that a team may leave from, on a board with these waypoints.
abbrev pub unlocked_in : GameState → Option String → List Waypoint → List String
unlocked_in g active [] = []
unlocked_in g active (w ∷ ws) = unlocked_of g active (cleared_of g active) (start_of w ws)

-- Where the team stands.
abbrev pub current_in : GameState → Option String → List Waypoint → String
current_in g active [] = ""
current_in g active (w ∷ ws) = current_of (progress_of g active) (start_of w ws)

includes_left :
    (id : String) (xs ys : List String) → includes id xs ≡ true → includes id (xs ++ ys) ≡ true
includes_left id xs ys h = ground (arith, includes-append id xs ys)

-- What is cleared may be left from.
cleared_unlocked :
    (g : GameState) (active : Option String) (cleared_ids : List String) (s : Waypoint)
    (id : String)
    → includes id cleared_ids ≡ true
    → includes id (unlocked_of g active cleared_ids s) ≡ true
unfolding unlocked_of
cleared_unlocked g active [] s id h = cc
cleared_unlocked g active (c ∷ cs) s id h = ground (
  arith,
  includes_left id cs (keys_where (λ st. some_true st.cleared_by) g.waypoint_states),
  includes_left id (cs ++ keys_where (λ st. some_true st.cleared_by) g.waypoint_states) (s.id ∷ []),
)

access_of-roads :
    (g : GameState) (active : Option String) (ws : List Waypoint) (id : String)
    (a : RoadAccessibility)
    → lookup id (access_of g active ws).roads ≡ some a
    → (s : Road) × Memᴰ s g.roads
      × (s.id ≡ id)
      × ((a.is_accessible ≡ true) ↔ MayTake g active (unlocked_in g active ws) s)
unfolding access_of result_of
access_of-roads g active [] id a e = cc
access_of-roads g active (w ∷ ws) id a e =
    let unlocked = unlocked_of g active (cleared_of g active) (start_of w ws) in
    elim (record_all_lem (λ r. r.id) (road_access g active (cleared_of g active) unlocked) g.roads
      [] id a e) [
        | inl (s, m, p, q) ↦ (
          s,
          m,
          p,
          rw q (
              road_access-MayTake g active (cleared_of g active) unlocked s
                (cleared_unlocked g active (cleared_of g active) (start_of w ws))),
        )
        | inr none_left ↦ cc
      ]

access_of-waypoints :
    (g : GameState) (active : Option String) (ws : List Waypoint) (id : String)
    (a : WaypointAccessibility)
    → lookup id (access_of g active ws).waypoints ≡ some a
    → (v : Waypoint) × Memᴰ v ws
      × (v.id ≡ id)
      × ((a.is_accessible ≡ true)
          ↔ MayReach g active
              (cleared_of g active)
              (current_in g active ws)
              (access_of g active ws).roads
              v)
unfolding access_of result_of
access_of-waypoints g active [] id a e = cc
access_of-waypoints g active (w ∷ ws) id a e =
    elim (record_all_lem (λ v. v.id) _ (w ∷ ws) [] id a e) [
      | inl (v, m, p, q) ↦ (
        v,
        m,
        p,
        rw q (
            waypoint_access-MayReach g active (cleared_of g active) _
              (access_of g active (w ∷ ws)).roads v),
      )
      | inr none_left ↦ cc
    ]

-- A road that the result lists is a road of the board, and is shown open exactly when no roadblock
-- stops the team on it and either it is traversed or its gate is open and it touches an unlocked
-- waypoint.
pub compute_race_accessibility-MayTake :
    (g : GameState) (team_id : Option String) (id : String) (a : RoadAccessibility)
    → lookup id (compute_race_accessibility g team_id).roads ≡ some a
    → (s : Road) × Memᴰ s g.roads
      × (s.id ≡ id)
      × ((a.is_accessible ≡ true)
          ↔ MayTake g (present team_id) (unlocked_in g (present team_id) g.waypoints) s)
unfolding compute_race_accessibility
compute_race_accessibility-MayTake g team_id = access_of-roads g (present team_id) g.waypoints

-- A waypoint that the result lists is a waypoint of the board, and is shown open exactly when the
-- team stands there, it is cleared, it is the start of a preview, or an open road touches it.
pub compute_race_accessibility-MayReach :
    (g : GameState) (team_id : Option String) (id : String) (a : WaypointAccessibility)
    → lookup id (compute_race_accessibility g team_id).waypoints ≡ some a
    → (v : Waypoint) × Memᴰ v g.waypoints
      × (v.id ≡ id)
      × ((a.is_accessible ≡ true)
          ↔ MayReach g
              (present team_id)
              (cleared_of g (present team_id))
              (current_in g (present team_id) g.waypoints)
              (compute_race_accessibility g team_id).roads
              v)
unfolding compute_race_accessibility
compute_race_accessibility-MayReach g team_id = access_of-waypoints g (present team_id) g.waypoints
