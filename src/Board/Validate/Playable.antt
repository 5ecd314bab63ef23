-- ===== src/Board/Validate/Playable.antt =====
-- validateBoard against what a playable board is.
use text.Mathlib.TextPositions.{eq_refl}
use runway_the_game.Prelude.{
  ℕ, suc, ◌≤◌, String, Bool, Bool-cases, true, false, ◌&&◌, ◌≡◌, refl, ◌∙◌, ◌↔◌, inl, inr, Option,
  none, some, List, [], ◌∷◌, ◌++◌, length, filter, all, All, includes, Dict, lookup, arith, blank,
  eqb, All-imp, All-imp₂,
}
use runway_the_game.Board.{WaypointDraft, RoadDraft, ChallengeDraft}
use runway_the_game.Board.Crossing.{Point}
use runway_the_game.Board.Route.{
  neighbors, adj_map, degree, starts, is_some, is_unreachable, compute_route_order, route_order_of,
  tier_by_waypoint,
}
use runway_the_game.Board.Route.Adjacent.{adjacent, neighbors-adj_map}
use runway_the_game.Board.Route.Walk.{Walk}
use runway_the_game.Board.Route.Distance.{tier_by_waypoint_total, tier_of_Walk, Walk-of_tier}
use runway_the_game.Board.Validate.{
  BoardDraft, Problem, is_warning, finishes, flag, challenge_of, board_has_challenges, out_of,
  check_draft, check_found, check_challenge, check_challenges, finish_unreachable_of, crossings,
  crossings_of, crosses, waypoint_points, problems_of, validate_board,
}

-- Nothing but warnings.
abbrev pub only_warnings : List Problem → Bool
only_warnings ps = all is_warning ps

-- The amount is missing or lies in the range.
abbrev pub InRange : ℕ → ℕ → Option ℕ → Type 0
InRange lo hi none = Unit
InRange lo hi (some n) = (lo ≤ n) × (n ≤ hi)

-- What a waypoint's challenge must be: none at the finish; anywhere but at the two ends a prompt with
-- some ink in it, a reward of 5 to 40 coins and a veto penalty of 900 to 14400 seconds, if given.
abbrev pub ChallengeFits : WaypointDraft → Option ChallengeDraft → Type 0
ChallengeFits w none = Unit
ChallengeFits w (some c) =
    (w.is_finish ≡ false)
    × (w.is_start ≡ false
        → (blank c.prompt ≡ false)
          × InRange 5 40 c.coin_reward
          × InRange 900 14400 c.veto_penalty_seconds)

pub record IsPlayable (b : BoardDraft) : Type 0 where
  pub start : WaypointDraft
  pub one_start : starts b.waypoints ≡ start ∷ []
  pub finish : WaypointDraft
  pub one_finish : finishes b.waypoints ≡ finish ∷ []
  pub distinct : All (λ w. (w.is_start && w.is_finish) ≡ false) b.waypoints
  pub joined : All (λ w. (v : String) × (adjacent b.waypoints b.roads w.id v ≡ true)) b.waypoints
  pub finish_reached : (n : ℕ) × Walk (adjacent b.waypoints b.roads) start.id n finish.id
  pub reached : All (λ w. (n : ℕ) × Walk (adjacent b.waypoints b.roads) start.id n w.id) b.waypoints
  pub challenges : All (λ w. ChallengeFits w (challenge_of b.challenges w)) b.waypoints

all-append {ℓ} :
    {A : Type ℓ} (p : A → Bool) (xs ys : List A) → all p (xs ++ ys) ≡ (all p xs && all p ys)
all-append p [] ys = refl
all-append p (x ∷ xs) ys = ground (arith, all-append p xs ys)

-- A list of flags is empty of errors exactly when no waypoint fails the test.
only_warnings-flag :
    (bad : WaypointDraft → Bool) (p : WaypointDraft → Problem) (ws : List WaypointDraft)
    → ((w : WaypointDraft) → is_warning (p w) ≡ false)
    → (only_warnings (flag bad p ws) ≡ true) ↔ All (λ w. bad w ≡ false) ws
only_warnings-flag bad p [] h = (λ _. tt, λ _. refl)
only_warnings-flag bad p (w ∷ ws) h = ground (arith, only_warnings-flag bad p ws h, h w)

module _ (planar : List WaypointDraft → WaypointDraft → Point)
    (name_le : String → String → Bool) where
  crossings_of-warnings :
      (points : Dict Point) (i : ℕ) (s1 : RoadDraft) (j : ℕ) (roads : List RoadDraft)
      → only_warnings (crossings_of planar name_le points i s1 j roads) ≡ true
  unfolding crossings_of
  crossings_of-warnings points i s1 j [] = refl
  crossings_of-warnings points i s1 j (s2 ∷ roads) =
      elim (Bool-cases (crosses planar name_le points s1 s2)) [
        | inl e ↦ rw (e, crossings_of) (crossings_of-warnings points i s1 (suc j) roads)
        | inr e ↦ rw (e, crossings_of) (crossings_of-warnings points i s1 (suc j) roads)
      ]

  crossings-warnings :
      (points : Dict Point) (i : ℕ) (roads : List RoadDraft)
      → only_warnings (crossings planar name_le points i roads) ≡ true
  unfolding crossings
  crossings-warnings points i [] = refl
  crossings-warnings points i (s1 ∷ roads) =
      all-append is_warning (crossings_of planar name_le points i s1 (suc i) roads) _
      ∙ ground (
        arith,
        crossings_of-warnings points i s1 (suc i) roads,
        crossings-warnings points (suc i) roads,
      )

out_of-InRange : (lo hi : ℕ) (o : Option ℕ) → (out_of lo hi o ≡ false) ↔ InRange lo hi o
out_of-InRange lo hi none = (λ _. tt, λ _. refl)
out_of-InRange lo hi (some n) = ground arith

check_draft-warnings :
    (w : WaypointDraft) (c : ChallengeDraft)
    → (only_warnings (check_draft w c) ≡ true) ↔ (
        (blank c.prompt ≡ false)
        × InRange 5 40 c.coin_reward
        × InRange 900 14400 c.veto_penalty_seconds)
unfolding check_draft
check_draft-warnings w c =
    ground
      (arith, out_of-InRange 5 40 c.coin_reward, out_of-InRange 900 14400 c.veto_penalty_seconds)

check_found-warnings :
    (any_challenge : Bool) (w : WaypointDraft) (ch : Option ChallengeDraft)
    → (only_warnings (check_found any_challenge w ch) ≡ true) ↔ ChallengeFits w ch
unfolding check_found
check_found-warnings any_challenge w none = ground arith
check_found-warnings any_challenge w (some c) = ground (arith, check_draft-warnings w c)

check_challenge-warnings :
    (any_challenge : Bool) (challenges : Dict ChallengeDraft) (w : WaypointDraft)
    → (only_warnings (check_challenge any_challenge challenges w) ≡ true)
      ↔ ChallengeFits w (challenge_of challenges w)
unfolding check_challenge
check_challenge-warnings any_challenge challenges w =
    check_found-warnings any_challenge w (challenge_of challenges w)

check_challenges-warnings :
    (any_challenge : Bool) (challenges : Dict ChallengeDraft) (ws : List WaypointDraft)
    → (only_warnings (check_challenges any_challenge challenges ws) ≡ true)
      ↔ All (λ w. ChallengeFits w (challenge_of challenges w)) ws
unfolding check_challenges
check_challenges-warnings any_challenge challenges [] = (λ _. tt, λ _. refl)
check_challenges-warnings any_challenge challenges (w ∷ ws) = ground (
  arith,
  all-append is_warning (check_challenge any_challenge challenges w)
      (check_challenges any_challenge challenges ws),
  check_challenge-warnings any_challenge challenges w,
  check_challenges-warnings any_challenge challenges ws,
)

finish_unreachable_of-warnings :
    (tiers : Dict ℕ) (s f : WaypointDraft)
    → (only_warnings (finish_unreachable_of tiers (s ∷ []) (f ∷ [])) ≡ true)
      ↔ (is_some (lookup f.id tiers) ≡ true)
unfolding finish_unreachable_of
finish_unreachable_of-warnings tiers s f = ground arith

one_of_length :
    (xs : List WaypointDraft) → eqb (length xs) 1 ≡ true → (x : WaypointDraft) × (xs ≡ x ∷ [])
one_of_length [] h = cc
one_of_length (x ∷ []) h = (x, refl)
one_of_length (x ∷ y ∷ xs) h = absurd (ground arith)

degree_pos :
    (ns : List String) → (eqb (length ns) 0 ≡ false) ↔ ((v : String) × (includes v ns ≡ true))
degree_pos [] = (λ h. cc, λ (v, h). cc)
degree_pos (n ∷ ns) = (λ h. (n, ground (arith, eq_refl n)), λ (v, h). ground arith)

All-iff {ℓ κ μ} :
    {A : Type ℓ} {P : A → Type κ} {Q : A → Type μ} (xs : List A)
    → ((x : A) → P x ↔ Q x)
    → All P xs ↔ All Q xs
All-iff xs f = (All-imp xs (λ x. (f x).0), All-imp xs (λ x. (f x).1))

filter-eq-nil :
    (p : WaypointDraft → Bool) (ws : List WaypointDraft)
    → (only_warnings (flag (λ _. true) Problem.unreachable (filter p ws)) ≡ true)
      ↔ All (λ w. p w ≡ false) ws
filter-eq-nil p [] = (λ _. tt, λ _. refl)
filter-eq-nil p (w ∷ ws) = ground (arith, filter-eq-nil p ws)

value_of {ℓ} : {A : Type ℓ} (o : Option A) → is_some o ≡ true → (a : A) × (o ≡ some a)
value_of none h = cc
value_of (some a) h = (a, refl)

module _ (planar : List WaypointDraft → WaypointDraft → Point) (name_le : String → String → Bool)
    (b : BoardDraft) (tiers : Dict ℕ) where
  -- The parts of a list without errors, in the order of the checks.
  problems_of-warnings :
      (only_warnings (
          problems_of planar name_le b
            (route_order_of name_le (adj_map b.waypoints b.roads) tiers b.waypoints b.roads))
        ≡ true)
      ↔ ((eqb (length (starts b.waypoints)) 1 ≡ true)
          × (eqb (length (finishes b.waypoints)) 1 ≡ true)
          × All (λ w. (w.is_start && w.is_finish) ≡ false) b.waypoints
          × All (λ w. eqb (degree (adj_map b.waypoints b.roads) w) 0 ≡ false) b.waypoints
          × (only_warnings (finish_unreachable_of tiers (starts b.waypoints) (finishes b.waypoints))
              ≡ true)
          × All (λ w. is_unreachable (adj_map b.waypoints b.roads) tiers w ≡ false) b.waypoints
          × All (λ w. ChallengeFits w (challenge_of b.challenges w)) b.waypoints)
  unfolding problems_of route_order_of
  problems_of-warnings = simp all-append (
      ground (
        arith,
        only_warnings-flag (λ w. w.is_start && w.is_finish) Problem.start_is_finish b.waypoints
            (λ _. refl),
        only_warnings-flag (λ w. eqb (degree (adj_map b.waypoints b.roads) w) 0) Problem.isolated
            b.waypoints (λ _. refl),
        crossings-warnings planar name_le
            (waypoint_points planar name_le b.waypoints b.waypoints []) 0 b.roads,
        filter-eq-nil (is_unreachable (adj_map b.waypoints b.roads) tiers) b.waypoints,
        check_challenges-warnings (board_has_challenges b) b.challenges b.waypoints,
      ))

  module _ (found : tier_by_waypoint b.waypoints b.roads ≡ some tiers) where
    joined_iff :
        All (λ w. eqb (degree (adj_map b.waypoints b.roads) w) 0 ≡ false) b.waypoints
        ↔ All (λ w. (v : String) × (adjacent b.waypoints b.roads w.id v ≡ true)) b.waypoints
    joined_iff = All-iff b.waypoints λ w. (
      λ h.
          let (v, i) = (degree_pos (neighbors (adj_map b.waypoints b.roads) w.id)).0 h in
          (v, rw neighbors-adj_map at i),
      λ (v, i).
          (degree_pos (neighbors (adj_map b.waypoints b.roads) w.id)).1 (v, rw neighbors-adj_map i),
    )

    -- A list without errors makes a playable board.
    IsPlayable-of_warnings :
        only_warnings (
            problems_of planar name_le b
              (route_order_of name_le (adj_map b.waypoints b.roads) tiers b.waypoints b.roads))
          ≡ true
        → IsPlayable b
    IsPlayable-of_warnings h =
        let (cs, cf, distinct, linked, fin, out, chs) = problems_of-warnings.0 h in
        let (s, es) = one_of_length (starts b.waypoints) cs in
        let (f, ef) = one_of_length (finishes b.waypoints) cf in
        let (m, em) =
          value_of (lookup f.id tiers)
            ((finish_unreachable_of-warnings tiers s f).0 (rw (es, ef) at fin)) in
        record {
          start = s;
          one_start = es;
          finish = f;
          one_finish = ef;
          distinct = distinct;
          joined = joined_iff.0 linked;
          finish_reached = (m, Walk-of_tier b.waypoints b.roads s tiers es found m f.id em);
          reached =
              All-imp₂ b.waypoints
                (λ w d u.
                  let (n, e) = value_of (lookup w.id tiers) (ground arith) in
                  (n, Walk-of_tier b.waypoints b.roads s tiers es found n w.id e))
                linked out;
          challenges = chs;
        }

    warnings_of_IsPlayable :
        IsPlayable b
        → only_warnings (
            problems_of planar name_le b
              (route_order_of name_le (adj_map b.waypoints b.roads) tiers b.waypoints b.roads))
          ≡ true
    warnings_of_IsPlayable p = problems_of-warnings.1 (
      ground (arith, p.one_start),
      ground (arith, p.one_finish),
      p.distinct,
      joined_iff.1 p.joined,
      rw (p.one_start, p.one_finish)
          ((finish_unreachable_of-warnings tiers p.start p.finish).1 (
            let (n, w) = p.finish_reached in
            let (m, e) =
              tier_of_Walk b.waypoints b.roads p.start tiers p.one_start found n p.finish.id w in
            rw e)),
      All-imp b.waypoints
          (λ w (n, walk).
            let (m, e) =
              tier_of_Walk b.waypoints b.roads p.start tiers p.one_start found n w.id walk in
            rw e)
          p.reached,
      p.challenges,
    )

not-IsPlayable_empty : (b : BoardDraft) → eqb (length b.waypoints) 0 ≡ true → ¬ IsPlayable b
not-IsPlayable_empty b h p = go b.waypoints h p.one_start
  where
    go : (ws : List WaypointDraft) → eqb (length ws) 0 ≡ true → ¬ (starts ws ≡ p.start ∷ [])
    go [] h e = cc
    go (w ∷ ws) h e = absurd (ground arith)

-- The validation always returns, and what it returns holds no error exactly when the board has one
-- start and one finish, on two waypoints, every waypoint on a road and within a walk of the start, and
-- challenges that fit their waypoints.
pub validate_board-IsPlayable :
    (planar : List WaypointDraft → WaypointDraft → Point) (name_le : String → String → Bool)
    (b : BoardDraft)
    → (ps : List Problem) × (validate_board planar name_le b ≡ some ps)
      × ((only_warnings ps ≡ true) ↔ IsPlayable b)
unfolding validate_board compute_route_order
validate_board-IsPlayable planar name_le b =
    let (tiers, found) = tier_by_waypoint_total b.waypoints b.roads in
    elim (Bool-cases (eqb (length b.waypoints) 0)) [
      | inl e ↦
          (Problem.no_waypoints ∷ [], rw e, (λ h. cc, λ p. absurd (not-IsPlayable_empty b e p)))
      | inr e ↦ (
        problems_of planar name_le b
            (route_order_of name_le (adj_map b.waypoints b.roads) tiers b.waypoints b.roads),
        rw (e, found, compute_route_order),
        (
          IsPlayable-of_warnings planar name_le b tiers found,
          warnings_of_IsPlayable planar name_le b tiers found,
        ),
      )
    ]
