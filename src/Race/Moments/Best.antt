-- ===== src/Race/Moments/Best.antt =====
-- Which celebration diffMoments of frontend/src/core/game/raceMoments.ts shows.
use runway_the_game.Prelude.{
  String, ◌≡◌, refl, ap, ◌∙◌, inl, inr, Bool, true, false, not, ◌&&◌, ◌||◌, Option, none, some,
  List, [], ◌∷◌, ◌++◌, arith, lookup, Option-cases, values, truthy, includes, filter_map,
  Bool-cases, if◌then◌else◌,
}
use runway_the_game.Projection.{GameState, TeamProgress, Road, SubmissionInfo}
use runway_the_game.Race.Moments.{
  CelebrationKind, won, finished, cleared, arrived, CelebrationMoment, is_text, celebrate,
  text_after, coins_gained, own_clears, gated, bypassed_at, only_if,
}
use runway_the_game.Race.Moments.Celebrations.{
  candidates, candidates_of, won_moment, finished_moment, arrived_moment, clear_moment,
  submission_moment, road_moment, passed_before, completed_before,
}
use runway_the_game.Race.Moments.Difference.{diff_moments}
use runway_the_game.Race.Moments.Front.{
  first_of, best_of, OfKind, or_else, same_kind, head?-sort_by,
}

first_of-append :
    (k : CelebrationKind) (xs ys : List CelebrationMoment)
    → first_of k xs ≡ none
    → first_of k (xs ++ ys) ≡ first_of k ys
first_of-append k [] ys h = refl
first_of-append k (x ∷ xs) ys h = elim (Bool-cases (same_kind x.kind k)) [
  | inl e ↦ ground (arith, h, e)
  | inr e ↦ rw e (first_of-append k xs ys (ground (arith, h, e)))
]

module _ (k : CelebrationKind) where
  of_cleared :
      (o : Option CelebrationMoment) (rest : List CelebrationMoment)
      → same_kind cleared k ≡ false
      → OfKind cleared o
      → first_of k (elim o [ none ↦ rest | some b ↦ b ∷ rest ]) ≡ first_of k rest
  of_cleared none rest e h = refl
  of_cleared (some b) rest e h = rw (h, e) refl

  first_of-filter_map :
      {A : Type 0} (f : A → Option CelebrationMoment) (xs : List A)
      → same_kind cleared k ≡ false
      → ((x : A) → OfKind cleared (f x))
      → first_of k (filter_map f xs) ≡ none
  first_of-filter_map f [] e h = refl
  first_of-filter_map f (x ∷ xs) e h =
      of_cleared (f x) (filter_map f xs) e (h x) ∙ first_of-filter_map f xs e h

  first_of-only_if :
      (b : Bool) (c : CelebrationMoment)
      → same_kind arrived k ≡ false
      → c.kind ≡ arrived
      → first_of k (only_if b c) ≡ none
  first_of-only_if true c e h = rw (h, e) refl
  first_of-only_if false c e h = refl

if-OfKind :
    (b : Bool) (k : CelebrationKind) (x y : Option CelebrationMoment)
    → OfKind k x
    → OfKind k y
    → OfKind k (if b then x else y)
if-OfKind true k x y h j = h
if-OfKind false k x y h j = j

module _ (prev next : GameState) (t : String) where
  clear_moment-OfKind : (id : String) → OfKind cleared (clear_moment prev next t id)
  unfolding clear_moment own_clears
  clear_moment-OfKind id =
      if-OfKind (includes id (own_clears prev t) || not (gated next id) || bypassed_at next id t)
        cleared none
        (some
          (celebrate cleared (text_after "cleared:" id) (some id) none (coins_gained prev next t)))
        tt refl

  submission_moment-OfKind :
      (sub : SubmissionInfo) → OfKind cleared (submission_moment prev next t sub)
  unfolding submission_moment passed_before
  submission_moment-OfKind sub =
      if-OfKind _ cleared none _ tt (if-OfKind (truthy sub.road_id) cleared _ _ refl refl)

  road_moment-OfKind : (road : Road) → OfKind cleared (road_moment prev next t road)
  unfolding road_moment completed_before
  road_moment-OfKind road =
      if-OfKind
        (not (truthy road.challenge_id)
          || not (is_text road.completed_by t)
          || completed_before prev next t road)
        cleared none
        (some (
          celebrate cleared (text_after "cleared:road:" road.id) none (some road.id)
            (coins_gained prev next t)))
        tt refl

  abbrev after_finished : TeamProgress → TeamProgress → List CelebrationMoment
  after_finished before after =
      arrived_moment prev next t before after
      ++ (filter_map (clear_moment prev next t) (own_clears next t)
          ++ (filter_map (submission_moment prev next t) (values next.submissions)
              ++ filter_map (road_moment prev next t) next.roads))

  first_of-after_finished :
      (k : CelebrationKind) (before after : TeamProgress)
      → same_kind arrived k ≡ false
      → same_kind cleared k ≡ false
      → first_of k (after_finished before after) ≡ none
  unfolding arrived_moment
  first_of-after_finished k before after e f =
      let clear = clear_moment prev next t in
      let pass = submission_moment prev next t in
      first_of-append k (arrived_moment prev next t before after) _ (
        first_of-only_if k _
          (celebrate arrived (text_after "arrived:" after.current_waypoint_id)
            (some after.current_waypoint_id) none (coins_gained prev next t))
          e refl)
      ∙ first_of-append k (filter_map clear (own_clears next t)) _
          (first_of-filter_map k clear (own_clears next t) f clear_moment-OfKind)
      ∙ first_of-append k (filter_map pass (values next.submissions)) _
          (first_of-filter_map k pass (values next.submissions) f submission_moment-OfKind)
      ∙ first_of-filter_map k (road_moment prev next t) next.roads f road_moment-OfKind

  -- The team wins, or gets to the finish, between the two states.
  abbrev pub newly_won : Bool
  newly_won = is_text next.winner t && not (is_text prev.winner t)

  abbrev pub newly_finished : TeamProgress → TeamProgress → Bool
  newly_finished before after = after.reached_finish && not before.reached_finish

  abbrev pub win : CelebrationMoment
  win = celebrate won (text_after "won:" t) none none (coins_gained prev next t)

  abbrev pub finish : TeamProgress → CelebrationMoment
  finish after =
      celebrate finished (text_after "finished:" t) (some after.current_waypoint_id) none
        (coins_gained prev next t)

  -- What two states with the team's progress show of these candidates.
  abbrev pub shown : TeamProgress → TeamProgress → List CelebrationMoment → Option CelebrationMoment
  shown before after cs =
      if newly_won
      then some win
      else if newly_finished before after
      then some (finish after)
      else or_else (first_of cleared cs) (first_of arrived cs)

  best_of-shown :
      (before after : TeamProgress)
      → best_of (candidates_of prev next t before after)
        ≡ shown before after (candidates_of prev next t before after)
  unfolding candidates_of won_moment finished_moment
  best_of-shown before after =
      let no_win = first_of-after_finished won before after refl refl in
      let no_finish = first_of-after_finished finished before after refl refl in
      let rest = after_finished before after in
      let others = or_else (first_of cleared rest) (first_of arrived rest) in
      elim (Bool-cases newly_won) [
        | inl e ↦ rw e refl
        | inr e ↦ elim (Bool-cases (newly_finished before after)) [
          | inl f ↦ rw (e, f) (ap (λ o. or_else o (some (finish after))) no_win)
          | inr f ↦
              rw (e, f)
                (ap (λ o. or_else o (or_else (first_of finished rest) others)) no_win
                  ∙ ap (λ o. or_else o others) no_finish)
        ]
      ]

-- A team that has no progress in one of two race states is shown no celebration. Else it is shown
-- its win when it won between them; else its finish when it got there between them; else the first of
-- the candidates for a cleared challenge, and only when there is none the one for its arrival, if any.
pub diff_moments-Shows :
    (prev next : GameState) (t : String)
    → (diff_moments prev next t).celebration ≡ elim (lookup t prev.progress) [
      | none ↦ none
      | some before ↦ elim (lookup t next.progress) [
        | none ↦ none
        | some after ↦ shown prev next t before after (candidates_of prev next t before after)
      ]
    ]
unfolding diff_moments candidates
diff_moments-Shows prev next t =
    head?-sort_by (candidates prev next t) ∙ elim (Option-cases (lookup t prev.progress)) [
      | inl p ↦ rw (candidates, p) refl
      | inr (before, p) ↦ elim (Option-cases (lookup t next.progress)) [
        | inl q ↦ rw (candidates, p, q) refl
        | inr (after, q) ↦ rw (candidates, p, q) (best_of-shown prev next t before after)
      ]
    ]
