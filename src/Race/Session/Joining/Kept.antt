-- ===== src/Race/Session/Joining/Kept.antt =====
-- What joining does to the device: resolveJoinTarget of
-- frontend/src/core/game/resolveJoinTarget.ts.
use runway_the_game.Prelude.{
  String, ◌==◌, ◌≡◌, ◌≢◌, refl, sym, ap, ◌∙◌, inl, inr, Bool, true, false, ◌&&◌, not, Option, none,
  some, find, truthy, lookup-insert, eq_iff, arith, Bool-cases, if◌then◌else◌,
}
use runway_the_game.Race.Session.{
  RaceEntry, TeamSession, Device, load_team_session, is_race, is_there, merged, remember_race,
}
use runway_the_game.Race.Session.Joining.{
  Invite, JoinTarget, link, with_id, with_code, CodeAnswer, found, api_failure, unreachable, Joined,
  resolved, join_error, bare_entry, found_entry, save_team_session, text_in, invited,
  keep_credentials, resolve_join_target,
}

-- The session of a team that the device had is still its session.
abbrev pub KeepsTeams : Device → Device → Type 0
KeepsTeams d e =
    (g : String) (s : TeamSession) → load_team_session g d ≡ some s → load_team_session g e ≡ some s

remembered :
    (now : String) (entry : RaceEntry) (d : Device)
    → find (is_race entry.game_id) (remember_race true now entry d).races ≢ none
unfolding remember_race merged
remembered now entry d =
    let same : (entry.game_id == entry.game_id) ≡ true =
      ground (arith, eq_iff entry.game_id entry.game_id) in
    rw same (λ e. ground (arith, e))

remember-KeepsTeams :
    (saved : Bool) (now : String) (entry : RaceEntry) (d : Device)
    → KeepsTeams d (remember_race saved now entry d)
unfolding remember_race
remember-KeepsTeams true now entry d g s h = h
remember-KeepsTeams false now entry d g s h = h

abbrev session_in : String → Option TeamSession → Option TeamSession
session_in g o = elim o [
  | none ↦ none
  | some s ↦ if s.game_id == g && truthy s.team_token then some s else none
]

false-true : false ≡ true → ⊥
false-true e = ground (arith, e)

eq_text : (a b : String) → (a == b) ≡ true → a ≡ b
eq_text a b h = ground (arith, h, eq_iff a b)

save-KeepsTeams :
    (saved : Bool) (t : TeamSession) (d : Device)
    → is_there (load_team_session t.game_id d) ≡ false
    → KeepsTeams d (save_team_session saved t d)
save-KeepsTeams false t d new g s h = h
save-KeepsTeams true t d new g s h = elim (Bool-cases (t.game_id == g)) [
  | inl e ↦ absurd (
      false-true (
        sym new
        ∙ ap (λ k. is_there (load_team_session k d)) (eq_text t.game_id g e)
        ∙ ap is_there h))
  | inr e ↦ ap (session_in g) (lookup-insert t.game_id g t d.teams ∙ rw e refl) ∙ h
]

keep_credentials-KeepsTeams :
    (saved : Bool) (i : Invite) (d : Device) → KeepsTeams d (keep_credentials saved i d)
keep_credentials-KeepsTeams saved i d g s h =
    elim (Bool-cases (
      truthy (text_in i.team_token)
      && truthy (text_in i.team_id)
      && not (is_there (load_team_session i.game_id d)))) [
        | inl e ↦ rw e (save-KeepsTeams saved (invited i) d (ground (arith, e)) g s h)
        | inr e ↦ rw e h
      ]

-- What joining promises of its result and of the device after it.
abbrev pub Promise : Device → Joined × Device → Type 0
Promise d (join_error message, e) = e ≡ d
Promise d (resolved r, e) = (find (is_race r.game_id) e.races ≢ none) × KeepsTeams d e

abbrev pub is_resolved : Joined → Bool
is_resolved (resolved r) = true
is_resolved (join_error message) = false

-- Only a code that no race is found for cannot be joined.
abbrev pub may_join : CodeAnswer → JoinTarget → Bool
may_join (found l) (with_code code) = true
may_join (api_failure status) (with_code code) = false
may_join unreachable (with_code code) = false
may_join answer (with_id id) = true
may_join answer (link i) = true

abbrev pub address_in : Joined → Option String
address_in (resolved r) = r.hard_navigate_to
address_in (join_error message) = none

abbrev pub base_of : JoinTarget → String
base_of (link i) = text_in i.api_base
base_of (with_id id) = ""
base_of (with_code code) = ""

middle : (a b c : Bool) → (a && b && c) ≡ true → b ≡ true
middle a b c h = ground (arith, h)

if_some : (b : Bool) (x a : String) → (if b then some x else none) ≡ some a → b ≡ true
if_some true x a e = refl
if_some false x a e = absurd (ground (arith, e))

module _ (is_trusted : String → Bool) (api_base_url : String)
    (address_of : String → String → String) where
  abbrev pub Joins : CodeAnswer → JoinTarget → Device → Joined × Device → Type 0
  Joins answer target d r =
      (is_resolved r.0 ≡ may_join answer target)
      × Promise d r
      × ((a : String) → address_in r.0 ≡ some a → is_trusted (base_of target) ≡ true)

  -- A target is resolved unless it is a code that no race is found for. An error leaves the device as
  -- it was; a resolved target's race is in the index, when its write succeeds, and no session of a team
  -- that the device had is lost or replaced. An address to reload from is given only for a link whose
  -- api base is trusted.
  pub resolve_join_target-Joins :
      (team_saved : Bool) (now : String) (answer : CodeAnswer) (target : JoinTarget) (d : Device)
      → Joins answer target d (
          resolve_join_target is_trusted api_base_url address_of true team_saved now answer target
            d)
  unfolding resolve_join_target
  resolve_join_target-Joins ts now (found l) (with_code code) d = (
    refl,
    (remembered now (found_entry l) d, remember-KeepsTeams true now (found_entry l) d),
    (λ a e. absurd (ground (arith, e))),
  )
  resolve_join_target-Joins ts now (api_failure status) (with_code code) d =
      (refl, refl, (λ a e. absurd (ground (arith, e))))
  resolve_join_target-Joins ts now unreachable (with_code code) d =
      (refl, refl, (λ a e. absurd (ground (arith, e))))
  resolve_join_target-Joins ts now answer (with_id id) d = (
    refl,
    (remembered now (bare_entry id) d, remember-KeepsTeams true now (bare_entry id) d),
    (λ a e. absurd (ground (arith, e))),
  )
  resolve_join_target-Joins ts now answer (link i) d =
      let kept = keep_credentials ts i d in
      (
        refl,
        (
          remembered now (bare_entry i.game_id) kept,
          (λ g s h.
              remember-KeepsTeams true now (bare_entry i.game_id) kept g s
                (keep_credentials-KeepsTeams ts i d g s h)),
        ),
        (λ a e.
            middle (truthy (text_in i.api_base)) (is_trusted (text_in i.api_base)) _
              (if_some _ _ a e)),
      )
