-- ===== src/Race/Session/Refresh.antt =====
-- The rest of frontend/src/core/game/raceSession.ts: refreshRaceStatuses, the paths of a race and the
-- token of its feed. What the server answers for a game is an argument, none when it fails.
use runway_the_game.Prelude.{
  String, ◌≡◌, refl, ◌∙◌, inl, inr, Bool, true, false, ◌&&◌, ◌||◌, not, Option, none, some, List,
  [], ◌∷◌, filter, find, truthy, or_default, joined, arith, Bool-cases, if◌then◌else◌,
}
use runway_the_game.Projection.{GameMode, RaceStatus}
use runway_the_game.Race.Session.{
  RaceRole, RaceRecord, RaceEntry, Device, load_host_session, load_team_session, is_there, is_ended,
  is_race, get_race, resolve_role, remember_race, touch_found, touch_race, status_changed,
  name_changed,
}
use runway_the_game.Race.Session.Index.{IsIndex, remember, touch, perform, perform-IsIndex}

pub record GameAnswer : Type 0 where
  pub status : RaceStatus
  pub board_name : Option String
  pub race_code : Option String

abbrev pub pending : List RaceRecord → List RaceRecord
pending races = filter (λ r. not (is_ended (some r.status))) races

abbrev pub code_entry : String → Option String → RaceEntry
code_entry id code = record {
  game_id = id;
  race_code = code;
  board_name = none;
  status = none;
  mode = none;
  gm_only = none;
}

-- A code that the record did not have.
abbrev pub with_new_code : Bool → String → RaceRecord → GameAnswer → Device × Bool → Device × Bool
with_new_code saved now r a (d, changed) =
    if truthy (or_default a.race_code "") && not (truthy (or_default r.race_code ""))
    then (remember_race saved now (code_entry r.game_id a.race_code) d, true)
    else (d, changed)

abbrev pub after_answer :
    Bool → String → RaceRecord → Option GameAnswer → Device × Bool → Device × Bool
after_answer saved now r none (d, changed) = (d, changed)
after_answer saved now r (some a) (d, changed) =
    let t = touch_race saved now r.game_id (some a.status) a.board_name d in
    with_new_code saved now r a (t.0, changed || t.1)

pub after_answers :
    Bool → String → (String → Option GameAnswer) → List RaceRecord → Device × Bool → Device × Bool
after_answers saved now fetch_game [] r = r
after_answers saved now fetch_game (r ∷ rs) s =
    after_answers saved now fetch_game rs (after_answer saved now r (fetch_game r.game_id) s)

pub refresh_race_statuses : Bool → String → (String → Option GameAnswer) → Device → Device × Bool
unfolding after_answers
refresh_race_statuses saved now fetch_game d =
    after_answers saved now fetch_game (pending d.races) (d, false)

abbrev pub is_solo_race_mode : Option GameMode → Bool
is_solo_race_mode (some GameMode.solo_time_trial) = true
is_solo_race_mode (some GameMode.solo_casual) = true
is_solo_race_mode _ = false

abbrev pub lobby_path : String → String
lobby_path id = joined ("/join/" ∷ id ∷ [])

abbrev pub lobby_path_for_device : String → Device → String
lobby_path_for_device id d =
    if is_there (load_host_session id d) then joined ("/host/" ∷ id ∷ []) else lobby_path id

abbrev pub play_path : String → String → String
play_path id view = joined ("/race/" ∷ id ∷ "?view=" ∷ view ∷ [])

abbrev pub path_of_role : String → RaceRole → String
path_of_role id RaceRole.nobody = lobby_path id
path_of_role id RaceRole.host = play_path id "host"
path_of_role id RaceRole.player = play_path id "play"
path_of_role id RaceRole.both = play_path id "play"

abbrev pub mode_of : Option RaceRecord → Option GameMode
mode_of none = none
mode_of (some r) = r.mode

pub race_path_for : String → RaceStatus → Device → String
unfolding get_race
race_path_for id RaceStatus.ended d = joined ("/race/" ∷ id ∷ "/report" ∷ [])
race_path_for id RaceStatus.draft d =
    if is_solo_race_mode (mode_of (get_race id d))
    then play_path id "play"
    else lobby_path_for_device id d
race_path_for id RaceStatus.live d =
    if is_solo_race_mode (mode_of (get_race id d))
    then play_path id "play"
    else path_of_role id (resolve_role id d)

pub resolve_feed_token : String → Device → String
resolve_feed_token id d = if not (truthy id) then "" else elim (load_host_session id d) [
  | some h ↦ h.host_token
  | none ↦ elim (load_team_session id d) [ none ↦ "" | some t ↦ t.team_token ]
]

-- Nothing is changed when the answer is that nothing was.
abbrev pub Quiet : Device → Device × Bool → Type 0
Quiet d r = r.1 ≡ false → r.0 ≡ d

touch_found-Quiet :
    (saved : Bool) (now g : String) (status : Option RaceStatus) (name : Option String) (d : Device)
    (o : Option RaceRecord)
    → Quiet d (touch_found saved now g status name d o)
unfolding touch_found
touch_found-Quiet saved now g status name d none = λ e. refl
touch_found-Quiet saved now g status name d (some r) =
    elim (Bool-cases (not (status_changed status r) && not (name_changed name r))) [
      | inl p ↦ rw p (λ e. refl)
      | inr p ↦ elim (Bool-cases (status_changed status r && is_ended status)) [
        | inl q ↦ rw (p, q) (λ e. absurd (ground (arith, e)))
        | inr q ↦ rw (p, q) (λ e. absurd (ground (arith, e)))
      ]
    ]

-- What a step keeps: the index, and that a device that is said not to change has not.
abbrev pub Kept : Device → Device × Bool → Type 0
Kept d s = Quiet d s × IsIndex s.0

touch_race-Kept :
    (saved : Bool) (now g : String) (status : Option RaceStatus) (name : Option String)
    (d e : Device) (changed : Bool)
    → Kept d (e, changed)
    → Kept d (
      (touch_race saved now g status name e).0,
      changed || (touch_race saved now g status name e).1,
    )
unfolding perform touch_race
touch_race-Kept saved now g status name d e changed h = (
  (λ k.
      touch_found-Quiet saved now g status name e (find (is_race g) e.races) (ground (arith, k))
      ∙ h.0 (ground (arith, k))),
  perform-IsIndex (touch saved now g status name) e h.1,
)

with_new_code-Kept :
    (saved : Bool) (now : String) (r : RaceRecord) (a : GameAnswer) (d e : Device) (changed : Bool)
    → Kept d (e, changed)
    → Kept d (with_new_code saved now r a (e, changed))
unfolding perform
with_new_code-Kept saved now r a d e changed h =
    elim (Bool-cases
      (truthy (or_default a.race_code "") && not (truthy (or_default r.race_code "")))) [
        | inl p ↦ rw p (
          (λ k. absurd (ground (arith, k))),
          perform-IsIndex (remember saved now (code_entry r.game_id a.race_code)) e h.1,
        )
        | inr p ↦ rw p h
      ]

after_answer-Kept :
    (saved : Bool) (now : String) (r : RaceRecord) (o : Option GameAnswer) (d e : Device)
    (changed : Bool)
    → Kept d (e, changed)
    → Kept d (after_answer saved now r o (e, changed))
after_answer-Kept saved now r none d e changed h = h
after_answer-Kept saved now r (some a) d e changed h =
    with_new_code-Kept saved now r a d _ _
      (touch_race-Kept saved now r.game_id (some a.status) a.board_name d e changed h)

after_answers-Kept :
    (saved : Bool) (now : String) (fetch_game : String → Option GameAnswer) (rs : List RaceRecord)
    (d : Device) (s : Device × Bool)
    → Kept d s
    → Kept d (after_answers saved now fetch_game rs s)
unfolding after_answers
after_answers-Kept saved now fetch_game [] d s h = h
after_answers-Kept saved now fetch_game (r ∷ rs) d (e, changed) h =
    after_answers-Kept saved now fetch_game rs d
      (after_answer saved now r (fetch_game r.game_id) (e, changed))
      (after_answer-Kept saved now r (fetch_game r.game_id) d e changed h)

-- Whatever the server answers for the races that have not ended, and whether or not the writes
-- succeed, refreshing them leaves the device as it was when it says that nothing changed, and an index
-- with at most 50 races and one record for each stays so.
pub refresh_race_statuses-Kept :
    (saved : Bool) (now : String) (fetch_game : String → Option GameAnswer) (d : Device)
    → IsIndex d
    → Kept d (refresh_race_statuses saved now fetch_game d)
unfolding refresh_race_statuses
refresh_race_statuses-Kept saved now fetch_game d h =
    after_answers-Kept saved now fetch_game (pending d.races) d (d, false) ((λ e. refl), h)
