-- ===== src/Race/Session/Joining.antt =====
-- frontend/src/core/game/resolveJoinTarget.ts, with JoinTarget of joinTarget.ts and saveTeamSession of
-- teamSession.ts. The answer of getGameByCode with the fields that are read, the base in use, whether
-- a base is trusted (is_trusted_api_base_url of Http), and the address that is built for it are
-- arguments.
pub mod Kept
mod Tests
use runway_the_game.Prelude.{
  ℕ, eqb, String, ◌==◌, ◌≡◌, ◌≢◌, refl, sym, ap, ◌∙◌, inl, inr, Bool, true, false, ◌&&◌, not,
  Option, none, some, List, [], ◌∷◌, find, take, truthy, lookup, insert, lookup-insert, or_default,
  or_text, eq_iff, arith, Bool-cases, if◌then◌else◌,
}
use runway_the_game.Http.{without_slashes}
use runway_the_game.Projection.{RaceStatus}
use runway_the_game.Race.Session.{
  RaceEntry, RaceRecord, TeamSession, Device, load_team_session, is_race, is_there, merged,
  write_raw, remember_race, remove_first,
}

pub record Invite : Type 0 where
  pub game_id : String
  pub api_base : Option String
  pub team_token : Option String
  pub team_id : Option String
  pub slot_index : Option ℕ
  pub team_name : Option String

pub data JoinTarget : Type 0 where
  link : Invite → JoinTarget
  with_id : String → JoinTarget
  with_code : String → JoinTarget

pub record RaceCodeLookup : Type 0 where
  pub game_id : String
  pub race_code : String
  pub board_name : String
  pub status : RaceStatus
  pub team_count : ℕ

-- The answer of getGameByCode: a race, an ApiError with its status, or another error.
pub data CodeAnswer : Type 0 where
  found : RaceCodeLookup → CodeAnswer
  api_failure : ℕ → CodeAnswer
  unreachable : CodeAnswer

pub record ResolvedJoin : Type 0 where
  pub game_id : String
  pub board_name : Option String
  pub race_code : Option String
  pub status : Option RaceStatus
  pub team_count : Option ℕ
  pub hard_navigate_to : Option String

pub data Joined : Type 0 where
  resolved : ResolvedJoin → Joined
  join_error : String → Joined

abbrev pub no_signal : String
no_signal = "Could not reach the race server. Check your signal and try again."

abbrev pub code_error : ℕ → String
code_error status =
    if eqb status 404
    then "No race with that code. Team codes only work inside the lobby. Ask the host for the race code or invite link."
    else if eqb status 410
    then "That race has already finished."
    else if eqb status 429
    then "Too many tries. Wait a moment and try again."
    else no_signal

abbrev pub bare_entry : String → RaceEntry
bare_entry id = record {
  game_id = id;
  race_code = none;
  board_name = none;
  status = none;
  mode = none;
  gm_only = none;
}

abbrev pub bare_join : String → ResolvedJoin
bare_join id = record {
  game_id = id;
  board_name = none;
  race_code = none;
  status = none;
  team_count = none;
  hard_navigate_to = none;
}

abbrev pub found_entry : RaceCodeLookup → RaceEntry
found_entry l = record {
  game_id = l.game_id;
  race_code = some l.race_code;
  board_name = some l.board_name;
  status = some l.status;
  mode = none;
  gm_only = none;
}

abbrev pub save_team_session : Bool → TeamSession → Device → Device
save_team_session saved s d = if saved then record d { teams = insert s.game_id s d.teams } else d

abbrev pub text_in : Option String → String
text_in o = or_default o ""

abbrev pub invited : Invite → TeamSession
invited i = record {
  game_id = i.game_id;
  team_id = text_in i.team_id;
  team_token = text_in i.team_token;
  team_name = or_text (text_in i.team_name) "Teammate";
  slot_index = or_default i.slot_index 0;
  home_waypoint_id = none;
  join_code = none;
  player_id = none;
  display_name = none;
}

-- Credentials of an invite, which do not replace those that the device has.
abbrev pub keep_credentials : Bool → Invite → Device → Device
keep_credentials saved i d =
    if truthy (text_in i.team_token)
      && truthy (text_in i.team_id)
      && not (is_there (load_team_session i.game_id d))
    then save_team_session saved (invited i) d
    else d

module _ (is_trusted : String → Bool) (api_base_url : String)
    (address_of : String → String → String) where
  abbrev pub resolved_link : Invite → ResolvedJoin
  resolved_link i = record (bare_join i.game_id) {
    hard_navigate_to =
        if truthy (text_in i.api_base)
          && is_trusted (text_in i.api_base)
          && not (without_slashes (text_in i.api_base) == api_base_url)
        then some (address_of i.game_id (text_in i.api_base))
        else none;
  }

  -- `saved` and `team_saved` are whether the writes of the race and of the team succeed.
  pub resolve_join_target :
      Bool → Bool → String → CodeAnswer → JoinTarget → Device → Joined × Device
  unfolding remember_race
  resolve_join_target saved team_saved now (found l) (with_code code) d = (
    resolved (record {
      game_id = l.game_id;
      board_name = some l.board_name;
      race_code = some l.race_code;
      status = some l.status;
      team_count = some l.team_count;
      hard_navigate_to = none;
    }),
    remember_race saved now (found_entry l) d,
  )
  resolve_join_target saved team_saved now (api_failure status) (with_code code) d =
      (join_error (code_error status), d)
  resolve_join_target saved team_saved now unreachable (with_code code) d =
      (join_error no_signal, d)
  resolve_join_target saved team_saved now answer (with_id id) d =
      (resolved (bare_join id), remember_race saved now (bare_entry id) d)
  resolve_join_target saved team_saved now answer (link i) d = (
    resolved (resolved_link i),
    remember_race saved now (bare_entry i.game_id) (keep_credentials team_saved i d),
  )
