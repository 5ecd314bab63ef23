-- ===== src/Race/Session.antt =====
-- frontend/src/core/game/raceSession.ts: the index of races on this device, with the host and team
-- sessions of hostSession.ts and teamSession.ts beside it. What localStorage holds is the Device;
-- whether a write succeeds (setItem of frontend/src/core/util/storage.ts) is an argument.
pub mod Index
pub mod Joining
pub mod Refresh
mod Tests
use runway_the_game.Prelude.{
  ℕ, String, ◌==◌, Bool, true, false, ◌&&◌, ◌||◌, not, Option, none, some, List, [], ◌∷◌, ◌++◌, map,
  filter, find, take, truthy, Dict, lookup, remove, if◌then◌else◌,
}
use runway_the_game.Projection.{GameMode, RaceStatus}

pub data RaceRole : Type 0 where
  host player both nobody : RaceRole

pub record RaceRecord : Type 0 where
  pub game_id : String
  pub race_code : Option String
  pub board_name : String
  pub role : RaceRole
  pub status : RaceStatus
  pub mode : Option GameMode
  pub gm_only : Option Bool
  pub joined_at : String
  pub last_seen_at : String

-- `Partial<RaceRecord> & { gameId: string }`, with the fields that are read.
pub record RaceEntry : Type 0 where
  pub game_id : String
  pub race_code : Option String
  pub board_name : Option String
  pub status : Option RaceStatus
  pub mode : Option GameMode
  pub gm_only : Option Bool

pub record HostSession : Type 0 where
  pub game_id : String
  pub host_token : String

pub record TeamSession : Type 0 where
  pub game_id : String
  pub team_id : String
  pub team_token : String
  pub team_name : String
  pub slot_index : ℕ
  pub home_waypoint_id : Option String
  pub join_code : Option String
  pub player_id : Option String
  pub display_name : Option String

-- `purges` are the games whose queued captures were purged.
pub record Device : Type 0 where
  pub races : List RaceRecord
  pub hosts : Dict HostSession
  pub teams : Dict TeamSession
  pub purges : List String

abbrev pub max_races : ℕ
max_races = 50

abbrev pub write_raw : Bool → List RaceRecord → Device → Device
write_raw saved records d = if saved then record d { races = take max_races records } else d

abbrev pub load_host_session : String → Device → Option HostSession
load_host_session g d = elim (lookup g d.hosts) [
  | none ↦ none
  | some s ↦ if s.game_id == g && truthy s.host_token then some s else none
]

abbrev pub load_team_session : String → Device → Option TeamSession
load_team_session g d = elim (lookup g d.teams) [
  | none ↦ none
  | some s ↦ if s.game_id == g && truthy s.team_token then some s else none
]

abbrev pub is_there {ℓ} : {A : Type ℓ} → Option A → Bool
is_there none = false
is_there (some x) = true

abbrev pub role_of : Bool → Bool → RaceRole
role_of true true = both
role_of true false = host
role_of false true = player
role_of false false = nobody

abbrev pub resolve_role : String → Device → RaceRole
resolve_role g d = role_of (is_there (load_host_session g d)) (is_there (load_team_session g d))

abbrev pub is_race : String → RaceRecord → Bool
is_race g r = r.game_id == g

abbrev with_role : Device → RaceRecord → RaceRecord
with_role d r = record r { role = resolve_role r.game_id d }

pub list_my_races : Device → List RaceRecord
list_my_races d = map (with_role d) d.races

pub get_race : String → Device → Option RaceRecord
get_race g d = elim (find (is_race g) d.races) [
  | none ↦ none
  | some r ↦ some (record r { role = resolve_role g d })
]

-- `a ?? b`
abbrev or_else {ℓ} : {A : Type ℓ} → Option A → Option A → Option A
or_else none b = b
or_else (some a) b = some a

abbrev or_value {ℓ} : {A : Type ℓ} → Option A → A → A
or_value none b = b
or_value (some a) b = a

-- `entry.boardName || name`
abbrev name_or : Option String → String → String
name_or none b = b
name_or (some a) b = if truthy a then a else b

unfoldable pub merged : String → RaceEntry → Option RaceRecord → Device → RaceRecord
merged now entry existing d = record {
  game_id = entry.game_id;
  race_code = or_else entry.race_code (elim existing [ none ↦ none | some r ↦ r.race_code ]);
  board_name =
      name_or entry.board_name
        (name_or (elim existing [ none ↦ none | some r ↦ some r.board_name ]) "Untitled race");
  role = resolve_role entry.game_id d;
  status = or_value entry.status (elim existing [ none ↦ RaceStatus.draft | some r ↦ r.status ]);
  mode = or_else entry.mode (elim existing [ none ↦ none | some r ↦ r.mode ]);
  gm_only = or_else entry.gm_only (elim existing [ none ↦ none | some r ↦ r.gm_only ]);
  joined_at = elim existing [ none ↦ now | some r ↦ r.joined_at ];
  last_seen_at = now;
}

-- `splice(index, 1)` at the first record of the game, if any
abbrev pub remove_first : String → List RaceRecord → List RaceRecord
remove_first g [] = []
remove_first g (r ∷ rs) = if is_race g r then rs else r ∷ remove_first g rs

-- `now` is the time of the call.
unfoldable pub remember_race : Bool → String → RaceEntry → Device → Device
unfolding merged
remember_race saved now entry d =
    write_raw saved
      (merged now entry (find (is_race entry.game_id) d.races) d
        ∷ remove_first entry.game_id d.races)
      d

abbrev same_status : RaceStatus → RaceStatus → Bool
same_status RaceStatus.draft RaceStatus.draft = true
same_status RaceStatus.live RaceStatus.live = true
same_status RaceStatus.ended RaceStatus.ended = true
same_status _ _ = false

abbrev is_ended : Option RaceStatus → Bool
is_ended (some RaceStatus.ended) = true
is_ended _ = false

abbrev pub status_changed : Option RaceStatus → RaceRecord → Bool
status_changed none r = false
status_changed (some s) r = not (same_status s r.status)

abbrev pub name_changed : Option String → RaceRecord → Bool
name_changed none r = false
name_changed (some n) r = truthy n && not (n == r.board_name)

abbrev pub touched : String → Option RaceStatus → Option String → RaceRecord → RaceRecord
touched now status name r = record r {
  status = or_value status r.status;
  board_name = name_or name r.board_name;
  last_seen_at = now;
}

-- `current[index] = ...` at the first record of the game
abbrev pub replace_first : String → (RaceRecord → RaceRecord) → List RaceRecord → List RaceRecord
replace_first g f [] = []
replace_first g f (r ∷ rs) = if is_race g r then f r ∷ rs else r ∷ replace_first g f rs

-- From `const record = current[index]` on; without a record nothing is done.
pub touch_found :
    Bool
    → String
    → String
    → Option RaceStatus
    → Option String
    → Device
    → Option RaceRecord
    → Device × Bool
touch_found saved now g status name d none = (d, false)
touch_found saved now g status name d (some r) =
    if not (status_changed status r) && not (name_changed name r)
    then (d, false)
    else let written = write_raw saved (replace_first g (touched now status name) d.races) d in
      if status_changed status r && is_ended status
      then (record written { purges = written.purges ++ g ∷ [] }, true)
      else (written, true)

pub touch_race : Bool → String → String → Option RaceStatus → Option String → Device → Device × Bool
unfolding touch_found
touch_race saved now g status name d =
    touch_found saved now g status name d (find (is_race g) d.races)

-- With what happens to the queue, which is purged once the rest is done.
pub forget_race : Bool → String → Device → Device
forget_race saved g d =
    let written = write_raw saved (filter (λ r. not (is_race g r)) d.races) d in
    record written {
      hosts = remove g written.hosts;
      teams = remove g written.teams;
      purges = written.purges ++ g ∷ [];
    }
