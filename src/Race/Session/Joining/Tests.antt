-- ===== src/Race/Session/Joining/Tests.antt =====
-- An invite link for a device that has no session of the race.
use runway_the_game.Prelude.{String, ◌==◌, true, none, some, [], ◌∷◌, joined, Bool}
use runway_the_game.Race.Session.{Device}
use runway_the_game.Race.Session.Joining.{JoinTarget, link, unreachable, resolve_join_target}
use runway_the_game.Race.Session.Joining.Kept.{Joins, resolve_join_target-Joins}

abbrev new_device : Device
new_device = record { races = []; hosts = []; teams = []; purges = [] }

abbrev ours : String → Bool
ours base = base == "https://race.example"

abbrev address : String → String → String
address game base = joined ("/join/" ∷ game ∷ "?api=" ∷ base ∷ [])

abbrev an_invite : JoinTarget
an_invite = link (record {
  game_id = "g1";
  api_base = some "https://race.example";
  team_token = some "t";
  team_id = some "red";
  slot_index = none;
  team_name = none;
})

resolve_join_target-Joins_example :
    Joins ours "https://runway.app" address unreachable an_invite new_device (
      resolve_join_target ours "https://runway.app" address true true "10:00" unreachable an_invite
        new_device)
resolve_join_target-Joins_example =
    resolve_join_target-Joins ours "https://runway.app" address true "10:00" unreachable an_invite
      new_device
