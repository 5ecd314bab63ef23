-- ===== src/Race/Session/Tests.antt =====
-- The race index on concrete calls.
use runway_the_game.Prelude.{
  String, ◌==◌, if◌then◌else◌, Option, ◌≡◌, refl, true, none, some, List, [], ◌∷◌, arith, map,
}
use runway_the_game.Projection.{RaceStatus}
use runway_the_game.Race.Session.{Device, RaceEntry, remember_race, touch_race, touch_found, merged}
use runway_the_game.Race.Session.Index
use runway_the_game.Race.Session.Refresh.{
  GameAnswer, Kept, refresh_race_statuses, refresh_race_statuses-Kept,
}

abbrev new_device : Device
new_device = record { races = []; hosts = []; teams = []; purges = [] }

new_device-IsIndex : Index.IsIndex new_device
new_device-IsIndex = (omega arith, tt)

abbrev entry : String → RaceEntry
entry g = record {
  game_id = g;
  race_code = none;
  board_name = none;
  status = none;
  mode = none;
  gm_only = none;
}

abbrev calls : List Index.IndexCall
calls =
    Index.IndexCall.remember true "10:00" (entry "a")
    ∷ Index.IndexCall.remember true "10:01" (entry "b")
    ∷ Index.IndexCall.remember true "10:02" (entry "a")
    ∷ Index.IndexCall.touch true "10:03" "b" (some RaceStatus.ended) none
    ∷ []

remembered : map (λ r. r.game_id) (Index.perform_all calls new_device).races ≡ "a" ∷ "b" ∷ []
unfolding Index.perform remember_race touch_race touch_found merged
remembered = refl

purged : (Index.perform_all calls new_device).purges ≡ "b" ∷ []
unfolding Index.perform remember_race touch_race touch_found merged
purged = refl

perform_all-IsIndex_example : Index.IsIndex (Index.perform_all calls new_device)
perform_all-IsIndex_example = Index.perform_all-IsIndex calls new_device new_device-IsIndex

-- The server knows the race "a", which is live.
abbrev answers : String → Option GameAnswer
answers g =
    if g == "a"
    then some (record { status = RaceStatus.live; board_name = none; race_code = some "BCDFGH" })
    else none

refresh_race_statuses-Kept_example :
    Kept
      (Index.perform_all calls new_device)
      (refresh_race_statuses true "10:04" answers (Index.perform_all calls new_device))
refresh_race_statuses-Kept_example =
    refresh_race_statuses-Kept true "10:04" answers (Index.perform_all calls new_device)
      (Index.perform_all-IsIndex calls new_device new_device-IsIndex)
