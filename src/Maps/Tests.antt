-- ===== src/Maps/Tests.antt =====
-- A map that is saved, renamed and removed.
use runway_the_game.Prelude.{String, true, none, some, List, [], ◌∷◌, Option, ◌≡◌}
use runway_the_game.Maps.Tokens.{
  MapCall, saving, syncing, removing, capturing, perform_all, told_all, tokens_of,
  tokens_of-perform_all,
}

abbrev in_hash : String → Option String
in_hash k = some "t2"

abbrev calls : List MapCall
calls =
    saving "10:00"
      (record { map_id = "m1"; edit_token = "t1"; name = some "Old town"; is_listed = none })
    ∷ syncing "m1" (record { name = none; is_listed = some true })
    ∷ capturing "10:01" (some in_hash) "m2"
    ∷ removing "m1"
    ∷ []

tokens_of-perform_all_example : tokens_of (perform_all calls []) ≡ told_all calls (tokens_of [])
tokens_of-perform_all_example = tokens_of-perform_all calls []
