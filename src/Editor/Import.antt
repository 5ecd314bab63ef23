-- ===== src/Editor/Import.antt =====
-- applyImportToDraft of frontend/src/surfaces/editor/boardDraft.ts: a file that the user picked, read
-- into a draft. A field that is missing, or not of its type, is `none`; the k-th call of
-- generateUUID returns `uuid k`. The road objects that a file without roads shares with the previous
-- draft, and that the source writes to, are copies here.
pub mod File
pub mod Rows
pub mod Links
pub mod Sorted
pub mod RoundTrip
mod Tests
use runway_the_game.Prelude.{
  ℕ, suc, ◌+◌, ltb, String, ◌==◌, Bool, true, false, ◌&&◌, ◌||◌, not, Option, none, some, List, [],
  ◌∷◌, ◌++◌, map, filter, any, find, includes, length, Dict, lookup, insert, truthy, or_default,
  if◌then◌else◌,
}
use runway_the_game.Prelude.Int.{ℤ, pos}
use runway_the_game.Board.{WaypointDraft, RoadDraft, ChallengeDraft, Rubric}
use runway_the_game.Editor.{
  EditorDraft, CardDraft, PowerupDraft, RulesetDraft, default_arrival_radius_m, default_coin_reward,
  default_veto_penalty_seconds,
}
use runway_the_game.Editor.Powerups.{ensure_default_powerups, default_powerups}
use runway_the_game.Editor.RawFile.{
  RawWaypoint, RawRoad, RawRubric, RawChallenge, RawChallenges, absent, rows, keyed, RawBoardFile,
}
use runway_the_game.Editor.Wire.{challengeable, or_some, text_of}

-- `a ?? b`
abbrev pub or_else {ℓ} : {A : Type ℓ} → Option A → Option A → Option A
or_else none b = b
or_else (some a) b = some a

-- `a || b` on optional numbers.
abbrev pub or_number? : Option ℕ → Option ℕ → Option ℕ
or_number? none b = b
or_number? (some n) b = if ltb 0 n then some n else b

abbrev rubric_of : Option RawRubric → Rubric
rubric_of none = record { must_show = []; fails_if = []; acceptable_ambiguity = "" }
rubric_of (some r) = record {
  must_show = or_default r.must_show [];
  fails_if = or_default r.fails_if [];
  acceptable_ambiguity = text_of r.acceptable_ambiguity;
}

pub as_challenge_draft : RawChallenge → ChallengeDraft
as_challenge_draft c = record {
  id = c.id;
  prompt = text_of c.prompt;
  rubric = rubric_of c.rubric;
  coin_reward = some (or_default c.coin_reward default_coin_reward);
  veto_penalty_seconds = some (or_default c.veto_penalty_seconds default_veto_penalty_seconds);
}

abbrev pub import_waypoint : String → RawWaypoint → WaypointDraft
import_waypoint id w = record {
  id = id;
  name = text_of (or_some w.name (some "Waypoint"));
  lat = or_default w.lat (pos 0);
  lon = or_default w.lon (pos 0);
  arrival_radius_m =
      or_default (or_number? w.arrival_radius_m (or_number? w.arrival_radius_m_camel none))
        default_arrival_radius_m;
  is_start = or_default (or_else w.is_start_camel w.is_start) false;
  is_finish = or_default (or_else w.is_finish_camel w.is_finish) false;
  challenge = none;
  coin_reward = none;
}

abbrev pub import_road : String → RawRoad → RoadDraft
import_road id s = record {
  id = id;
  waypoint_id_a =
      text_of (or_some s.waypoint_id_a (or_some s.waypoint_a (or_some s.waypoint_id_a_camel none)));
  waypoint_id_b =
      text_of (or_some s.waypoint_id_b (or_some s.waypoint_b (or_some s.waypoint_id_b_camel none)));
  challenge_id = or_some s.challenge_id (or_some s.challenge_id_camel none);
  challenge = none;
}

module _ (uuid : ℕ → String) where
  unfoldable pub import_waypoints : ℕ → List RawWaypoint → List WaypointDraft × ℕ
  import_waypoints calls [] = ([], calls)
  import_waypoints calls (w ∷ ws) = elim (or_some w.id none) [
    | some id ↦ let rest = import_waypoints calls ws in (import_waypoint id w ∷ rest.0, rest.1)
    | none ↦
        let rest = import_waypoints (suc calls) ws in
        (import_waypoint (uuid calls) w ∷ rest.0, rest.1)
  ]

  unfoldable pub import_roads : ℕ → List RawRoad → List RoadDraft
  import_roads calls [] = []
  import_roads calls (s ∷ ss) = elim (or_some s.id none) [
    | some id ↦ import_road id s ∷ import_roads calls ss
    | none ↦ import_road (uuid calls) s ∷ import_roads (suc calls) ss
  ]

-- A road of the draft, with the challenge id that it had before the loop: the maps are built then.
abbrev pub Slot : Type 0
Slot = Option String × RoadDraft

abbrev pub slot_of : RoadDraft → Slot
slot_of r = (r.challenge_id, r)

abbrev pub has_text : String → Option String → Bool
has_text s none = false
has_text s (some t) = t == s

-- `roadsByChallengeID.get(id)` and `roadsByID.get(id)` are the last road that fits.
abbrev pub by_challenge : String → Slot → Bool
by_challenge id (kept, r) = has_text id kept

abbrev pub by_id : String → Slot → Bool
by_id id (kept, r) = r.id == id

pub update_last {ℓ} : {A : Type ℓ} → (A → Bool) → (A → A) → List A → List A
update_last p f [] = []
update_last p f (x ∷ xs) =
    let rest = update_last p f xs in if any p xs then x ∷ rest else if p x then f x ∷ xs else x ∷ xs

abbrev pub attach : RawChallenge → Slot → Slot
attach c (kept, r) = (
  kept,
  record r {
    challenge_id = or_some r.challenge_id (or_some c.id r.challenge_id);
    challenge = some (as_challenge_draft c);
  },
)

abbrev pub any_for : (String → Slot → Bool) → Option String → List Slot → Bool
any_for p none roads = false
any_for p (some id) roads = truthy id && any (p id) roads

-- A row that belongs to a road is put on it; with whether it does.
pub link_row : RawChallenge → List Slot → List Slot × Bool
unfolding update_last as_challenge_draft
link_row c roads =
    let target = or_some c.waypoint_id c.waypoint_id_camel in
    if any_for by_challenge c.id roads
    then (update_last (by_challenge (text_of c.id)) (attach c) roads, true)
    else if any_for by_id c.road_id roads
    then (update_last (by_id (text_of c.road_id)) (attach c) roads, true)
    else if any_for by_id target roads
    then (update_last (by_id (text_of target)) (attach c) roads, true)
    else (roads, false)

-- Each row with whether it went to a road.
unfoldable pub link_rows : List RawChallenge → List Slot → List Slot × List (RawChallenge × Bool)
unfolding link_row
link_rows [] roads = (roads, [])
link_rows (c ∷ cs) roads =
    let linked = link_row c roads in
    let rest = link_rows cs linked.0 in (rest.0, (c, linked.1) ∷ rest.1)

-- `rawWpByChallengeId`: the rows of the file, with the waypoints of the draft at their places.
unfoldable pub waypoint_by_challenge :
    List RawWaypoint → List WaypointDraft → Dict String → Dict String
waypoint_by_challenge [] ws d = d
waypoint_by_challenge (r ∷ rs) [] d = d
waypoint_by_challenge (r ∷ rs) (w ∷ ws) d =
    waypoint_by_challenge rs ws (elim (or_some r.challenge_id (or_some r.challenge_id_camel none)) [
      | none ↦ d
      | some cid ↦ if w.is_finish then d else insert cid w.id d
    ])

pub record Sorting : Type 0 where
  pub parsed : Dict ChallengeDraft
  pub assigned : List String
  pub unassigned : List RawChallenge

abbrev pub assign : String → RawChallenge → Sorting → Sorting
assign w c s = record s {
  parsed = insert w (as_challenge_draft c) s.parsed;
  assigned = s.assigned ++ w ∷ [];
}

abbrev pub set_aside : RawChallenge → Sorting → Sorting
set_aside c s = record s { unassigned = s.unassigned ++ c ∷ [] }

abbrev pub known_in : List String → Option String → Bool
known_in xs none = false
known_in xs (some x) = truthy x && includes x xs

-- One row that no road took.
unfoldable pub sort_row : List String → Dict String → RawChallenge → Sorting → Sorting
unfolding as_challenge_draft
sort_row valid by_cid c s =
    let target = or_some c.waypoint_id (or_some c.waypoint_id_camel c.road_id) in
    if truthy (text_of c.road_id) && not (known_in valid c.road_id)
    then s
    else if known_in valid target && not (known_in s.assigned target)
    then assign (text_of target) c s
    else elim (if truthy (text_of c.id) then lookup (text_of c.id) by_cid else none) [
      | none ↦ set_aside c s
      | some w ↦ if includes w s.assigned then s else assign w c s
    ]

unfoldable pub sort_rows :
    List String → Dict String → List (RawChallenge × Bool) → Sorting → Sorting
unfolding sort_row
sort_rows valid by_cid [] s = s
sort_rows valid by_cid ((c, on_road) ∷ cs) s =
    sort_rows valid by_cid cs (if on_road then s else sort_row valid by_cid c s)

-- The rows set aside go to the waypoints that are left, in order.
unfoldable pub fill : List String → List RawChallenge → Dict ChallengeDraft → Dict ChallengeDraft
unfolding as_challenge_draft
fill [] cs parsed = parsed
fill (w ∷ ws) [] parsed = parsed
fill (w ∷ ws) (c ∷ cs) parsed = fill ws cs (insert w (as_challenge_draft c) parsed)

abbrev pub no_sorting : Sorting
no_sorting = record { parsed = []; assigned = []; unassigned = [] }

unfoldable pub challenges_of_rows :
    List WaypointDraft → Dict String → List (RawChallenge × Bool) → Dict ChallengeDraft
unfolding sort_rows fill
challenges_of_rows ws by_cid marked =
    let s = sort_rows (challengeable ws) by_cid marked no_sorting in
    fill (filter (λ w. not (includes w s.assigned)) (challengeable ws)) s.unassigned s.parsed

abbrev priced_by : Dict ℕ → PowerupDraft → PowerupDraft
priced_by costs p = record p { cost = or_default (lookup p.id costs) p.cost }

-- Powerups from a board or a file: full definitions, legacy cost map, or neither.
unfoldable pub powerups_from : Option (List PowerupDraft) → Option (Dict ℕ) → List PowerupDraft
unfolding ensure_default_powerups
powerups_from (some (p ∷ ps)) costs = ensure_default_powerups (p ∷ ps)
powerups_from _ none = ensure_default_powerups []
powerups_from _ (some costs) = ensure_default_powerups (map (priced_by costs) default_powerups)

abbrev pub name_from : Option String → String → String
name_from none old = old
name_from (some n) old = if truthy n then n else old

-- The waypoints, and the calls made of generateUUID.
abbrev pub waypoints_from :
    (ℕ → String) → Option (List RawWaypoint) → List WaypointDraft → List WaypointDraft × ℕ
unfolding import_waypoints
waypoints_from uuid none old = (old, 0)
waypoints_from uuid (some ws) old = import_waypoints uuid 0 ws

abbrev pub roads_from : (ℕ → String) → ℕ → Option (List RawRoad) → List RoadDraft → List RoadDraft
unfolding import_roads
roads_from uuid calls none old = old
roads_from uuid calls (some ss) old = import_roads uuid calls ss

abbrev pub with_challenges : Option (List RawWaypoint) → RawChallenges → EditorDraft → EditorDraft
unfolding link_rows challenges_of_rows waypoint_by_challenge
with_challenges raw absent d = d
with_challenges raw (keyed cs) d = record d {
  challenges = filter (λ e. includes e.0 (challengeable d.waypoints)) cs;
}
with_challenges raw (rows cs) d =
    let linked = link_rows cs (map slot_of d.roads) in
    record d {
      roads = map (λ s. s.1) linked.0;
      challenges =
          challenges_of_rows d.waypoints (waypoint_by_challenge (or_default raw []) d.waypoints [])
            linked.1;
    }

unfoldable pub apply_import_to_draft : (ℕ → String) → EditorDraft → RawBoardFile → EditorDraft
unfolding waypoints_from roads_from with_challenges powerups_from
apply_import_to_draft uuid prev file =
    let ws = waypoints_from uuid file.waypoints prev.waypoints in
    let d = with_challenges file.waypoints file.challenges (record prev {
      board_name = name_from file.name prev.board_name;
      waypoints = ws.0;
      roads = roads_from uuid ws.1 file.roads prev.roads;
    }) in
    record d {
      roadblock_cards =
          or_default
            (or_else file.roadblock_cards (or_else file.roadblock_cards_camel file.roadblock_deck))
            prev.roadblock_cards;
      curse_cards =
          or_default (or_else file.curse_cards (or_else file.curse_cards_camel file.curse_deck))
            prev.curse_cards;
      powerups = powerups_from file.powerups file.powerup_costs;
      rules = or_default file.rules prev.rules;
    }
