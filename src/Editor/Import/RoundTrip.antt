-- ===== src/Editor/Import/RoundTrip.antt =====
-- An exported board, imported again: buildExportFile and applyImportToDraft of
-- frontend/src/surfaces/editor/boardDraft.ts.
use runway_the_game.Prelude.{
  ℕ, ◌<◌, String, ◌≡◌, refl, sym, ap, ◌∙◌, Bool, true, false, Option, none, some, List, [], ◌∷◌,
  ◌++◌, map, filter, filter_map, includes, Dict, lookup, truthy, or_default, All, All-imp, arith,
}
use mathlib.Core.Path.{subst}
use runway_the_game.Board.{WaypointDraft, RoadDraft, ChallengeDraft}
use runway_the_game.Editor.{EditorDraft, PowerupDraft}
use runway_the_game.Editor.Powerups.{ensure_default_powerups}
use runway_the_game.Editor.Wire.{
  challengeable, text_of, or_some, or_number, wire_waypoint, wire_road, waypoint_rows, road_rows,
  active_challenge_entries, derive_powerup_costs, build_export_file, Building, no_rows,
}
use runway_the_game.Editor.RawFile.{RawWaypoint, RawRoad, RawChallenge}
use runway_the_game.Editor.Import.{
  or_number?, import_waypoint, import_waypoints, import_road, import_roads, powerups_from,
  link_rows, waypoint_by_challenge, challenges_of_rows, apply_import_to_draft, slot_of, name_from,
}
use runway_the_game.Editor.Import.File.{
  raw_waypoint, raw_road, raw_challenge, file_of, WaypointIsFull, RoadIsFull, Fits, IsFull,
  waypoint_row, road_row,
}
use runway_the_game.Editor.Import.Rows.{
  waypoint_rows-rows, road_rows-rows, Says-rows, wire_id, none-some,
}
use runway_the_game.Editor.Import.Links.{
  bare, start, full, raw_road_rows, on_roads, link_rows-waypoints, link_rows-roads,
}
use runway_the_game.Editor.Import.Sorted.{challenges_of_rows-Ready}

kept_again : (k : Option String) (c : Option ChallengeDraft) → Fits k c → or_some k none ≡ k
kept_again none c h = refl
kept_again (some k) none h = rw h refl
kept_again (some k) (some c) h = rw h.0 refl

cons_nil {ℓ} : {A : Type ℓ} {x : A} {xs : List A} → x ∷ xs ≡ [] → ⊥
cons_nil h = subst (λ l. elim l as (λ z. Type 0) [ [] ↦ ⊥ | y ∷ ys ↦ Unit ]) h tt

radius_back :
    (r : ℕ) → 0 < r → or_default (or_number? (some (or_number r 25)) (or_number? none none)) 25 ≡ r
radius_back r h = ground (arith, h)

named : (s : String) (o : Option String) → truthy s ≡ true → text_of (or_some (some s) o) ≡ s
named s o h = rw h refl

module _ (uuid fresh : ℕ → String) where
  import-waypoint :
      (chosen : Dict String) (w : WaypointDraft)
      → WaypointIsFull w
      → import_waypoint w.id (raw_waypoint (wire_waypoint uuid chosen w)) ≡ w
  import-waypoint chosen w h = λ i. record w {
    name = named w.name (some "Waypoint") h.has_name i;
    arrival_radius_m = radius_back w.arrival_radius_m h.has_radius i;
    challenge = sym h.no_challenge i;
    coin_reward = sym h.no_reward i;
  }

  waypoints_back :
      (chosen : Dict String) (ws : List WaypointDraft)
      → All WaypointIsFull ws
      → import_waypoints fresh 0 (map raw_waypoint (map (wire_waypoint uuid chosen) ws)) ≡ (ws, 0)
  unfolding import_waypoints
  waypoints_back chosen [] h = refl
  waypoints_back chosen (w ∷ ws) h =
      rw (h.0.has_id, import_waypoints)
        (λ i. (
          import-waypoint chosen w h.0 i ∷ (waypoints_back chosen ws h.1 i).0,
          (waypoints_back chosen ws h.1 i).1,
        ))

  import-road :
      (chosen : Dict String) (r : RoadDraft)
      → RoadIsFull r
      → ((id : String) → lookup r.id chosen ≡ some id → r.challenge_id ≡ some id)
      → import_road r.id (raw_road (wire_road uuid chosen r)) ≡ bare r
  import-road chosen r h says =
      let on_wire = wire_id r.challenge_id (lookup r.id chosen) r.challenge h.fits says in
      λ i. record r {
        waypoint_id_a = named r.waypoint_id_a (or_some (some r.waypoint_id_a) none) h.has_a i;
        waypoint_id_b = named r.waypoint_id_b (or_some (some r.waypoint_id_b) none) h.has_b i;
        challenge_id =
            (ap (λ o. or_some o none) on_wire ∙ kept_again r.challenge_id r.challenge h.fits) i;
        challenge = none;
      }

  roads_back :
      (chosen : Dict String) (rs : List RoadDraft)
      → All RoadIsFull rs
      → All (λ r. (id : String) → lookup r.id chosen ≡ some id → r.challenge_id ≡ some id) rs
      → import_roads fresh 0 (map raw_road (map (wire_road uuid chosen) rs)) ≡ map bare rs
  unfolding import_roads
  roads_back chosen [] h says = refl
  roads_back chosen (r ∷ rs) h says =
      rw (h.0.has_id, import_roads)
        (λ i. import-road chosen r h.0 says.0 i ∷ roads_back chosen rs h.1 says.1 i)

powerups_back :
    (ps : List PowerupDraft) (costs : Dict ℕ)
    → ensure_default_powerups ps ≡ ps
    → powerups_from (some ps) (some costs) ≡ ps
unfolding powerups_from ensure_default_powerups
powerups_back [] costs h = absurd (cons_nil h)
powerups_back (p ∷ ps) costs h = h

entries_active :
    (valid : List String) (es : List (String × ChallengeDraft))
    → All (λ e. includes e.0 valid ≡ true) es
    → filter (λ e. includes e.0 valid) es ≡ es
entries_active valid [] h = refl
entries_active valid (e ∷ es) h = rw h.0 (ap (λ l. e ∷ l) (entries_active valid es h.1))

raw_rows :
    (es : List (String × ChallengeDraft)) (rs : List RoadDraft)
    → map raw_challenge (map waypoint_row es ++ filter_map road_row rs)
      ≡ map (λ e. raw_challenge (waypoint_row e)) es ++ raw_road_rows rs
raw_rows [] rs = refl
raw_rows (e ∷ es) rs = ap (λ l. raw_challenge (waypoint_row e) ∷ l) (raw_rows es rs)

slots : (rs : List RoadDraft) → map slot_of (map bare rs) ≡ map start rs
slots [] = refl
slots (r ∷ rs) = ap (λ l. start r ∷ l) (slots rs)

kept : (rs : List RoadDraft) → map (λ s. s.1) (map full rs) ≡ rs
kept [] = refl
kept (r ∷ rs) = ap (λ l. r ∷ l) (kept rs)

named_from : (s t : String) → truthy s ≡ true → name_from (some s) t ≡ s
named_from s t h = rw h refl

module _ (uuid fresh : ℕ → String) (d : EditorDraft) (h : IsFull d) where
  active : active_challenge_entries d ≡ d.challenges
  unfolding active_challenge_entries
  active =
      entries_active (challengeable d.waypoints) d.challenges
        (All-imp d.challenges (λ e k. k.is_active) h.entries_full)

  -- What the export holds.
  abbrev at_waypoints : Building
  at_waypoints = waypoint_rows uuid (active_challenge_entries d) (no_rows uuid)

  abbrev at_roads : Building
  at_roads = road_rows uuid d.roads (record at_waypoints { chosen = [] })

  abbrev sent_waypoints : List RawWaypoint
  sent_waypoints = map raw_waypoint (map (wire_waypoint uuid at_waypoints.chosen) d.waypoints)

  abbrev sent_roads : List RawRoad
  sent_roads = map raw_road (map (wire_road uuid at_roads.chosen) d.roads)

  rows_written : at_roads.rows ≡ map waypoint_row d.challenges ++ filter_map road_row d.roads
  rows_written =
      road_rows-rows uuid d.roads (record at_waypoints { chosen = [] }) h.roads_full
      ∙ ap (λ es. (waypoint_rows uuid es (no_rows uuid)).rows ++ filter_map road_row d.roads) active
      ∙ ap (λ l. l ++ filter_map road_row d.roads)
          (waypoint_rows-rows uuid d.challenges (no_rows uuid)
            (All-imp d.challenges (λ e k. k.has_uuid) h.entries_full))

  waypoints_read : import_waypoints fresh 0 sent_waypoints ≡ (d.waypoints, 0)
  waypoints_read = waypoints_back uuid fresh at_waypoints.chosen d.waypoints h.waypoints_full

  roads_read : import_roads fresh 0 sent_roads ≡ map bare d.roads
  roads_read = roads_back uuid fresh at_roads.chosen d.roads h.roads_full (
      All-imp d.roads
        (λ r same.
          Says-rows uuid r d.roads (record at_waypoints { chosen = [] }) h.roads_full same
            (λ id e. absurd (none-some e)))
        h.same_ids)

  abbrev marked : List (RawChallenge × Bool)
  marked = map (λ e. (raw_challenge (waypoint_row e), false)) d.challenges ++ on_roads d.roads

  linked :
      link_rows
        (map raw_challenge at_roads.rows)
        (map slot_of (import_roads fresh (import_waypoints fresh 0 sent_waypoints).1 sent_roads))
      ≡ (map full d.roads, marked)
  linked =
      ap
        (λ w.
          link_rows (map raw_challenge at_roads.rows)
            (map slot_of (import_roads fresh w.1 sent_roads)))
        waypoints_read
      ∙ ap (λ rs. link_rows (map raw_challenge at_roads.rows) (map slot_of rs)) roads_read
      ∙ ap (λ ss. link_rows (map raw_challenge at_roads.rows) ss) (slots d.roads)
      ∙ ap (λ cs. link_rows (map raw_challenge cs) (map start d.roads)) rows_written
      ∙ ap (λ cs. link_rows cs (map start d.roads)) (raw_rows d.challenges d.roads)
      ∙ link_rows-waypoints d.challenges (raw_road_rows d.roads) d.roads
          (All-imp d.challenges (λ e k. (k.has_key, k.no_road, k.no_road_challenge)) h.entries_full)
      ∙ ap (λ l. (l.0, map (λ e. (raw_challenge (waypoint_row e), false)) d.challenges ++ l.1))
          (link_rows-roads d.roads h.roads_full h.own_challenges [])

  sorted :
      (ws : List WaypointDraft × ℕ)
      → ws ≡ (d.waypoints, 0)
      → (ms : List (RawChallenge × Bool)) → ms ≡ marked
      → challenges_of_rows ws.0 (waypoint_by_challenge sent_waypoints ws.0 []) ms ≡ d.challenges
  sorted ws e ms k =
      ap (λ w. challenges_of_rows w.0 (waypoint_by_challenge sent_waypoints w.0 []) ms) e
      ∙ ap
          (λ m.
            challenges_of_rows d.waypoints (waypoint_by_challenge sent_waypoints d.waypoints []) m)
          k
      ∙ challenges_of_rows-Ready d.waypoints (waypoint_by_challenge sent_waypoints d.waypoints [])
          d.challenges (raw_road_rows d.roads)
          (All-imp d.challenges (λ e k. (k.has_key, k.is_active, k.has_uuid, k.priced))
            h.entries_full)
          h.entries_apart

  -- A full draft that is exported, whose file is imported over any draft, is that draft again. A full
  -- draft has a name; each waypoint has an id, a name and a radius, and no challenge and no coin reward
  -- of its own, which are not in a file; each road has an id and two ends,
  -- and a challenge of it has its prices and the id that the road names, which no later road names;
  -- roads of one id name one challenge; each challenge of a waypoint has a UUID and its prices, its
  -- waypoint is not the finish, has no other challenge, and shares its id with no road, nor the
  -- challenge with a road's; and the powerups are a catalog.
  pub apply_import_to_draft-build_export_file :
      (prev : EditorDraft)
      → apply_import_to_draft fresh prev (file_of (build_export_file uuid d)) ≡ d
  unfolding apply_import_to_draft build_export_file
  apply_import_to_draft-build_export_file prev = λ i. record {
    board_name = named_from d.board_name prev.board_name h.has_name i;
    waypoints = (waypoints_read i).0;
    roads = (ap (λ l. map (λ s. s.1) l.0) linked ∙ kept d.roads) i;
    challenges =
        sorted (import_waypoints fresh 0 sent_waypoints) waypoints_read
          (link_rows (map raw_challenge at_roads.rows) (
            map slot_of
              (import_roads fresh (import_waypoints fresh 0 sent_waypoints).1 sent_roads))).1
          (ap (λ l. l.1) linked) i;
    roadblock_cards = d.roadblock_cards;
    curse_cards = d.curse_cards;
    powerups = powerups_back d.powerups (derive_powerup_costs d.powerups) h.catalog i;
    rules = d.rules;
  }
