-- ===== src/Editor/Loading/Imported.antt =====
-- Where an imported board has its challenges: applyImportToDraft of
-- frontend/src/surfaces/editor/boardDraft.ts.
use runway_the_game.Prelude.{
  ℕ, String, ◌==◌, ◌≡◌, ◌≢◌, refl, includes-append, inl, inr, Bool, true, false, ◌&&◌, not, Option,
  none, some, List, [], ◌∷◌, ◌++◌, map, filter, includes, Dict, lookup, insert, truthy, or_default,
  All, All-kept, arith, eq_iff, Bool-cases, if◌then◌else◌,
}
use mathlib.Core.Path.{subst}
use mathlib.Core.List.{append_assoc}
use runway_the_game.Board.{WaypointDraft, ChallengeDraft}
use runway_the_game.Editor.{EditorDraft}
use runway_the_game.Editor.Wire.{challengeable, text_of, or_some}
use runway_the_game.Editor.Import.{
  as_challenge_draft, assign, set_aside, known_in, Sorting, sort_row, sort_rows, fill,
  waypoint_by_challenge, challenges_of_rows, with_challenges, link_rows, slot_of, no_sorting,
  apply_import_to_draft,
}
use runway_the_game.Editor.RawFile.{
  RawChallenge, RawWaypoint, RawChallenges, absent, keyed, rows, RawBoardFile,
}
use runway_the_game.Editor.Import.Rows.{none-some}
use runway_the_game.Editor.Loading.Placed.{IsPlaced, Within, Within-insert}

module _ (valid : List String) (by_cid : Dict String)
    (safe : All (λ e. includes e.1 valid ≡ true) by_cid) where
  found_valid :
      (k : String) (d : Dict String) (w : String)
      → All (λ e. includes e.1 valid ≡ true) d
      → lookup k d ≡ some w
      → includes w valid ≡ true
  found_valid k [] w h e = ground (arith, e)
  found_valid k ((j, v) ∷ d) w h e = elim (Bool-cases (j == k)) [
    | inl t ↦ ground (arith, t, e, h.0)
    | inr t ↦ found_valid k d w h.1 (ground (arith, t, e))
  ]

  if-sorted :
      (b : Bool) (x y : Sorting)
      → (b ≡ true → Within valid x.parsed)
      → Within valid y.parsed
      → Within valid (if b then x else y).parsed
  if-sorted true x y h k = h refl
  if-sorted false x y h k = k

  if_found :
      (b : Bool) (o : Option String)
      → ((w : String) → o ≡ some w → includes w valid ≡ true)
      → (w : String) → (if b then o else none) ≡ some w
      → includes w valid ≡ true
  if_found true o h w e = h w e
  if_found false o h w e = absurd (none-some e)

  by_id-Within :
      (o : Option String) (c : RawChallenge) (s : Sorting)
      → ((w : String) → o ≡ some w → includes w valid ≡ true)
      → Within valid s.parsed
      → Within valid
          (elim o as (λ x. Sorting) [
            | none ↦ set_aside c s
            | some w ↦ if includes w s.assigned then s else assign w c s
          ]).parsed
  by_id-Within none c s h k = k
  by_id-Within (some w) c s h k =
      if-sorted (includes w s.assigned) s (assign w c s) (λ e. k)
        (Within-insert valid w (as_challenge_draft c) s.parsed (h w refl) k)

  known_valid :
      (o : Option String) (b : Bool)
      → (known_in valid o && b) ≡ true
      → includes (text_of o) valid ≡ true
  known_valid none b e = ground (arith, e)
  known_valid (some w) b e = ground (arith, e)

  sort_row-Within :
      (c : RawChallenge) (s : Sorting)
      → Within valid s.parsed
      → Within valid (sort_row valid by_cid c s).parsed
  unfolding sort_row
  sort_row-Within c s w =
      let target = or_some c.waypoint_id (or_some c.waypoint_id_camel c.road_id) in
      if-sorted (truthy (text_of c.road_id) && not (known_in valid c.road_id)) s _ (λ e. w)
        (if-sorted (known_in valid target && not (known_in s.assigned target))
          (assign (text_of target) c s) _
          (λ e.
            Within-insert valid (text_of target) (as_challenge_draft c) s.parsed
              (known_valid target _ e) w)
          (by_id-Within (if truthy (text_of c.id) then lookup (text_of c.id) by_cid else none) c s
            (if_found (truthy (text_of c.id)) (lookup (text_of c.id) by_cid)
              (λ v. found_valid (text_of c.id) by_cid v safe))
            w))

  sort_rows-Within :
      (cs : List (RawChallenge × Bool)) (s : Sorting)
      → Within valid s.parsed
      → Within valid (sort_rows valid by_cid cs s).parsed
  unfolding sort_rows
  sort_rows-Within [] s w = w
  sort_rows-Within ((c, true) ∷ cs) s w = sort_rows-Within cs s w
  sort_rows-Within ((c, false) ∷ cs) s w =
      sort_rows-Within cs (sort_row valid by_cid c s) (sort_row-Within c s w)

fill-Within :
    (valid ws : List String) (cs : List RawChallenge) (d : Dict ChallengeDraft)
    → All (λ w. includes w valid ≡ true) ws
    → Within valid d
    → Within valid (fill ws cs d)
unfolding fill
fill-Within valid [] cs d h w = w
fill-Within valid (x ∷ ws) [] d h w = w
fill-Within valid (x ∷ ws) (c ∷ cs) d h w =
    fill-Within valid ws cs (insert x (as_challenge_draft c) d) h.1
      (Within-insert valid x (as_challenge_draft c) d h.0 w)

-- Every text of a list is in it, and a kept one is one of the list.
each_in : (xs ys : List String) → All (λ x. includes x (ys ++ xs) ≡ true) xs
each_in [] ys = tt
each_in (x ∷ xs) ys = (
  ground (arith, includes-append x ys (x ∷ xs), eq_iff x x),
  subst (λ l. All (λ z. includes z l ≡ true) xs) (append_assoc ys (x ∷ []) xs)
      (each_in xs (ys ++ x ∷ [])),
)

active_in :
    (valid : List String) (ws : List WaypointDraft)
    → All (λ x. includes x valid ≡ true) (challengeable ws)
    → All (λ w. w.is_finish ≡ false → includes w.id valid ≡ true) ws
active_in valid [] h = tt
active_in valid (w ∷ ws) h = elim (Bool-cases w.is_finish) [
  | inl e ↦
      let skipped : challengeable (w ∷ ws) ≡ challengeable ws = rw e refl in
      (
        (λ f. ground (arith, e, f)),
        active_in valid ws (subst (All (λ x. includes x valid ≡ true)) skipped h),
      )
  | inr e ↦
      let kept : challengeable (w ∷ ws) ≡ w.id ∷ challengeable ws = rw e refl in
      let all = subst (All (λ x. includes x valid ≡ true)) kept h in
      ((λ f. all.0), active_in valid ws all.1)
]

Values-insert :
    (valid : List String) (k v : String) (d : Dict String)
    → includes v valid ≡ true
    → All (λ e. includes e.1 valid ≡ true) d
    → All (λ e. includes e.1 valid ≡ true) (insert k v d)
Values-insert valid k v [] h w = (h, tt)
Values-insert valid k v ((j, x) ∷ d) h w = elim (Bool-cases (j == k)) [
  | inl e ↦ rw e (h, w.1)
  | inr e ↦ rw e (w.0, Values-insert valid k v d h w.1)
]

-- One waypoint of the file.
one_more :
    (valid : List String) (o : Option String) (w : WaypointDraft) (d : Dict String)
    → (w.is_finish ≡ false → includes w.id valid ≡ true)
    → All (λ e. includes e.1 valid ≡ true) d
    → All
        (λ e. includes e.1 valid ≡ true)
        (elim o as (λ x. Dict String) [
          | none ↦ d
          | some cid ↦ if w.is_finish then d else insert cid w.id d
        ])
one_more valid none w d h k = k
one_more valid (some cid) w d h k = elim (Bool-cases w.is_finish) [
  | inl e ↦ rw e k
  | inr e ↦ rw e (Values-insert valid cid w.id d (h e) k)
]

waypoint_by_challenge-Within :
    (valid : List String) (rs : List RawWaypoint) (ws : List WaypointDraft) (d : Dict String)
    → All (λ w. w.is_finish ≡ false → includes w.id valid ≡ true) ws
    → All (λ e. includes e.1 valid ≡ true) d
    → All (λ e. includes e.1 valid ≡ true) (waypoint_by_challenge rs ws d)
unfolding waypoint_by_challenge
waypoint_by_challenge-Within valid [] ws d h k = k
waypoint_by_challenge-Within valid (r ∷ rs) [] d h k = k
waypoint_by_challenge-Within valid (r ∷ rs) (w ∷ ws) d h k =
    waypoint_by_challenge-Within valid rs ws _ h.1
      (one_more valid (or_some r.challenge_id (or_some r.challenge_id_camel none)) w d h.0 k)

kept-pass {ℓ} : {A : Type ℓ} (p : A → Bool) (xs : List A) → All (λ x. p x ≡ true) (filter p xs)
kept-pass p [] = tt
kept-pass p (x ∷ xs) = elim (Bool-cases (p x)) [
  | inl e ↦ rw e (e, kept-pass p xs)
  | inr e ↦ rw e (kept-pass p xs)
]

with_challenges-IsPlaced :
    (raw : Option (List RawWaypoint)) (cs : RawChallenges) (d : EditorDraft)
    → cs ≢ absent
    → IsPlaced (with_challenges raw cs d)
unfolding challenges_of_rows link_rows waypoint_by_challenge
with_challenges-IsPlaced raw absent d h = absurd (h refl)
with_challenges-IsPlaced raw (keyed cs) d h =
    kept-pass (λ e. includes e.0 (challengeable d.waypoints)) cs
with_challenges-IsPlaced raw (rows cs) d h =
    let valid = challengeable d.waypoints in
    let by_cid = waypoint_by_challenge (or_default raw []) d.waypoints [] in
    let marked = (link_rows cs (map slot_of d.roads)).1 in
    let s = sort_rows valid by_cid marked no_sorting in
    let each = each_in valid [] in
    fill-Within valid (filter (λ w. not (includes w s.assigned)) valid) s.unassigned s.parsed
      (All-kept (λ w. includes w valid ≡ true) (λ w. not (includes w s.assigned)) valid each)
      (sort_rows-Within valid by_cid
        (waypoint_by_challenge-Within valid (or_default raw []) d.waypoints []
          (active_in valid d.waypoints each) tt)
        marked no_sorting tt)

-- Each challenge of the draft that a file is imported into is on a waypoint of the draft that is not
-- the finish, when the file has challenges, as rows or by waypoint.
pub apply_import_to_draft-IsPlaced :
    (fresh : ℕ → String) (prev : EditorDraft) (file : RawBoardFile)
    → file.challenges ≢ absent
    → IsPlaced (apply_import_to_draft fresh prev file)
unfolding apply_import_to_draft
apply_import_to_draft-IsPlaced fresh prev file h =
    with_challenges-IsPlaced file.waypoints file.challenges _ h
