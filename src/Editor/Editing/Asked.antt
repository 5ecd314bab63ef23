-- ===== src/Editor/Editing/Asked.antt =====
-- What the operations of frontend/src/surfaces/editor/useWaypointEditing.ts do not lose unasked.
use runway_the_game.Prelude.{
  ◌≤◌, String, ◌==◌, ◌≡◌, refl, sym, ap, ◌∙◌, inl, inr, Bool, true, false, ◌||◌, not, Option, none,
  some, List, [], ◌∷◌, ◌++◌, map, find, any, length, length-append, lookup, remove, lookup-remove,
  eq_iff, arith, Bool-cases, if◌then◌else◌,
}
use runway_the_game.Board.{ChallengeDraft}
use runway_the_game.Editor.Editing.{
  Editing, Field, find_waypoint, has_challenge, joins, moved, as_start, as_finish, with_field,
  add_waypoint, add_road, move_waypoint, set_start, apply_set_finish, request_finish_of,
  request_set_finish, update_selected, update_field,
}
use runway_the_game.Editor.Editing.Deleting.{
  request_delete_waypoint, request_delete_road, delete_selected_waypoint, cancel_delete,
  cancel_finish_role,
}
use runway_the_game.Editor.Editing.Edits.{
  Edit, adding, joining, moving, starting, finishing, setting, asking_waypoint, asking_road,
  asking_selected, confirming, cancelling, confirming_finish, cancelling_finish, selecting,
  focusing, unfocusing, edit,
}

-- The two answers to a question.
abbrev pub is_answer : Edit → Bool
is_answer confirming = true
is_answer confirming_finish = true
is_answer _ = false

-- In `t` the challenge at `id` is `c`, and there are as many waypoints and roads as in `s`, or more.
abbrev pub Keeps : Editing → String → ChallengeDraft → Editing → Type 0
Keeps s id c t =
    (lookup id t.draft.challenges ≡ some c)
    × (length s.draft.waypoints ≤ length t.draft.waypoints)
    × (length s.draft.roads ≤ length t.draft.roads)

length-map_ge {ℓ} : {A : Type ℓ} (f : A → A) (xs : List A) → length xs ≤ length (map f xs)
length-map_ge f [] = omega arith
length-map_ge f (x ∷ xs) = omega (arith, length-map_ge f xs)

length-append_ge {ℓ} : {A : Type ℓ} (xs ys : List A) → length xs ≤ length (xs ++ ys)
length-append_ge xs ys = omega (arith, length-append xs ys)

some-eq : (d c : ChallengeDraft) → ◌≡◌ {A = Option ChallengeDraft} (some d) (some c) → d ≡ c
some-eq d c e = cc

other_challenge :
    (d c : ChallengeDraft) → d ≡ c → has_challenge c ≡ true → has_challenge d ≡ false → ⊥
other_challenge d c e w p = let q : false ≡ true = sym p ∙ ap (λ x. has_challenge x) e ∙ w in cc

module _ (s : Editing) (id : String) (c : ChallengeDraft)
    (h : lookup id s.draft.challenges ≡ some c) where
  Keeps-same : Keeps s id c s
  Keeps-same = (h, omega arith, omega arith)

  Keeps-guard : (b : Bool) (t : Editing) → Keeps s id c t → Keeps s id c (if b then s else t)
  Keeps-guard true t k = Keeps-same
  Keeps-guard false t k = k

  Keeps-some {ℓ} :
      {A : Type ℓ} (o : Option A) (f : A → Editing)
      → ((a : A) → Keeps s id c (f a))
      → Keeps s id c (elim o as (λ x. Editing) [ none ↦ s | some a ↦ f a ])
  Keeps-some none f k = Keeps-same
  Keeps-some (some a) f k = k a

  kept :
      (j : String) (d : ChallengeDraft)
      → has_challenge c ≡ true
      → lookup j s.draft.challenges ≡ some d
      → has_challenge d ≡ false
      → lookup id (remove j s.draft.challenges) ≡ some c
  kept j d w e p = elim (Bool-cases (j == id)) [
    | inl q ↦ absurd (
        other_challenge d c
          (some-eq d c (sym e ∙ ap (λ k. lookup k s.draft.challenges) ((eq_iff j id).0 q) ∙ h)) w p)
    | inr q ↦ lookup-remove j id s.draft.challenges ∙ rw q h
  ]

  -- The finish takes only a challenge that is blank, or none.
  Keeps-request_finish_of :
      (j : String) (o : Option ChallengeDraft)
      → has_challenge c ≡ true
      → lookup j s.draft.challenges ≡ o
      → Keeps s id c (request_finish_of j o s)
  unfolding request_finish_of apply_set_finish
  Keeps-request_finish_of j none w e = (
    ground (arith, h, e, lookup-remove j id s.draft.challenges, eq_iff j id),
    length-map_ge (as_finish j) s.draft.waypoints,
    omega arith,
  )
  Keeps-request_finish_of j (some d) w e = elim (Bool-cases (has_challenge d)) [
    | inl p ↦ rw p Keeps-same
    | inr p ↦ rw p (kept j d w e p, length-map_ge (as_finish j) s.draft.waypoints, omega arith)
  ]

  Keeps-update :
      (f : Field) (j : String) → has_challenge c ≡ true → Keeps s id c (update_selected f j s)
  unfolding update_selected request_set_finish
  Keeps-update (Field.is_finish true) j w =
      Keeps-guard (not s.is_editable) (request_finish_of j (lookup j s.draft.challenges) s)
        (Keeps-request_finish_of j (lookup j s.draft.challenges) w refl)
  Keeps-update (Field.is_finish false) j w =
      (h, length-map_ge (with_field (Field.is_finish false) j) s.draft.waypoints, omega arith)
  Keeps-update f j w = (h, length-map_ge (with_field f j) s.draft.waypoints, omega arith)

  Keeps-request_delete_waypoint : (j : String) → Keeps s id c (request_delete_waypoint j s)
  unfolding request_delete_waypoint
  Keeps-request_delete_waypoint j =
      Keeps-guard (not s.is_editable) _
        (Keeps-some (find_waypoint j s.draft.waypoints) _ (λ w. Keeps-same))

-- No operation but the two answers to a question loses a challenge that has anything written in it,
-- or has fewer waypoints or fewer roads after it.
pub edit-Keeps :
    (e : Edit) (s : Editing) (id : String) (c : ChallengeDraft)
    → is_answer e ≡ false
    → has_challenge c ≡ true
    → lookup id s.draft.challenges ≡ some c
    → Keeps s id c (edit e s)
unfolding edit add_waypoint add_road move_waypoint set_start request_set_finish update_field
    request_delete_road delete_selected_waypoint cancel_delete cancel_finish_role
edit-Keeps (adding j lat lon) s id c a w h =
    Keeps-guard s id c h (not s.is_editable) _
      (h, length-append_ge s.draft.waypoints _, omega arith)
edit-Keeps (joining j x y) s id c a w h =
    Keeps-guard s id c h (not s.is_editable || any (joins x y) s.draft.roads) _
      (h, omega arith, length-append_ge s.draft.roads _)
edit-Keeps (moving j lat lon) s id c a w h =
    Keeps-guard s id c h (not s.is_editable) _
      (h, length-map_ge (moved j lat lon) s.draft.waypoints, omega arith)
edit-Keeps (starting j) s id c a w h =
    Keeps-guard s id c h (not s.is_editable) _
      (h, length-map_ge (as_start j) s.draft.waypoints, omega arith)
edit-Keeps (finishing j) s id c a w h =
    Keeps-guard s id c h (not s.is_editable) _
      (Keeps-request_finish_of s id c h j (lookup j s.draft.challenges) w refl)
edit-Keeps (setting f) s id c a w h =
    Keeps-some s id c h s.selected_waypoint_id _
      (λ j. Keeps-guard s id c h (not s.is_editable || j == "") _ (Keeps-update s id c h f j w))
edit-Keeps (asking_waypoint j) s id c a w h = Keeps-request_delete_waypoint s id c h j
edit-Keeps (asking_road j) s id c a w h =
    Keeps-guard s id c h (not s.is_editable) _
      (Keeps-some s id c h (find (λ r. r.id == j) s.draft.roads) _ (λ r. Keeps-same s id c h))
edit-Keeps asking_selected s id c a w h =
    Keeps-some s id c h s.selected_waypoint_id _
      (λ j. Keeps-guard s id c h (j == "") _ (Keeps-request_delete_waypoint s id c h j))
edit-Keeps confirming s id c a w h = cc
edit-Keeps cancelling s id c a w h =
    Keeps-some s id c h s.pending_delete _ (λ t. Keeps-same s id c h)
edit-Keeps confirming_finish s id c a w h = cc
edit-Keeps cancelling_finish s id c a w h =
    Keeps-some s id c h s.pending_finish_role _ (λ t. Keeps-same s id c h)
edit-Keeps (selecting j) s id c a w h = Keeps-same s id c h
edit-Keeps (focusing chosen) s id c a w h = Keeps-same s id c h
edit-Keeps unfocusing s id c a w h = Keeps-same s id c h
