-- ===== src/Editor/Editing/Network.antt =====
-- The roads of a draft, and the challenges of its finish, in the changes of
-- frontend/src/surfaces/editor/useWaypointEditing.ts.
use runway_the_game.Prelude.{
  String, ◌==◌, ◌≡◌, refl, ap, ◌∙◌, inl, inr, Bool, true, false, ◌||◌, not, none, List, [], ◌∷◌,
  ◌++◌, map, filter, any, includes, includes-append, Dict, lookup, remove, lookup-remove, All,
  All-imp, All-map, eq_iff, arith, Bool-cases,
}
use runway_the_game.Board.{WaypointDraft, RoadDraft, ChallengeDraft}
use runway_the_game.Editor.Editing.{touches, joins}
use runway_the_game.Editor.Editing.Ids.{ids, includes-without}

-- A road between two waypoints of the board.
abbrev pub IsJoined : List String → RoadDraft → Type 0
IsJoined known r = (includes r.waypoint_id_a known ≡ true) × (includes r.waypoint_id_b known ≡ true)

-- No two roads join the same two waypoints.
abbrev pub Simple : List RoadDraft → Type 0
Simple [] = Unit
Simple (r ∷ rs) = (any (joins r.waypoint_id_a r.waypoint_id_b) rs ≡ false) × Simple rs

-- The finish has no challenge.
abbrev pub Free : Dict ChallengeDraft → WaypointDraft → Type 0
Free d w = w.is_finish ≡ true → lookup w.id d ≡ none

any-filter {ℓ} :
    {A : Type ℓ} (p q : A → Bool) (xs : List A) → any p xs ≡ false → any p (filter q xs) ≡ false
any-filter p q [] h = refl
any-filter p q (x ∷ xs) h = ground (arith, h, any-filter p q xs)

any-append {ℓ} :
    {A : Type ℓ} (p : A → Bool) (xs ys : List A) → any p (xs ++ ys) ≡ (any p xs || any p ys)
any-append p [] ys = refl
any-append p (x ∷ xs) ys = ground (arith, any-append p xs ys)

pub Simple-filter : (p : RoadDraft → Bool) (rs : List RoadDraft) → Simple rs → Simple (filter p rs)
Simple-filter p [] h = tt
Simple-filter p (r ∷ rs) h = elim (Bool-cases (p r)) [
  | inl e ↦
      rw e (any-filter (joins r.waypoint_id_a r.waypoint_id_b) p rs h.0, Simple-filter p rs h.1)
  | inr e ↦ rw e (Simple-filter p rs h.1)
]

-- Joining two waypoints goes both ways.
joins-sym :
    (r s : RoadDraft)
    → joins r.waypoint_id_a r.waypoint_id_b s ≡ joins s.waypoint_id_a s.waypoint_id_b r
joins-sym r s = ground (
  arith,
  eq_iff s.waypoint_id_a r.waypoint_id_a,
  eq_iff s.waypoint_id_b r.waypoint_id_b,
  eq_iff s.waypoint_id_a r.waypoint_id_b,
  eq_iff s.waypoint_id_b r.waypoint_id_a,
  eq_iff r.waypoint_id_a s.waypoint_id_a,
  eq_iff r.waypoint_id_b s.waypoint_id_b,
  eq_iff r.waypoint_id_b s.waypoint_id_a,
  eq_iff r.waypoint_id_a s.waypoint_id_b,
)

pub Simple-append :
    (s : RoadDraft) (rs : List RoadDraft)
    → any (joins s.waypoint_id_a s.waypoint_id_b) rs ≡ false
    → Simple rs
    → Simple (rs ++ s ∷ [])
Simple-append s [] h k = (refl, tt)
Simple-append s (r ∷ rs) h k = (
  ground (
    arith,
    h,
    k.0,
    joins-sym r s,
    any-append (joins r.waypoint_id_a r.waypoint_id_b) rs (s ∷ []),
  ),
  Simple-append s rs (ground (arith, h)) k.1,
)

pub IsJoined-more :
    (known more : List String) (rs : List RoadDraft)
    → All (IsJoined known) rs
    → All (IsJoined (known ++ more)) rs
IsJoined-more known more rs h =
    All-imp rs
      (λ r k. (
        ground (arith, k.0, includes-append r.waypoint_id_a known more),
        ground (arith, k.1, includes-append r.waypoint_id_b known more),
      ))
      h

-- Without a waypoint and the roads that touch it, the others are still joined.
pub IsJoined-without :
    (id : String) (ws : List WaypointDraft) (rs : List RoadDraft)
    → All (IsJoined (ids ws)) rs
    → All (IsJoined (ids (filter (λ w. not (w.id == id)) ws))) (filter (λ r. not (touches id r)) rs)
IsJoined-without id ws [] h = tt
IsJoined-without id ws (r ∷ rs) h = elim (Bool-cases (touches id r)) [
  | inl e ↦ rw e (IsJoined-without id ws rs h.1)
  | inr e ↦ rw e (
    (
      includes-without r.waypoint_id_a id ws (ground (arith, e)) ∙ h.0.0,
      includes-without r.waypoint_id_b id ws (ground (arith, e)) ∙ h.0.1,
    ),
    IsJoined-without id ws rs h.1,
  )
]

-- A change that makes no waypoint the finish, and leaves the ids.
pub Free-map :
    (f : WaypointDraft → WaypointDraft) (d : Dict ChallengeDraft) (ws : List WaypointDraft)
    → ((w : WaypointDraft) → (f w).id ≡ w.id)
    → ((w : WaypointDraft) → (f w).is_finish ≡ true → w.is_finish ≡ true)
    → All (Free d) ws
    → All (Free d) (map f ws)
Free-map f d ws h k = All-map (Free d) f ws (λ w free e. ap (λ i. lookup i d) (h w) ∙ free (k w e))

pub Free-remove :
    (id : String) (d : Dict ChallengeDraft) (ws : List WaypointDraft)
    → All (Free d) ws
    → All (Free (remove id d)) ws
Free-remove id d ws h = All-imp ws (λ w free e. ground (arith, free e, lookup-remove id w.id d)) h
