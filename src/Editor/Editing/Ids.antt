-- ===== src/Editor/Editing/Ids.antt =====
-- The ids of a list of waypoints, which the operations keep apart.
use runway_the_game.Prelude.{
  String, ◌==◌, ◌≡◌, refl, ap, inl, inr, Bool, false, not, List, [], ◌∷◌, ◌++◌, map, filter,
  includes, includes-append, eq_iff, arith, Bool-cases,
}
use runway_the_game.Board.{WaypointDraft}

abbrev pub ids : List WaypointDraft → List String
ids ws = map (λ w. w.id) ws

-- No id occurs twice.
abbrev pub Apart : List String → Type 0
Apart [] = Unit
Apart (x ∷ xs) = (includes x xs ≡ false) × Apart xs

-- A change of the waypoints that leaves their ids.
pub ids-map :
    (f : WaypointDraft → WaypointDraft) (ws : List WaypointDraft)
    → ((w : WaypointDraft) → (f w).id ≡ w.id)
    → ids (map f ws) ≡ ids ws
ids-map f [] h = refl
ids-map f (w ∷ ws) h = λ i. h w i ∷ ids-map f ws h i

pub ids-append :
    (ws : List WaypointDraft) (w : WaypointDraft) → ids (ws ++ w ∷ []) ≡ ids ws ++ w.id ∷ []
ids-append [] w = refl
ids-append (v ∷ ws) w = ap (λ r. v.id ∷ r) (ids-append ws w)

pub Apart-append :
    (x : String) (xs : List String) → includes x xs ≡ false → Apart xs → Apart (xs ++ x ∷ [])
Apart-append x [] h a = (refl, tt)
Apart-append x (y ∷ ys) h a = (
  ground (arith, h, a.0, includes-append y ys (x ∷ []), eq_iff y x, eq_iff x y),
  Apart-append x ys (ground (arith, h)) a.1,
)

includes-filter :
    (x : String) (p : WaypointDraft → Bool) (ws : List WaypointDraft)
    → includes x (ids ws) ≡ false
    → includes x (ids (filter p ws)) ≡ false
includes-filter x p [] h = refl
includes-filter x p (w ∷ ws) h = ground (arith, h, includes-filter x p ws)

pub Apart-filter :
    (p : WaypointDraft → Bool) (ws : List WaypointDraft)
    → Apart (ids ws)
    → Apart (ids (filter p ws))
Apart-filter p [] h = tt
Apart-filter p (w ∷ ws) h = elim (Bool-cases (p w)) [
  | inl e ↦ rw e (includes-filter w.id p ws h.0, Apart-filter p ws h.1)
  | inr e ↦ rw e (Apart-filter p ws h.1)
]

-- Taking out one waypoint leaves the ids of the others.
pub includes-without :
    (x id : String) (ws : List WaypointDraft)
    → (x == id) ≡ false
    → includes x (ids (filter (λ w. not (w.id == id)) ws)) ≡ includes x (ids ws)
includes-without x id [] h = refl
includes-without x id (w ∷ ws) h =
    ground (arith, h, includes-without x id ws, eq_iff w.id x, eq_iff w.id id, eq_iff x id)
