-- ===== src/Destination/Settled.antt =====
-- That the pick of frontend/src/surfaces/player/destination.ts does not flip.
use runway_the_game.Prelude.{
  ◌⊎◌, ℕ, ◌+◌, ◌*◌, ◌≤◌, ◌<◌, ltb, String, ◌==◌, ◌≡◌, refl, sym, ap, ◌∙◌, inl, inr, Bool, true,
  false, All, Option, none, some, List, [], ◌∷◌, or_default, eq_iff, arith, Bool-cases,
  if◌then◌else◌,
}
use runway_the_game.Destination.{
  RouteChoice, Measured, nearer_of, nearer, nearest_after, nearest, leads_to, distance_to,
  clearly_closer, kept_or_switched, nearest_or_first, settle, resolve_destination_id,
}

-- The nearest is kept when it was the pick.
kept-nearest : (n : Measured) (c : Option ℕ) → kept_or_switched (some n) c n.0 ≡ n.0
kept-nearest n none = refl
kept-nearest n (some c) =
    let same : (n.0 == n.0) ≡ true = ground (arith, eq_iff n.0 n.0) in rw same refl

same_either {ℓ} : {A : Type ℓ} (b : Bool) (x y z : A) → x ≡ z → y ≡ z → (if b then x else y) ≡ z
same_either true x y z h k = h
same_either false x y z h k = k

-- The previous pick, or the nearest.
kept-cases :
    (n : Option Measured) (c : Option ℕ) (first p : String)
    → (kept_or_switched n c p ≡ p) ⊎ (kept_or_switched n c p ≡ nearest_or_first n first)
kept-cases none c first p = inl refl
kept-cases (some n) none first p = inl refl
kept-cases (some n) (some c) first p = elim (Bool-cases (n.0 == p)) [
  | inl e ↦ inl (rw e refl)
  | inr e ↦ elim (Bool-cases (clearly_closer n.1 c)) [
    | inl f ↦ inr (rw (e, f) refl)
    | inr f ↦ inl (rw (e, f) refl)
  ]
]

-- A pick other than the previous one is the nearest, and clearly closer.
abbrev pub Switched : Option Measured → Option ℕ → String → Type 0
Switched n c x =
    (m : Measured) × (d : ℕ) × (n ≡ some m)
    × (c ≡ some d)
    × (x ≡ m.0)
    × (m.1 + 30000 ≤ d)
    × (10 * m.1 < 6 * d)

kept-Switched :
    (n : Option Measured) (c : Option ℕ) (p : String)
    → (kept_or_switched n c p ≡ p) ⊎ Switched n c (kept_or_switched n c p)
kept-Switched none c p = inl refl
kept-Switched (some n) none p = inl refl
kept-Switched (some n) (some c) p = elim (Bool-cases (n.0 == p)) [
  | inl e ↦ inl (rw e refl)
  | inr e ↦ elim (Bool-cases (clearly_closer n.1 c)) [
    | inl f ↦ inr (n, c, refl, refl, rw (e, f) refl, ground (arith, f), ground (arith, f))
    | inr f ↦ inl (rw (e, f) refl)
  ]
]

module _ (rs : List RouteChoice) (first : String) where
  nearest_again :
      (n : Option Measured)
      → (if leads_to rs (nearest_or_first n first)
          then kept_or_switched n
              (distance_to rs (nearest_or_first n first))
              (nearest_or_first n first)
          else nearest_or_first n first)
        ≡ nearest_or_first n first
  nearest_again none = same_either (leads_to rs first) first first first refl refl
  nearest_again (some n) =
      same_either (leads_to rs n.0) (kept_or_switched (some n) (distance_to rs n.0) n.0) n.0 n.0
        (kept-nearest n (distance_to rs n.0)) refl

  settle-settle :
      (previous : Option String)
      → settle rs first (some (settle rs first previous)) ≡ settle rs first previous
  settle-settle none = nearest_again (nearest rs)
  settle-settle (some p) = elim (Bool-cases (leads_to rs p)) [
    | inl e ↦
        let kept : settle rs first (some p) ≡ kept_or_switched (nearest rs) (distance_to rs p) p =
          rw e refl in
        elim (kept-cases (nearest rs) (distance_to rs p) first p) [
          | inl f ↦ ap (λ x. settle rs first (some x)) (kept ∙ f)
          | inr f ↦
              ap (λ x. settle rs first (some x)) (kept ∙ f)
              ∙ nearest_again (nearest rs)
              ∙ sym (kept ∙ f)
        ]
    | inr e ↦
        let left : settle rs first (some p) ≡ nearest_or_first (nearest rs) first = rw e refl in
        ap (λ x. settle rs first (some x)) left ∙ nearest_again (nearest rs) ∙ sym left
  ]

  settle-Switched :
      (p : String)
      → leads_to rs p ≡ true
      → (settle rs first (some p) ≡ p)
        ⊎ Switched (nearest rs) (distance_to rs p) (settle rs first (some p))
  settle-Switched p e = rw e (kept-Switched (nearest rs) (distance_to rs p) p)

  lifted :
      (p : String)
      → leads_to rs p ≡ true
      → (some (settle rs first (some p)) ≡ some p)
        ⊎ Switched (nearest rs) (distance_to rs p) (settle rs first (some p))
  lifted p e = elim (settle-Switched p e) [ inl f ↦ inl (ap (λ x. some x) f) | inr f ↦ inr f ]

  -- The pick, with whether the player's leads anywhere.
  abbrev pick : Bool → String → Option String → Option String
  pick b id previous = if b then some id else some (settle rs first previous)

  picks :
      (id : String) (b : Bool) (previous : Option String)
      → (pick b id (pick b id previous) ≡ pick b id previous)
        × ((p : String)
            → leads_to rs p ≡ true
            → b ≡ false
            → (pick b id (some p) ≡ some p)
              ⊎ Switched (nearest rs) (distance_to rs p) (or_default (pick b id (some p)) ""))
  picks id true previous = (refl, (λ p e f. absurd (ground (arith, f))))
  picks id false previous = (ap (λ x. some x) (settle-settle previous), (λ p e f. lifted p e))

-- The nearer of two is at most as far as each.
abbrev Within : Option Measured → ℕ → Type 0
Within o d = (b : Measured) × (o ≡ some b) × (b.1 ≤ d)

nearer-Within :
    (best : Option Measured) (w : String) (o : Option ℕ)
    → ((d : ℕ) → o ≡ some d → Within (nearer_of best w o) d)
      × ((b : Measured) → best ≡ some b → Within (nearer_of best w o) b.1)
nearer-Within best w none = ((λ d e. absurd (ground (arith, e))), (λ b e. (b, e, omega arith)))
nearer-Within none w (some c) =
    ((λ d e. ((w, c), refl, ground (arith, e))), (λ b e. absurd (ground (arith, e))))
nearer-Within (some a) w (some c) = elim (Bool-cases (ltb c a.1)) [
  | inl t ↦ rw t (
    (λ d e. ((w, c), refl, ground (arith, e))),
    (λ b e. ((w, c), refl, ground (arith, t, ap (λ o. (or_default o a).1) e))),
  )
  | inr t ↦ rw t (
    (λ d e. (a, refl, ground (arith, t, e))),
    (λ b e. (a, refl, ground (arith, ap (λ o. (or_default o a).1) e))),
  )
]

abbrev pub Least : Measured → List RouteChoice → Type 0
Least m rs = All (λ r. (d : ℕ) → r.distance ≡ some d → m.1 ≤ d) rs

nearest_after-Least :
    (best : Option Measured) (rs : List RouteChoice) (m : Measured)
    → nearest_after best rs ≡ some m
    → ((b : Measured) → best ≡ some b → m.1 ≤ b.1) × Least m rs
nearest_after-Least best [] m h =
    ((λ b e. ground (arith, ap (λ o. (or_default o m).1) (sym e ∙ h))), tt)
nearest_after-Least best (r ∷ rs) m h =
    let rest = nearest_after-Least (nearer best r) rs m h in
    let near = nearer-Within best r.waypoint_id r.distance in
    (
      (λ b e. (let n = near.1 b e in omega (arith, rest.0 n.0 n.1, n.2))),
      ((λ d e. (let n = near.0 d e in omega (arith, rest.0 n.0 n.1, n.2))), rest.1),
    )

-- The pick among the same routes, with the former pick as the previous one, is that pick again; and
-- where the player picked none of the routes, a previous pick that a route leads to stays the pick, or
-- the pick is the nearest, at least 30 m closer than the previous one and strictly less than six
-- tenths of its distance away: at exactly six tenths the previous pick stays. The nearest is at most as far as any with a distance.
pub resolve_destination_id-settles :
    (rs : List RouteChoice) (explicit : Option String) (previous : Option String)
    → (resolve_destination_id rs explicit (resolve_destination_id rs explicit previous)
        ≡ resolve_destination_id rs explicit previous)
      × ((p : String)
          → leads_to rs p ≡ true
          → leads_to rs (or_default explicit "") ≡ false
          → (resolve_destination_id rs explicit (some p) ≡ some p)
            ⊎ Switched
                (nearest rs)
                (distance_to rs p)
                (or_default (resolve_destination_id rs explicit (some p)) ""))
      × ((m : Measured) → nearest rs ≡ some m → Least m rs)
unfolding resolve_destination_id
resolve_destination_id-settles [] explicit previous =
    (refl, (λ p e. absurd (ground (arith, e))), (λ m e. tt))
resolve_destination_id-settles (r ∷ rs) none previous =
    let p = picks (r ∷ rs) r.waypoint_id "" false previous in
    (p.0, (λ q e f. p.1 q e refl), (λ m e. (nearest_after-Least none (r ∷ rs) m e).1))
resolve_destination_id-settles (r ∷ rs) (some id) previous =
    let p = picks (r ∷ rs) r.waypoint_id id (leads_to (r ∷ rs) id) previous in
    (p.0, p.1, (λ m e. (nearest_after-Least none (r ∷ rs) m e).1))
