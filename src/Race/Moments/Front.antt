-- ===== src/Race/Moments/Front.antt =====
-- The front of the candidates that diffMoments of frontend/src/core/game/raceMoments.ts sorts.
use runway_the_game.Prelude.{
  ◌≡◌, refl, sym, ap, ◌∙◌, inl, inr, Bool, true, false, Option, none, some, List, [], ◌∷◌, arith,
  sort_by, insert_by, find, Bool-cases, if◌then◌else◌,
}
use runway_the_game.Race.Moments.{
  CelebrationKind, won, finished, cleared, arrived, CelebrationMoment, by_priority, head?,
}

abbrev pub same_kind : CelebrationKind → CelebrationKind → Bool
same_kind won won = true
same_kind finished finished = true
same_kind cleared cleared = true
same_kind arrived arrived = true
same_kind _ _ = false

abbrev pub or_else : Option CelebrationMoment → Option CelebrationMoment → Option CelebrationMoment
or_else (some x) o = some x
or_else none o = o

abbrev pub first_of : CelebrationKind → List CelebrationMoment → Option CelebrationMoment
first_of kind cs = find (λ c. same_kind c.kind kind) cs

abbrev pub chain : (w f c a : Option CelebrationMoment) → Option CelebrationMoment
chain w f c a = or_else w (or_else f (or_else c a))

-- The first that says won, else the first that says finished, else cleared, else arrived.
abbrev pub best_of : List CelebrationMoment → Option CelebrationMoment
best_of cs =
    chain (first_of won cs) (first_of finished cs) (first_of cleared cs) (first_of arrived cs)

-- What is in front once `x` is sorted into a list that has `o` in front.
abbrev better : CelebrationMoment → Option CelebrationMoment → Option CelebrationMoment
better x none = some x
better x (some y) = if by_priority x y then some x else some y

head?-insert_by :
    (x : CelebrationMoment) (ys : List CelebrationMoment)
    → head? (insert_by by_priority x ys) ≡ better x (head? ys)
head?-insert_by x [] = refl
head?-insert_by x (y ∷ ys) = elim (Bool-cases (by_priority x y)) [
  | inl e ↦ rw e refl
  | inr e ↦ rw e refl
]

abbrev pub OfKind : CelebrationKind → Option CelebrationMoment → Type 0
OfKind k none = Unit
OfKind k (some y) = y.kind ≡ k

same_kind-eq : (a b : CelebrationKind) → same_kind a b ≡ true → a ≡ b
same_kind-eq won won e = refl
same_kind-eq finished finished e = refl
same_kind-eq cleared cleared e = refl
same_kind-eq arrived arrived e = refl
same_kind-eq won finished e = ground (arith, e)
same_kind-eq won cleared e = ground (arith, e)
same_kind-eq won arrived e = ground (arith, e)
same_kind-eq finished won e = ground (arith, e)
same_kind-eq finished cleared e = ground (arith, e)
same_kind-eq finished arrived e = ground (arith, e)
same_kind-eq cleared won e = ground (arith, e)
same_kind-eq cleared finished e = ground (arith, e)
same_kind-eq cleared arrived e = ground (arith, e)
same_kind-eq arrived won e = ground (arith, e)
same_kind-eq arrived finished e = ground (arith, e)
same_kind-eq arrived cleared e = ground (arith, e)

first_of-OfKind : (k : CelebrationKind) (cs : List CelebrationMoment) → OfKind k (first_of k cs)
first_of-OfKind k [] = tt
first_of-OfKind k (c ∷ cs) = elim (Bool-cases (same_kind c.kind k)) [
  | inl e ↦ rw e (same_kind-eq c.kind k e)
  | inr e ↦ rw e (first_of-OfKind k cs)
]

-- A candidate in front, by its kind.
abbrev front :
    CelebrationKind
    → CelebrationMoment
    → (w f c a : Option CelebrationMoment) → Option CelebrationMoment
front k x w f c a =
    chain (if same_kind k won then some x else w) (if same_kind k finished then some x else f)
      (if same_kind k cleared then some x else c) (if same_kind k arrived then some x else a)

front-better :
    (k : CelebrationKind) (x : CelebrationMoment) (w f c a : Option CelebrationMoment)
    → x.kind ≡ k
    → OfKind won w
    → OfKind finished f
    → OfKind cleared c
    → OfKind arrived a
    → front k x w f c a ≡ better x (chain w f c a)
front-better won x (some y) f c a e hw hf hc ha = rw (e, hw) refl
front-better won x none (some y) c a e hw hf hc ha = rw (e, hf) refl
front-better won x none none (some y) a e hw hf hc ha = rw (e, hc) refl
front-better won x none none none (some y) e hw hf hc ha = rw (e, ha) refl
front-better won x none none none none e hw hf hc ha = refl
front-better finished x (some y) f c a e hw hf hc ha = rw (e, hw) refl
front-better finished x none (some y) c a e hw hf hc ha = rw (e, hf) refl
front-better finished x none none (some y) a e hw hf hc ha = rw (e, hc) refl
front-better finished x none none none (some y) e hw hf hc ha = rw (e, ha) refl
front-better finished x none none none none e hw hf hc ha = refl
front-better cleared x (some y) f c a e hw hf hc ha = rw (e, hw) refl
front-better cleared x none (some y) c a e hw hf hc ha = rw (e, hf) refl
front-better cleared x none none (some y) a e hw hf hc ha = rw (e, hc) refl
front-better cleared x none none none (some y) e hw hf hc ha = rw (e, ha) refl
front-better cleared x none none none none e hw hf hc ha = refl
front-better arrived x (some y) f c a e hw hf hc ha = rw (e, hw) refl
front-better arrived x none (some y) c a e hw hf hc ha = rw (e, hf) refl
front-better arrived x none none (some y) a e hw hf hc ha = rw (e, hc) refl
front-better arrived x none none none (some y) e hw hf hc ha = rw (e, ha) refl
front-better arrived x none none none none e hw hf hc ha = refl

best_of-cons :
    (x : CelebrationMoment) (xs : List CelebrationMoment) → best_of (x ∷ xs) ≡ better x (best_of xs)
best_of-cons x xs =
    front-better x.kind x (first_of won xs) (first_of finished xs) (first_of cleared xs)
      (first_of arrived xs) refl (first_of-OfKind won xs) (first_of-OfKind finished xs)
      (first_of-OfKind cleared xs) (first_of-OfKind arrived xs)

pub head?-sort_by : (xs : List CelebrationMoment) → head? (sort_by by_priority xs) ≡ best_of xs
head?-sort_by [] = refl
head?-sort_by (x ∷ xs) =
    head?-insert_by x (sort_by by_priority xs)
    ∙ ap (better x) (head?-sort_by xs)
    ∙ sym (best_of-cons x xs)
