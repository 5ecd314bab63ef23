-- ===== src/Prelude/Sorting.antt =====
-- What a sort keeps and makes.
use Prim.Native.Nat.{ℕ, ◌≤◌}
use mathlib.Core.Path.{◌≡◌}
use mathlib.Core.Bool.{Bool, true, false}
use mathlib.Core.List.{List, [], ◌∷◌, Memᴰ}
use mathlib.Core.Logic.{inl, inr}
use native.Mathlib.Omega.{arith}
use runway_the_game.Prelude.Tests.{Bool-cases}
use runway_the_game.Prelude.Lists.{All, insert_by, sort_by, filter}

module _ {ℓ} {A : Type ℓ} where
  pub All-insert_by {κ} :
      (P : A → Type κ) (le : A → A → Bool) (x : A) (xs : List A)
      → P x
      → All P xs
      → All P (insert_by le x xs)
  All-insert_by P le x [] p h = (p, tt)
  All-insert_by P le x (y ∷ ys) p h = elim (Bool-cases (le x y)) [
    | inl e ↦ rw e (p, h)
    | inr e ↦ rw e (h.0, All-insert_by P le x ys p h.1)
  ]

  pub All-sort_by {κ} :
      (P : A → Type κ) (le : A → A → Bool) (xs : List A) → All P xs → All P (sort_by le xs)
  All-sort_by P le [] h = tt
  All-sort_by P le (x ∷ xs) h = All-insert_by P le x (sort_by le xs) h.0 (All-sort_by P le xs h.1)

  -- Ascending by a key.
  abbrev pub AscendingBy : (A → ℕ) → List A → Type 0
  AscendingBy key [] = Unit
  AscendingBy key (x ∷ xs) = All (λ y. key x ≤ key y) xs × AscendingBy key xs

  All-le_trans :
      (key : A → ℕ) (a b : ℕ) (xs : List A)
      → a ≤ b
      → All (λ y. b ≤ key y) xs
      → All (λ y. a ≤ key y) xs
  All-le_trans key a b [] h k = tt
  All-le_trans key a b (x ∷ xs) h k = (omega (arith, k.0), All-le_trans key a b xs h k.1)

  module _ (key : A → ℕ) (le : A → A → Bool) (le_true : (a b : A) → le a b ≡ true → key a ≤ key b)
      (le_false : (a b : A) → le a b ≡ false → key b ≤ key a) where
    AscendingBy-insert_by :
        (x : A) (xs : List A) → AscendingBy key xs → AscendingBy key (insert_by le x xs)
    AscendingBy-insert_by x [] h = (tt, tt)
    AscendingBy-insert_by x (y ∷ ys) h = elim (Bool-cases (le x y)) [
      | inl e ↦ rw e ((le_true x y e, All-le_trans key (key x) (key y) ys (le_true x y e) h.0), h)
      | inr e ↦ rw e (
        All-insert_by (λ z. key y ≤ key z) le x ys (le_false x y e) h.0,
        AscendingBy-insert_by x ys h.1,
      )
    ]

    pub AscendingBy-sort_by : (xs : List A) → AscendingBy key (sort_by le xs)
    AscendingBy-sort_by [] = tt
    AscendingBy-sort_by (x ∷ xs) = AscendingBy-insert_by x (sort_by le xs) (AscendingBy-sort_by xs)

  -- A filter keeps what every element has, and what it tests holds of the rest.
  pub All-filter {κ} :
      (P : A → Type κ) (p : A → Bool) (xs : List A)
      → ((x : A) → p x ≡ true → P x)
      → All P (filter p xs)
  All-filter P p [] h = tt
  All-filter P p (x ∷ xs) h = elim (Bool-cases (p x)) [
    | inl e ↦ rw e (h x e, All-filter P p xs h)
    | inr e ↦ rw e (All-filter P p xs h)
  ]

  sink :
      (x y z : A) (zs rest : List A)
      → (Memᴰ y (x ∷ zs) → Memᴰ y rest)
      → Memᴰ y (x ∷ z ∷ zs)
      → Memᴰ y (z ∷ rest)
  sink x y z zs rest f (Memᴰ.head p) = Memᴰ.tail (f (Memᴰ.head p))
  sink x y z zs rest f (Memᴰ.tail (Memᴰ.head p)) = Memᴰ.head p
  sink x y z zs rest f (Memᴰ.tail (Memᴰ.tail p)) = Memᴰ.tail (f (Memᴰ.tail p))

  pub Memᴰ-insert_by :
      (le : A → A → Bool) (x y : A) (xs : List A) → Memᴰ y (x ∷ xs) → Memᴰ y (insert_by le x xs)
  Memᴰ-insert_by le x y [] m = m
  Memᴰ-insert_by le x y (z ∷ zs) m = elim (Bool-cases (le x z)) [
    | inl e ↦ rw e m
    | inr e ↦ rw e (sink x y z zs (insert_by le x zs) (Memᴰ-insert_by le x y zs) m)
  ]

  pub Memᴰ-sort_by : (le : A → A → Bool) (y : A) (xs : List A) → Memᴰ y xs → Memᴰ y (sort_by le xs)
  Memᴰ-sort_by le y [] m = elim m [ ]
  Memᴰ-sort_by le y (x ∷ xs) (Memᴰ.head p) = Memᴰ-insert_by le x y (sort_by le xs) (Memᴰ.head p)
  Memᴰ-sort_by le y (x ∷ xs) (Memᴰ.tail m) =
      Memᴰ-insert_by le x y (sort_by le xs) (Memᴰ.tail (Memᴰ-sort_by le y xs m))
