-- ===== src/Race/Session/Index.antt =====
-- The race index of frontend/src/core/game/raceSession.ts over any calls.
use runway_the_game.Prelude.{
  ℕ, suc, ◌≤◌, String, ◌==◌, ◌≡◌, refl, sym, ap, ◌∙◌, inl, inr, Bool, true, false, ◌&&◌, not,
  Option, none, some, List, [], ◌∷◌, filter, find, take, length, length-take_le, eq_iff, arith,
  Bool-cases,
}
use runway_the_game.Projection.{RaceStatus}
use runway_the_game.Race.Session.{
  RaceRecord, RaceEntry, Device, max_races, write_raw, is_race, merged, remove_first, remember_race,
  touched, replace_first, touch_found, touch_race, status_changed, name_changed, is_ended,
  forget_race,
}

-- No game has two records.
abbrev pub Unique : List RaceRecord → Type 0
Unique [] = Unit
Unique (r ∷ rs) = (find (is_race r.game_id) rs ≡ none) × Unique rs

abbrev pub IsIndex : Device → Type 0
IsIndex d = (length d.races ≤ max_races) × Unique d.races

find-take :
    (g : String) (n : ℕ) (rs : List RaceRecord)
    → find (is_race g) rs ≡ none
    → find (is_race g) (take n rs) ≡ none
find-take g ℕ.zero rs h = refl
find-take g (suc n) [] h = refl
find-take g (suc n) (r ∷ rs) h = ground (arith, h, find-take g n rs)

Unique-take : (n : ℕ) (rs : List RaceRecord) → Unique rs → Unique (take n rs)
Unique-take ℕ.zero rs h = tt
Unique-take (suc n) [] h = tt
Unique-take (suc n) (r ∷ rs) h = (find-take r.game_id n rs h.0, Unique-take n rs h.1)

find-remove_first_other :
    (g k : String) (rs : List RaceRecord)
    → find (is_race k) rs ≡ none
    → find (is_race k) (remove_first g rs) ≡ none
find-remove_first_other g k [] h = refl
find-remove_first_other g k (r ∷ rs) h = ground (arith, h, find-remove_first_other g k rs)

same_id : (r : RaceRecord) (g : String) → r.game_id == g ≡ true → r.game_id ≡ g
same_id r g e = ground (arith, e, eq_iff r.game_id g)

find-remove_first :
    (g : String) (rs : List RaceRecord) → Unique rs → find (is_race g) (remove_first g rs) ≡ none
find-remove_first g [] h = refl
find-remove_first g (r ∷ rs) h = elim (Bool-cases (r.game_id == g)) [
  | inl e ↦ rw e (ap (λ k. find (is_race k) rs) (sym (same_id r g e)) ∙ h.0)
  | inr e ↦ rw (e, e) (find-remove_first g rs h.1)
]

Unique-remove_first : (g : String) (rs : List RaceRecord) → Unique rs → Unique (remove_first g rs)
Unique-remove_first g [] h = tt
Unique-remove_first g (r ∷ rs) h = elim (Bool-cases (r.game_id == g)) [
  | inl e ↦ rw e h.1
  | inr e ↦ rw e (find-remove_first_other g r.game_id rs h.0, Unique-remove_first g rs h.1)
]

IsIndex-write_raw :
    (saved : Bool) (rs : List RaceRecord) (d : Device)
    → Unique rs
    → IsIndex d
    → IsIndex (write_raw saved rs d)
IsIndex-write_raw true rs d u h = (length-take_le max_races rs, Unique-take max_races rs u)
IsIndex-write_raw false rs d u h = h

find-replace_first :
    (g k now : String) (status : Option RaceStatus) (name : Option String) (rs : List RaceRecord)
    → find (is_race k) rs ≡ none
    → find (is_race k) (replace_first g (touched now status name) rs) ≡ none
find-replace_first g k now status name [] h = refl
find-replace_first g k now status name (r ∷ rs) h =
    ground (arith, h, find-replace_first g k now status name rs)

Unique-replace_first :
    (g now : String) (status : Option RaceStatus) (name : Option String) (rs : List RaceRecord)
    → Unique rs
    → Unique (replace_first g (touched now status name) rs)
Unique-replace_first g now status name [] h = tt
Unique-replace_first g now status name (r ∷ rs) h = elim (Bool-cases (r.game_id == g)) [
  | inl e ↦ rw e h
  | inr e ↦ rw e (
    find-replace_first g r.game_id now status name rs h.0,
    Unique-replace_first g now status name rs h.1,
  )
]

find-filter_race :
    (p : RaceRecord → Bool) (k : String) (rs : List RaceRecord)
    → find (is_race k) rs ≡ none
    → find (is_race k) (filter p rs) ≡ none
find-filter_race p k [] h = refl
find-filter_race p k (r ∷ rs) h = ground (arith, h, find-filter_race p k rs)

Unique-filter : (p : RaceRecord → Bool) (rs : List RaceRecord) → Unique rs → Unique (filter p rs)
Unique-filter p [] h = tt
Unique-filter p (r ∷ rs) h = elim (Bool-cases (p r)) [
  | inl e ↦ rw e (find-filter_race p r.game_id rs h.0, Unique-filter p rs h.1)
  | inr e ↦ rw e (Unique-filter p rs h.1)
]

-- A call, with whether its write succeeds and the time at which it is made.
pub data IndexCall : Type 0 where
  remember : Bool → String → RaceEntry → IndexCall
  touch : Bool → String → String → Option RaceStatus → Option String → IndexCall
  forget : Bool → String → IndexCall

unfoldable pub perform : IndexCall → Device → Device
unfolding remember_race touch_race forget_race
perform (remember saved now entry) d = remember_race saved now entry d
perform (touch saved now g status name) d = (touch_race saved now g status name d).0
perform (forget saved g) d = forget_race saved g d

abbrev pub perform_all : List IndexCall → Device → Device
perform_all [] d = d
perform_all (c ∷ calls) d = perform_all calls (perform c d)

IsIndex-touch_found :
    (saved : Bool) (now g : String) (status : Option RaceStatus) (name : Option String) (d : Device)
    (found : Option RaceRecord)
    → IsIndex d
    → IsIndex (touch_found saved now g status name d found).0
unfolding touch_found
IsIndex-touch_found saved now g status name d none h = h
IsIndex-touch_found saved now g status name d (some r) h =
    let u = Unique-replace_first g now status name d.races h.1 in
    let k = IsIndex-write_raw saved (replace_first g (touched now status name) d.races) d u h in
    elim (Bool-cases (not (status_changed status r) && not (name_changed name r))) [
      | inl p ↦ rw p h
      | inr p ↦ elim (Bool-cases (status_changed status r && is_ended status)) [
        | inl q ↦ rw (p, q) k
        | inr q ↦ rw (p, q) k
      ]
    ]

pub perform-IsIndex : (c : IndexCall) (d : Device) → IsIndex d → IsIndex (perform c d)
unfolding perform remember_race touch_race forget_race merged
perform-IsIndex (remember saved now entry) d h =
    IsIndex-write_raw saved
      (merged now entry (find (is_race entry.game_id) d.races) d
        ∷ remove_first entry.game_id d.races)
      d (find-remove_first entry.game_id d.races h.1, Unique-remove_first entry.game_id d.races h.1)
      h
perform-IsIndex (touch saved now g status name) d h =
    IsIndex-touch_found saved now g status name d (find (is_race g) d.races) h
perform-IsIndex (forget saved g) d h =
    IsIndex-write_raw saved (filter (λ r. not (is_race g r)) d.races) d
      (Unique-filter (λ r. not (is_race g r)) d.races h.1) h

-- From an index with at most 50 races and one record for each, such as an empty one, whatever is
-- remembered, touched or forgotten, and whether or not the writes succeed, the index stays so.
pub perform_all-IsIndex :
    (calls : List IndexCall) (d : Device) → IsIndex d → IsIndex (perform_all calls d)
perform_all-IsIndex [] d h = h
perform_all-IsIndex (c ∷ calls) d h =
    perform_all-IsIndex calls (perform c d) (perform-IsIndex c d h)
