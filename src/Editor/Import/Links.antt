-- ===== src/Editor/Import/Links.antt =====
-- The first loop of applyImportToDraft of frontend/src/surfaces/editor/boardDraft.ts, over the rows of
-- a full draft: those of the waypoints stay, and each road takes its own.
use runway_the_game.Prelude.{
  String, ◌==◌, ◌≡◌, refl, sym, ap, ◌∙◌, Bool, true, false, ◌&&◌, ◌||◌, Option, none, some, List,
  [], ◌∷◌, ◌++◌, map, filter_map, any, truthy, All, arith, eq_iff,
}
use mathlib.Core.List.{append_assoc}
use mathlib.Core.Path.{subst}
use runway_the_game.Board.{RoadDraft, ChallengeDraft}
use runway_the_game.Editor.Wire.{ApiChallenge, text_of, row_of, or_some}
use runway_the_game.Editor.RawFile.{RawChallenge}
use runway_the_game.Editor.Import.{
  as_challenge_draft, Slot, has_text, by_challenge, by_id, update_last, attach, any_for, link_row,
  link_rows,
}
use runway_the_game.Editor.Import.File.{
  raw_challenge, RoadIsFull, IsPriced, Fits, OwnChallenges, waypoint_row, road_row, row_of_road,
}
use runway_the_game.Editor.Import.Rows.{priced_text, with_row, with_row-filter_map}

-- A road without its challenge, as import_roads leaves it.
abbrev pub bare : RoadDraft → RoadDraft
bare r = record r { challenge = none }

abbrev pub start : RoadDraft → Slot
start r = (r.challenge_id, bare r)

module _ {ℓ} {A : Type ℓ} where
  any-middle : (p : A → Bool) (xs ys : List A) (x : A) → p x ≡ true → any p (xs ++ x ∷ ys) ≡ true
  any-middle p [] ys x h = ground (arith, h)
  any-middle p (y ∷ xs) ys x h = ground (arith, any-middle p xs ys x h)

  update_last-last :
      (p : A → Bool) (f : A → A) (xs ys : List A) (x : A)
      → p x ≡ true
      → any p ys ≡ false
      → update_last p f (xs ++ x ∷ ys) ≡ xs ++ f x ∷ ys
  unfolding update_last
  update_last-last p f [] ys x h k = rw (k, h) refl
  update_last-last p f (y ∷ xs) ys x h k =
      rw (any-middle p xs ys x h) (ap (λ l. y ∷ l) (update_last-last p f xs ys x h k))

any-start :
    (id : String) (rs : List RoadDraft)
    → any (by_challenge id) (map start rs) ≡ any (λ r. has_text id r.challenge_id) rs
any-start id [] = refl
any-start id (r ∷ rs) = ap (λ b. has_text id r.challenge_id || b) (any-start id rs)

pub any-by_id_start :
    (id : String) (rs : List RoadDraft) → any (by_id id) (map start rs) ≡ any (λ r. r.id == id) rs
any-by_id_start id [] = refl
any-by_id_start id (r ∷ rs) = ap (λ b. r.id == id || b) (any-by_id_start id rs)

-- A row that names no road.
link_row-none :
    (c : RawChallenge) (slots : List Slot)
    → any_for by_challenge c.id slots ≡ false
    → any_for by_id c.road_id slots ≡ false
    → any_for by_id (or_some c.waypoint_id c.waypoint_id_camel) slots ≡ false
    → link_row c slots ≡ (slots, false)
unfolding link_row
link_row-none c slots h k l = rw (h, k, l) refl

-- The row of a road, among the roads before it and after it.
link_row-own :
    (c : RawChallenge) (id : String) (done rest : List Slot) (x : Slot)
    → c.id ≡ some id
    → truthy id ≡ true
    → by_challenge id x ≡ true
    → any (by_challenge id) rest ≡ false
    → link_row c (done ++ x ∷ rest) ≡ (done ++ attach c x ∷ rest, true)
unfolding link_row
link_row-own c id done rest x e t h k =
    let found : any_for by_challenge c.id (done ++ x ∷ rest) ≡ true =
      ap (λ o. any_for by_challenge o (done ++ x ∷ rest)) e
      ∙ rw t (any-middle (by_challenge id) done rest x h) in
    rw found (
      ap (λ l. (l, true))
        (update_last-last (by_challenge (text_of c.id)) (attach c) done rest x
          (ap (λ o. by_challenge (text_of o) x) e ∙ h)
          (ap (λ o. any (by_challenge (text_of o)) rest) e ∙ k)))

-- A row that stands for a waypoint's challenge names none of the roads.
abbrev pub Elsewhere : List RoadDraft → String × ChallengeDraft → Type 0
Elsewhere rs e =
    (truthy e.0 ≡ true)
    × (any (λ r. r.id == e.0) rs ≡ false)
    × (any (λ r. has_text (text_of e.1.id) r.challenge_id) rs ≡ false)

pub and_false : (a b : Bool) → b ≡ false → (a && b) ≡ false
and_false a b h = ground (arith, h)

pub link_rows-waypoints :
    (entries : List (String × ChallengeDraft)) (cs : List RawChallenge) (rs : List RoadDraft)
    → All (Elsewhere rs) entries
    → link_rows (map (λ e. raw_challenge (waypoint_row e)) entries ++ cs) (map start rs) ≡ (
        let rest = link_rows cs (map start rs) in
        (rest.0, map (λ e. (raw_challenge (waypoint_row e), false)) entries ++ rest.1))
unfolding link_rows
link_rows-waypoints [] cs rs h = refl
link_rows-waypoints ((w, c) ∷ entries) cs rs h =
    let stays : link_row (raw_challenge (waypoint_row (w, c))) (map start rs)
        ≡ (map start rs, false) =
      link_row-none (raw_challenge (waypoint_row (w, c))) (map start rs)
        (and_false (truthy (text_of c.id)) _ (any-start (text_of c.id) rs ∙ h.0.2)) refl
        (rw h.0.0 (rw h.0.0 (any-by_id_start w rs ∙ h.0.1))) in
    rw stays (
      ap (λ l. (l.0, (raw_challenge (waypoint_row (w, c)), false) ∷ l.1))
        (link_rows-waypoints entries cs rs h.1))

-- What a road is after the loop.
abbrev pub full : RoadDraft → Slot
full r = (r.challenge_id, r)

kept_id :
    (k : Option String) (o : Option String) (c : ChallengeDraft) → Fits k (some c) → or_some k o ≡ k
kept_id none o c h = absurd h
kept_id (some id) o c h = rw h.0 refl

has_text-same : (s t : String) → s ≡ t → has_text t (some s) ≡ true
has_text-same s t e = ground (arith, e, eq_iff s t)

-- What a road's challenge has: its id as a text, which the road names, and its prices.
named_text :
    (k : Option String) (c : ChallengeDraft)
    → Fits k (some c)
    → (some (text_of c.id) ≡ c.id)
      × (k ≡ some (text_of c.id))
      × (truthy (text_of c.id) ≡ true)
      × (has_text (text_of c.id) k ≡ true)
      × IsPriced c
named_text none c h = absurd h
named_text (some id) c h =
    let e : id ≡ text_of c.id = ap text_of h.1 in
    (
      ap (λ o. some (text_of o)) (sym h.1) ∙ h.1,
      ap (λ t. some t) e,
      ap (λ t. truthy t) (sym e) ∙ h.0,
      has_text-same id (text_of c.id) e,
      h.2,
    )

attached :
    (r : RoadDraft) (c : ChallengeDraft)
    → r.challenge ≡ some c
    → Fits r.challenge_id (some c)
    → attach (raw_challenge (row_of (text_of c.id) none c)) (start r) ≡ full r
attached r c e h =
    let n = named_text r.challenge_id c h in
    let same : some (as_challenge_draft (raw_challenge (row_of (text_of c.id) none c)))
        ≡ r.challenge =
      ap (λ x. some x) (priced_text c none n.0 n.4) ∙ sym e in
    let kept = kept_id r.challenge_id (or_some (some (text_of c.id)) r.challenge_id) c h in
    λ i. (r.challenge_id, record r { challenge_id = kept i; challenge = same i })

abbrev pub raw_road_rows : List RoadDraft → List RawChallenge
raw_road_rows rs = map raw_challenge (filter_map road_row rs)

abbrev pub on_roads : List RoadDraft → List (RawChallenge × Bool)
on_roads rs = map (λ c. (c, true)) (raw_road_rows rs)

abbrev LinkedBy : List RoadDraft → List ApiChallenge → Type 0
LinkedBy rs cs =
    (done : List Slot)
    → link_rows (map raw_challenge cs) (done ++ map start rs)
      ≡ (done ++ map full rs, map (λ c. (c, true)) (map raw_challenge cs))

abbrev Linked : List RoadDraft → Type 0
Linked rs = LinkedBy rs (filter_map road_row rs)

-- The roads after one that is full.
abbrev next_roads :
    (r : RoadDraft) (rs : List RoadDraft)
    → Linked rs
    → (done : List Slot)
    → link_rows (raw_road_rows rs) (done ++ full r ∷ map start rs)
      ≡ (done ++ full r ∷ map full rs, on_roads rs)
next_roads r rs ih done =
    ap (λ l. link_rows (raw_road_rows rs) l) (sym (append_assoc done (full r ∷ []) (map start rs)))
    ∙ ih (done ++ full r ∷ [])
    ∙ ap (λ l. (l, on_roads rs)) (append_assoc done (full r ∷ []) (map full rs))

link_rows-road :
    (r : RoadDraft) (rs : List RoadDraft) (o : Option ChallengeDraft)
    → r.challenge ≡ o
    → Fits r.challenge_id o
    → ((id : String) → r.challenge_id ≡ some id → any (λ s. has_text id s.challenge_id) rs ≡ false)
    → Linked rs
    → LinkedBy (r ∷ rs) (with_row (row_of_road o) (filter_map road_row rs))
unfolding link_rows
link_rows-road r rs none e h own ih = λ done.
    ap (λ x. link_rows (raw_road_rows rs) (done ++ x ∷ map start rs))
      (λ i. (r.challenge_id, record r { challenge = sym e i }))
    ∙ next_roads r rs ih done
link_rows-road r rs (some c) e h own ih =
    let n = named_text r.challenge_id c h in
    λ done.
      ap
        (λ l.
          (let rest = link_rows (raw_road_rows rs) l.0 in
            (rest.0, (raw_challenge (row_of (text_of c.id) none c), l.1) ∷ rest.1)))
        (link_row-own (raw_challenge (row_of (text_of c.id) none c)) (text_of c.id) done
            (map start rs) (start r) refl n.2 n.3
            (any-start (text_of c.id) rs ∙ own (text_of c.id) n.1)
          ∙ ap (λ x. (done ++ x ∷ map start rs, true)) (attached r c e h))
      ∙ ap (λ l. (l.0, (raw_challenge (row_of (text_of c.id) none c), true) ∷ l.1))
          (next_roads r rs ih done)

pub link_rows-roads : (rs : List RoadDraft) → All RoadIsFull rs → OwnChallenges rs → Linked rs
unfolding link_rows
link_rows-roads [] h own = λ done. refl
link_rows-roads (r ∷ rs) h own =
    subst (LinkedBy (r ∷ rs)) (with_row-filter_map r rs r.challenge refl)
      (link_rows-road r rs r.challenge refl h.0.fits own.0 (link_rows-roads rs h.1 own.1))
