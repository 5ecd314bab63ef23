-- ===== src/Editor/Import/Rows.antt =====
-- The rows that buildBoardPayload of frontend/src/surfaces/editor/boardDraft.ts writes for a full
-- draft, and the ids that it gives the roads.
use runway_the_game.Prelude.{
  ℕ, String, ◌==◌, ◌≡◌, refl, sym, ap, ◌∙◌, inl, inr, Bool, true, false, Option, none, some, List,
  [], ◌∷◌, ◌++◌, map, filter_map, lookup, lookup-insert, truthy, or_default, All, arith, Bool-cases,
  if◌then◌else◌,
}
use mathlib.Core.List.{append_assoc, append-nil}
use runway_the_game.Board.{RoadDraft, ChallengeDraft}
use runway_the_game.Editor.Wire.{
  ApiChallenge, Building, is_uuid, text_of, row_of, or_some, waypoint_rows, road_rows,
  push_waypoint_row, push_road_row, push_row,
}
use runway_the_game.Editor.Import.{as_challenge_draft}
use runway_the_game.Editor.Import.File.{
  raw_challenge, RoadIsFull, IsPriced, Fits, waypoint_row, road_row, row_of_road,
}

pub uuid_text : (o : Option String) → is_uuid o ≡ true → some (text_of o) ≡ o
uuid_text none h = ground (arith, h)
uuid_text (some s) h = refl

pub none-some : {s : String} → none ≡ some s → ⊥
none-some e = ground (arith, e)

kept_price : (o : Option ℕ) (d : ℕ) → some (or_default o 0) ≡ o → some (or_default o d) ≡ o
kept_price none d h = ground (arith, h)
kept_price (some n) d h = refl

pub priced_text :
    (c : ChallengeDraft) (w : Option String)
    → some (text_of c.id) ≡ c.id
    → IsPriced c
    → as_challenge_draft (raw_challenge (row_of (text_of c.id) w c)) ≡ c
unfolding as_challenge_draft
priced_text c w e p = λ i. record {
  id = e i;
  prompt = c.prompt;
  rubric = c.rubric;
  coin_reward = kept_price c.coin_reward 20 p.0 i;
  veto_penalty_seconds = kept_price c.veto_penalty_seconds 900 p.1 i;
}

pub or_some-truthy :
    (s : String) (o : Option String) → truthy s ≡ true → or_some (some s) o ≡ some s
or_some-truthy s o h = rw h refl

then_case {ℓ} : {A : Type ℓ} {x : A} (y : A) (b : Bool) → b ≡ true → (if b then x else y) ≡ x
then_case y b e = rw e refl

else_case {ℓ} : {A : Type ℓ} (x : A) {y : A} (b : Bool) → b ≡ false → (if b then x else y) ≡ y
else_case x b e = rw e refl

-- The id of a road's challenge on the wire is the one that the road names.
pub wire_id :
    (kept found : Option String) (c : Option ChallengeDraft)
    → Fits kept c
    → ((id : String) → found ≡ some id → kept ≡ some id)
    → or_some found (or_some kept none) ≡ kept
wire_id none none c h says = refl
wire_id (some k) none none h says = rw h refl
wire_id (some k) none (some c) h says = rw h.0 refl
wire_id none (some id) c h says = absurd (none-some (says id refl))
wire_id (some k) (some id) none h says = rw (sym (ap text_of (says id refl)), h) refl
wire_id (some k) (some id) (some c) h says = rw (sym (ap text_of (says id refl)), h.0) refl

abbrev pub with_row : Option ApiChallenge → List ApiChallenge → List ApiChallenge
with_row none rest = rest
with_row (some x) rest = x ∷ rest

pub with_row-filter_map :
    (r : RoadDraft) (rs : List RoadDraft) (o : Option ChallengeDraft)
    → r.challenge ≡ o
    → with_row (row_of_road o) (filter_map road_row rs) ≡ filter_map road_row (r ∷ rs)
with_row-filter_map r rs none e = rw e refl
with_row-filter_map r rs (some c) e = rw e refl

module _ (uuid : ℕ → String) where
  push-uuid :
      (w : String) (c : ChallengeDraft) (b : Building)
      → is_uuid c.id ≡ true
      → push_waypoint_row uuid w c b
        ≡ push_row w (text_of c.id) (row_of (text_of c.id) (some w) c) b.calls b
  push-uuid w c b h = rw h refl

  pub waypoint_rows-rows :
      (entries : List (String × ChallengeDraft)) (b : Building)
      → All (λ e. is_uuid e.1.id ≡ true) entries
      → (waypoint_rows uuid entries b).rows ≡ b.rows ++ map waypoint_row entries
  unfolding waypoint_rows
  waypoint_rows-rows [] b h = sym (append-nil b.rows)
  waypoint_rows-rows ((w, c) ∷ entries) b h =
      waypoint_rows-rows entries (push_waypoint_row uuid w c b) h.1
      ∙ ap (λ x. x.rows ++ map waypoint_row entries) (push-uuid w c b h.0)
      ∙ append_assoc b.rows (waypoint_row (w, c) ∷ []) (map waypoint_row entries)

  abbrev after_road : RoadDraft → Option ChallengeDraft → Building → Building
  after_road r none b = b
  after_road r (some c) b = push_road_row uuid r.id r.challenge_id c b

  after_road-elim :
      (r : RoadDraft) (o : Option ChallengeDraft) (b : Building)
      → after_road r o b ≡ (elim o as (λ x. Building) [
        | none ↦ b
        | some c ↦ push_road_row uuid r.id r.challenge_id c b
      ])
  after_road-elim r none b = refl
  after_road-elim r (some c) b = refl

  chosen_id :
      (id : String) (o : Option String)
      → truthy id ≡ true
      → some id ≡ o
      → or_some o (or_some (some id) none) ≡ some id
  chosen_id id none t e = ground (arith, e)
  chosen_id id (some s) t e = ground (arith, t, e)

  Fits-text :
      (kept : Option String) (c : ChallengeDraft) → Fits kept (some c) → kept ≡ some (text_of kept)
  Fits-text none c h = absurd h
  Fits-text (some id) c h = refl

  push-own :
      (road : String) (kept : Option String) (c : ChallengeDraft) (b : Building)
      → Fits kept (some c)
      → push_road_row uuid road kept c b
        ≡ push_row road (text_of kept) (row_of (text_of c.id) none c) b.calls b
  push-own road none c b h = absurd h
  push-own road (some id) c b h =
      rw (chosen_id id c.id h.0 h.1, push_road_row)
        (ap (λ t. push_row road id (row_of t none c) b.calls b) (ap text_of h.1))

  rows_after :
      (r : RoadDraft) (b : Building) (rs : List RoadDraft) (c : Option ChallengeDraft)
      → Fits r.challenge_id c
      → (after_road r c b).rows ++ filter_map road_row rs
        ≡ b.rows ++ with_row (row_of_road c) (filter_map road_row rs)
  rows_after r b rs none h = refl
  rows_after r b rs (some c) h =
      ap (λ x. x.rows ++ filter_map road_row rs) (push-own r.id r.challenge_id c b h)
      ∙ append_assoc b.rows (row_of (text_of c.id) none c ∷ []) (filter_map road_row rs)

  pub road_rows-rows :
      (rs : List RoadDraft) (b : Building)
      → All RoadIsFull rs
      → (road_rows uuid rs b).rows ≡ b.rows ++ filter_map road_row rs
  unfolding road_rows
  road_rows-rows [] b h = sym (append-nil b.rows)
  road_rows-rows (r ∷ rs) b h =
      ap (λ x. (road_rows uuid rs x).rows) (sym (after_road-elim r r.challenge b))
      ∙ road_rows-rows rs (after_road r r.challenge b) h.1
      ∙ rows_after r b rs r.challenge h.0.fits
      ∙ ap (λ x. b.rows ++ x) (with_row-filter_map r rs r.challenge refl)

  -- What the map of the roads says of one road is the challenge that the road names.
  abbrev pub Says : RoadDraft → Building → Type 0
  Says r b = (id : String) → lookup r.id b.chosen ≡ some id → r.challenge_id ≡ some id

  Says-after :
      (r q : RoadDraft) (b : Building) (c : Option ChallengeDraft)
      → Fits q.challenge_id c
      → ((q.id == r.id) ≡ true → q.challenge_id ≡ r.challenge_id)
      → Says r b
      → Says r (after_road q c b)
  Says-after r q b none h same says = says
  Says-after r q b (some c) h same says = λ id e. said id (
      sym (lookup-insert q.id r.id (text_of q.challenge_id) b.chosen)
      ∙ ap (λ x. lookup r.id x.chosen) (sym (push-own q.id q.challenge_id c b h))
      ∙ e)
    where
      said :
          (id : String)
          → (if q.id == r.id then some (text_of q.challenge_id) else lookup r.id b.chosen) ≡ some id
          → r.challenge_id ≡ some id
      said id e = elim (Bool-cases (q.id == r.id)) [
        | inl t ↦
            sym (same t) ∙ Fits-text q.challenge_id c h ∙ sym (then_case _ (q.id == r.id) t) ∙ e
        | inr t ↦ says id (sym (else_case _ (q.id == r.id) t) ∙ e)
      ]

  pub Says-rows :
      (r : RoadDraft) (qs : List RoadDraft) (b : Building)
      → All RoadIsFull qs
      → All (λ q. (q.id == r.id) ≡ true → q.challenge_id ≡ r.challenge_id) qs
      → Says r b
      → Says r (road_rows uuid qs b)
  unfolding road_rows
  Says-rows r [] b h same says = says
  Says-rows r (q ∷ qs) b h same says =
      let after =
        Says-rows r qs (after_road q q.challenge b) h.1 same.1
          (Says-after r q b q.challenge h.0.fits same.0 says) in
      λ id e.
        after id
          (ap (λ x. lookup r.id (road_rows uuid qs x).chosen) (after_road-elim q q.challenge b) ∙ e)
