-- ===== src/Editor/Import/Sorted.antt =====
-- The second loop of applyImportToDraft of frontend/src/surfaces/editor/boardDraft.ts, over the rows
-- of a full draft: each waypoint gets the row that was its own.
use runway_the_game.Prelude.{
  String, ◌==◌, ◌≡◌, refl, sym, ap, ◌∙◌, Bool, true, false, not, some, List, [], ◌∷◌, ◌++◌, map,
  filter, includes, includes-append, Dict, insert, truthy, All, arith, eq_iff,
}
use mathlib.Core.List.{append_assoc, append-nil}
use mathlib.Core.Path.{subst}
use runway_the_game.Board.{WaypointDraft, ChallengeDraft}
use runway_the_game.Editor.Editing.Ids.{Apart}
use runway_the_game.Editor.Wire.{challengeable, is_uuid}
use runway_the_game.Editor.RawFile.{RawChallenge}
use runway_the_game.Editor.Import.{Sorting, sort_row, sort_rows, fill, challenges_of_rows}
use runway_the_game.Editor.Import.File.{raw_challenge, IsPriced, waypoint_row}
use runway_the_game.Editor.Import.Rows.{priced_text, uuid_text}

abbrev keys : List (String × ChallengeDraft) → List String
keys es = map (λ e. e.0) es

insert-new :
    (k : String) (c : ChallengeDraft) (d : List (String × ChallengeDraft))
    → includes k (keys d) ≡ false
    → insert k c d ≡ d ++ (k, c) ∷ []
insert-new k c [] h = refl
insert-new k c ((j, x) ∷ d) h =
    let other : (j == k) ≡ false = ground (arith, h) in
    rw other (ap (λ l. (j, x) ∷ l) (insert-new k c d (ground (arith, h))))

map-append : (d e : List (String × ChallengeDraft)) → keys (d ++ e) ≡ keys d ++ keys e
map-append [] e = refl
map-append (x ∷ d) e = ap (λ l. x.0 ∷ l) (map-append d e)

Apart-middle : (k : String) (xs ys : List String) → Apart (xs ++ k ∷ ys) → includes k xs ≡ false
Apart-middle k [] ys h = refl
Apart-middle k (x ∷ xs) ys h =
    ground
      (arith, Apart-middle k xs ys h.1, h.0, includes-append x xs (k ∷ ys), eq_iff x k, eq_iff k x)

-- An entry of a waypoint of the draft, with a UUID and its prices.
abbrev pub Ready : List String → String × ChallengeDraft → Type 0
Ready valid e =
    (truthy e.0 ≡ true) × (includes e.0 valid ≡ true) × (is_uuid e.1.id ≡ true) × IsPriced e.1

-- The loop when it has read some of the entries.
abbrev read : List (String × ChallengeDraft) → Sorting
read done = record { parsed = done; assigned = keys done; unassigned = [] }

sort_row-Ready :
    (valid : List String) (by_cid : Dict String) (e : String × ChallengeDraft)
    (done : List (String × ChallengeDraft))
    → Ready valid e
    → includes e.0 (keys done) ≡ false
    → sort_row valid by_cid (raw_challenge (waypoint_row e)) (read done) ≡ read (done ++ e ∷ [])
unfolding sort_row
sort_row-Ready valid by_cid (w, c) done h new =
    let text = priced_text c (some w) (uuid_text c.id h.2) h.3 in
    rw (h.0, h.0, h.1, new)
      (λ i. record {
        parsed = (ap (λ x. insert w x done) text ∙ insert-new w c done new) i;
        assigned = sym (map-append done ((w, c) ∷ [])) i;
        unassigned = [];
      })

abbrev not_on_roads : List (String × ChallengeDraft) → List (RawChallenge × Bool)
not_on_roads es = map (λ e. (raw_challenge (waypoint_row e), false)) es

sort_rows-Ready :
    (valid : List String) (by_cid : Dict String) (es done : List (String × ChallengeDraft))
    (rest : List (RawChallenge × Bool))
    → All (Ready valid) es
    → Apart (keys (done ++ es))
    → sort_rows valid by_cid (not_on_roads es ++ rest) (read done)
      ≡ sort_rows valid by_cid rest (read (done ++ es))
unfolding sort_rows
sort_rows-Ready valid by_cid [] done rest h apart =
    ap (λ l. sort_rows valid by_cid rest (read l)) (sym (append-nil done))
sort_rows-Ready valid by_cid (e ∷ es) done rest h apart =
    let here = subst Apart (map-append done (e ∷ es)) apart in
    ap (λ s. sort_rows valid by_cid (not_on_roads es ++ rest) s)
      (sort_row-Ready valid by_cid e done h.0 (Apart-middle e.0 (keys done) (keys es) here))
    ∙ sort_rows-Ready valid by_cid es (done ++ e ∷ []) rest h.1
        (subst (λ l. Apart (keys l)) (sym (append_assoc done (e ∷ []) es)) apart)
    ∙ ap (λ l. sort_rows valid by_cid rest (read l)) (append_assoc done (e ∷ []) es)

sort_rows-taken :
    (valid : List String) (by_cid : Dict String) (cs : List RawChallenge) (s : Sorting)
    → sort_rows valid by_cid (map (λ c. (c, true)) cs) s ≡ s
unfolding sort_rows
sort_rows-taken valid by_cid [] s = refl
sort_rows-taken valid by_cid (c ∷ cs) s = sort_rows-taken valid by_cid cs s

fill-none : (ws : List String) (d : Dict ChallengeDraft) → fill ws [] d ≡ d
unfolding fill
fill-none [] d = refl
fill-none (w ∷ ws) d = refl

pub challenges_of_rows-Ready :
    (ws : List WaypointDraft) (by_cid : Dict String) (es : List (String × ChallengeDraft))
    (cs : List RawChallenge)
    → All (Ready (challengeable ws)) es
    → Apart (map (λ e. e.0) es)
    → challenges_of_rows ws by_cid (not_on_roads es ++ map (λ c. (c, true)) cs) ≡ es
unfolding challenges_of_rows
challenges_of_rows-Ready ws by_cid es cs h apart =
    let sorted =
      sort_rows-Ready (challengeable ws) by_cid es [] (map (λ c. (c, true)) cs) h apart
      ∙ sort_rows-taken (challengeable ws) by_cid cs (read es) in
    ap
      (λ s.
        fill (filter (λ w. not (includes w s.assigned)) (challengeable ws)) s.unassigned s.parsed)
      sorted
    ∙ fill-none _ es
