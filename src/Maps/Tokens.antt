-- ===== src/Maps/Tokens.antt =====
-- The tokens of frontend/src/core/game/mapSession.ts, as a function from the maps' ids.
use runway_the_game.Prelude.{
  String, ◌==◌, ◌≡◌, refl, ap, ◌∙◌, inl, inr, Bool, true, not, Option, none, some, List, [], ◌∷◌,
  filter, find, eq_iff, arith, Bool-cases, Option-cases, if◌then◌else◌,
}
use mathlib.Core.Path.{fun_ext}
use runway_the_game.Maps.{
  MapRecord, MapEntry, MapMeta, is_map, updated_record, replace_first, put, save_my_map, with_meta,
  sync_my_map_meta, get_edit_token, remove_my_map, hash_token, capture_edit_token_from_hash,
}

pub data MapCall : Type 0 where
  saving : String → MapEntry → MapCall
  syncing : String → MapMeta → MapCall
  removing : String → MapCall
  capturing : String → Option (String → Option String) → String → MapCall

abbrev pub perform : Bool → MapCall → List MapRecord → List MapRecord
unfolding save_my_map sync_my_map_meta remove_my_map capture_edit_token_from_hash
perform saved (saving now entry) maps = save_my_map saved now entry maps
perform saved (syncing id meta) maps = sync_my_map_meta saved id meta maps
perform saved (removing id) maps = remove_my_map saved id maps
perform saved (capturing now params id) maps =
    (capture_edit_token_from_hash saved now params id maps).0

abbrev pub Tokens : Type 0
Tokens = String → Option String

abbrev pub with_token : String → Option String → Tokens → Tokens
with_token id token t j = if id == j then token else t j

abbrev pub captured : String → Option String → Tokens → Tokens
captured id none t = t
captured id (some token) t = with_token id (some token) t

-- What a call does to the tokens.
abbrev pub told : MapCall → Tokens → Tokens
told (saving now entry) t = with_token entry.map_id (some entry.edit_token) t
told (syncing id meta) t = t
told (removing id) t = with_token id none t
told (capturing now none id) t = t
told (capturing now (some params) id) t = captured id (hash_token params) t

token-cons :
    (j : String) (m : MapRecord) (maps : List MapRecord)
    → get_edit_token j (m ∷ maps)
      ≡ (if m.map_id == j then some m.edit_token else get_edit_token j maps)
unfolding get_edit_token
token-cons j m maps = elim (Bool-cases (m.map_id == j)) [
  | inl e ↦ rw (e, get_edit_token) refl
  | inr e ↦ rw (e, get_edit_token) refl
]

token-filter :
    (j id : String) (maps : List MapRecord)
    → get_edit_token j (filter (λ m. not (is_map id m)) maps)
      ≡ with_token id none (λ k. get_edit_token k maps) j
unfolding get_edit_token
token-filter j id [] = ground arith
token-filter j id (m ∷ maps) = ground (
  arith,
  token-filter j id maps,
  token-cons j m maps,
  token-cons j m (filter (λ n. not (is_map id n)) maps),
  eq_iff m.map_id id,
  eq_iff id j,
  eq_iff m.map_id j,
)

token-replace :
    (j id : String) (f : MapRecord → MapRecord) (maps : List MapRecord)
    → ((m : MapRecord) → ((f m).map_id ≡ m.map_id) × ((f m).edit_token ≡ m.edit_token))
    → get_edit_token j (replace_first id f maps) ≡ get_edit_token j maps
unfolding get_edit_token
token-replace j id f [] h = refl
token-replace j id f (m ∷ maps) h = ground (
  arith,
  token-replace j id f maps h,
  token-cons j m maps,
  token-cons j (f m) maps,
  token-cons j m (replace_first id f maps),
  (h m).0,
  (h m).1,
)

token-first :
    (j : String) (n old : MapRecord) (maps : List MapRecord)
    → find (is_map n.map_id) maps ≡ some old
    → get_edit_token j (replace_first n.map_id (λ o. n) maps)
      ≡ with_token n.map_id (some n.edit_token) (λ k. get_edit_token k maps) j
token-first j n old [] h = ground (arith, h)
token-first j n old (m ∷ maps) h = elim (Bool-cases (m.map_id == n.map_id)) [
  | inl e ↦ rw e (
      ground (
        arith,
        e,
        token-cons j n maps,
        token-cons j m maps,
        eq_iff m.map_id n.map_id,
        eq_iff n.map_id j,
        eq_iff m.map_id j,
      ))
  | inr e ↦ rw e (
      ground (
        arith,
        e,
        token-first j n old maps (ground (arith, h, e)),
        token-cons j m (replace_first n.map_id (λ o. n) maps),
        token-cons j m maps,
        eq_iff m.map_id n.map_id,
        eq_iff n.map_id j,
        eq_iff m.map_id j,
      ))
]

token-put :
    (j : String) (n : MapRecord) (maps : List MapRecord)
    → get_edit_token j (put n (find (is_map n.map_id) maps) maps)
      ≡ with_token n.map_id (some n.edit_token) (λ k. get_edit_token k maps) j
token-put j n maps = elim (Option-cases (find (is_map n.map_id) maps)) [
  | inl e ↦ rw e (token-cons j n maps)
  | inr (old, e) ↦ rw e (token-first j n old maps e)
]

token-captured :
    (j now id : String) (o : Option String) (maps : List MapRecord)
    → get_edit_token j
        (elim o as (λ x. List MapRecord × Option String) [
          | none ↦ (maps, none)
          | some token ↦ (
            save_my_map true now
                (record { map_id = id; edit_token = token; name = none; is_listed = none })
                maps,
            some token,
          )
        ]).0
      ≡ captured id o (λ k. get_edit_token k maps) j
unfolding save_my_map
token-captured j now id none maps = refl
token-captured j now id (some token) maps =
    token-put j
      (updated_record now
        (record { map_id = id; edit_token = token; name = none; is_listed = none })
        (find (is_map id) maps))
      maps

token-synced :
    (j id : String) (meta : MapMeta) (o : Option MapRecord) (maps : List MapRecord)
    → get_edit_token j (elim o as (λ x. List MapRecord) [
      | none ↦ maps
      | some m ↦ replace_first id (with_meta meta) maps
    ])
      ≡ get_edit_token j maps
token-synced j id meta none maps = refl
token-synced j id meta (some m) maps = token-replace j id (with_meta meta) maps (λ n. (refl, refl))

get_edit_token-perform :
    (c : MapCall) (maps : List MapRecord) (j : String)
    → get_edit_token j (perform true c maps) ≡ told c (λ k. get_edit_token k maps) j
unfolding perform
get_edit_token-perform (saving now entry) maps j =
    token-put j (updated_record now entry (find (is_map entry.map_id) maps)) maps
get_edit_token-perform (syncing id meta) maps j =
    token-synced j id meta (find (is_map id) maps) maps
get_edit_token-perform (removing id) maps j = token-filter j id maps
get_edit_token-perform (capturing now none id) maps j = refl
get_edit_token-perform (capturing now (some params) id) maps j =
    token-captured j now id (hash_token params) maps

abbrev pub perform_all : List MapCall → List MapRecord → List MapRecord
perform_all [] maps = maps
perform_all (c ∷ cs) maps = perform_all cs (perform true c maps)

abbrev pub told_all : List MapCall → Tokens → Tokens
told_all [] t = t
told_all (c ∷ cs) t = told_all cs (told c t)

abbrev pub tokens_of : List MapRecord → Tokens
tokens_of maps j = get_edit_token j maps

-- After any calls whose writes succeed, the tokens that are found are those of a function from the
-- maps' ids, on which a call saves or captures a token for its map, removes its map's, or changes
-- none.
pub tokens_of-perform_all :
    (cs : List MapCall) (maps : List MapRecord)
    → tokens_of (perform_all cs maps) ≡ told_all cs (tokens_of maps)
tokens_of-perform_all [] maps = refl
tokens_of-perform_all (c ∷ cs) maps =
    tokens_of-perform_all cs (perform true c maps)
    ∙ ap (told_all cs) (fun_ext (get_edit_token-perform c maps))
