-- ===== src/Maps.antt =====
-- The maps that this device may edit: frontend/src/core/game/mapSession.ts. What localStorage holds
-- is a list of records; whether a write succeeds (setItem of frontend/src/core/util/storage.ts), the
-- time of a call and the parameters of the address's hash are arguments.
pub mod Tokens
mod Tests
use runway_the_game.Prelude.{
  String, ◌==◌, Bool, true, false, not, Option, none, some, List, [], ◌∷◌, filter, find, truthy,
  or_default, if◌then◌else◌,
}

pub record MapRecord : Type 0 where
  pub map_id : String
  pub edit_token : String
  pub name : String
  pub updated_at : String
  pub is_listed : Option Bool

pub record MapEntry : Type 0 where
  pub map_id : String
  pub edit_token : String
  pub name : Option String
  pub is_listed : Option Bool

pub record MapMeta : Type 0 where
  pub name : Option String
  pub is_listed : Option Bool

abbrev pub is_map : String → MapRecord → Bool
is_map id m = m.map_id == id

-- `setItem`
abbrev pub stored : Bool → List MapRecord → List MapRecord → List MapRecord
stored saved new old = if saved then new else old

abbrev pub name_or : Option String → String → String
name_or none old = old
name_or (some n) old = if truthy n then n else old

abbrev pub or_else {ℓ} : {A : Type ℓ} → Option A → Option A → Option A
or_else none b = b
or_else (some a) b = some a

abbrev pub updated_record : String → MapEntry → Option MapRecord → MapRecord
updated_record now entry existing = record {
  map_id = entry.map_id;
  edit_token = entry.edit_token;
  name = name_or entry.name (elim existing [ none ↦ "Untitled Map" | some m ↦ m.name ]);
  updated_at = now;
  is_listed = or_else entry.is_listed (elim existing [ none ↦ some false | some m ↦ m.is_listed ]);
}

-- `current[index] = ...` at the first record of the map
abbrev pub replace_first : String → (MapRecord → MapRecord) → List MapRecord → List MapRecord
replace_first id f [] = []
replace_first id f (m ∷ ms) = if is_map id m then f m ∷ ms else m ∷ replace_first id f ms

abbrev pub put : MapRecord → Option MapRecord → List MapRecord → List MapRecord
put m none ms = m ∷ ms
put m (some old) ms = replace_first m.map_id (λ o. m) ms

unfoldable pub save_my_map : Bool → String → MapEntry → List MapRecord → List MapRecord
save_my_map saved now entry maps =
    let existing = find (is_map entry.map_id) maps in
    stored saved (put (updated_record now entry existing) existing maps) maps

abbrev pub with_meta : MapMeta → MapRecord → MapRecord
with_meta meta m = record m {
  name = name_or meta.name m.name;
  is_listed = or_else meta.is_listed m.is_listed;
}

unfoldable pub sync_my_map_meta : Bool → String → MapMeta → List MapRecord → List MapRecord
sync_my_map_meta saved id meta maps = elim (find (is_map id) maps) [
  | none ↦ maps
  | some m ↦ stored saved (replace_first id (with_meta meta) maps) maps
]

unfoldable pub get_edit_token : String → List MapRecord → Option String
get_edit_token id maps = elim (find (is_map id) maps) [ none ↦ none | some m ↦ some m.edit_token ]

unfoldable pub remove_my_map : Bool → String → List MapRecord → List MapRecord
remove_my_map saved id maps = stored saved (filter (λ m. not (is_map id m)) maps) maps

-- `a || b` on optional texts.
abbrev pub or_param : Option String → Option String → Option String
or_param none b = b
or_param (some a) b = if truthy a then some a else b

abbrev pub hash_token : (String → Option String) → Option String
hash_token params =
    or_param (params "token") (or_param (params "key") (or_param (params "edit_token") none))

-- The parameters are none when the address has no hash, or one that cannot be read.
unfoldable pub capture_edit_token_from_hash :
    Bool
    → String
    → Option (String → Option String)
    → String
    → List MapRecord
    → List MapRecord × Option String
unfolding save_my_map
capture_edit_token_from_hash saved now none id maps = (maps, none)
capture_edit_token_from_hash saved now (some params) id maps = elim (hash_token params) [
  | none ↦ (maps, none)
  | some token ↦ (
    save_my_map saved now
        (record { map_id = id; edit_token = token; name = none; is_listed = none }) maps,
    some token,
  )
]
