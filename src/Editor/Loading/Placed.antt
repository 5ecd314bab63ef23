-- ===== src/Editor/Loading/Placed.antt =====
-- Where a loaded board has its challenges: applyBoardToDraft of
-- frontend/src/surfaces/editor/boardDraft.ts.
use runway_the_game.Prelude.{
  String, ◌==◌, ◌≡◌, refl, inl, inr, Bool, true, false, none, some, List, [], ◌∷◌, includes, Dict,
  insert, or_default, All, Bool-cases, if◌then◌else◌,
}
use runway_the_game.Board.{ChallengeDraft}
use runway_the_game.Editor.{EditorDraft}
use runway_the_game.Editor.Wire.{ApiChallenge, challengeable, text_of, or_some}
use runway_the_game.Editor.Loading.{
  ApiBoard, loaded_challenge, place_row, place_rows, apply_board_to_draft,
}

-- Each challenge is on a waypoint of the draft that is not the finish.
abbrev pub IsPlaced : EditorDraft → Type 0
IsPlaced d = All (λ e. includes e.0 (challengeable d.waypoints) ≡ true) d.challenges

module _ {V : Type 0} (valid : List String) where
  abbrev pub Within : Dict V → Type 0
  Within d = All (λ e. includes e.0 valid ≡ true) d

  pub Within-insert :
      (k : String) (v : V) (d : Dict V) → includes k valid ≡ true → Within d → Within (insert k v d)
  Within-insert k v [] h w = (h, tt)
  Within-insert k v ((j, x) ∷ d) h w = elim (Bool-cases (j == k)) [
    | inl e ↦ rw e (w.0, w.1)
    | inr e ↦ rw e (w.0, Within-insert k v d h w.1)
  ]

  if-Within :
      (b : Bool) (x y : Dict V) → (b ≡ true → Within x) → Within y → Within (if b then x else y)
  if-Within true x y h k = h refl
  if-Within false x y h k = k

module _ (valid on_roads : List String) where
  place_row-Within :
      (c : ApiChallenge) (d : Dict ChallengeDraft)
      → Within valid d
      → Within valid (place_row valid on_roads c d)
  place_row-Within c d w =
      let target = text_of (or_some c.waypoint_id (or_some c.road_id (some c.id))) in
      if-Within valid (includes c.id on_roads) d _ (λ e. w)
        (if-Within valid (includes target valid) (insert target (loaded_challenge none c) d) d
          (λ e. Within-insert valid target (loaded_challenge none c) d e w) w)

  place_rows-Within :
      (cs : List ApiChallenge) (d : Dict ChallengeDraft)
      → Within valid d
      → Within valid (place_rows valid on_roads cs d)
  unfolding place_rows
  place_rows-Within [] d w = w
  place_rows-Within (c ∷ cs) d w =
      place_rows-Within cs (place_row valid on_roads c d) (place_row-Within c d w)

-- Each challenge of the draft that a board of the server is loaded into is on a waypoint of the draft
-- that is not the finish, whatever rows the board has.
pub apply_board_to_draft-IsPlaced :
    (prev : EditorDraft) (board : ApiBoard) → IsPlaced (apply_board_to_draft prev board)
unfolding apply_board_to_draft
apply_board_to_draft-IsPlaced prev board =
    place_rows-Within _ _ (or_default board.challenges []) [] tt
