-- ===== src/Editor/Editing/Tests.antt =====
-- The editor's operations on a board of two waypoints.
use runway_the_game.Prelude.{◌≡◌, refl, true, none, some, List, [], ◌∷◌, map, arith}
use runway_the_game.Prelude.Int.{ℤ}
use runway_the_game.Board.{ChallengeDraft}
use runway_the_game.Editor.{EditorDraft}
use runway_the_game.Editor.Editing.{Editing}
use runway_the_game.Editor.Editing.Invariant.{IsWellFormed}
use runway_the_game.Editor.Editing.Edits
use runway_the_game.Editor.Editing.Edits.{
  adding, joining, starting, finishing, setting, asking_waypoint, confirming, confirming_finish,
  edit_all, edit,
}
use runway_the_game.Editor.Editing.Asked

abbrev no_draft : EditorDraft
no_draft = record {
  board_name = "Untitled Map";
  waypoints = [];
  roads = [];
  challenges = [];
  roadblock_cards = [];
  curse_cards = [];
  powerups = [];
  rules = record { reward_only_first_completer = true };
}

abbrev opened : EditorDraft → Editing
opened d = record {
  draft = d;
  is_editable = true;
  selected_waypoint_id = none;
  focus_waypoint_ids = none;
  pending_delete = none;
  pending_finish_role = none;
  tracked = [];
}

no_draft-IsWellFormed : IsWellFormed no_draft
no_draft-IsWellFormed = record {
  distinct = tt;
  cast = record { one_start = omega arith; one_finish = omega arith; apart = tt };
  joined = tt;
  simple = tt;
  free = tt;
}

abbrev drawn : List Edits.Edit
drawn =
    adding "a" (ℤ.pos 1) (ℤ.pos 2)
    ∷ adding "b" (ℤ.pos 3) (ℤ.pos 4)
    ∷ joining "r" "a" "b"
    ∷ joining "s" "b" "a"
    ∷ finishing "b"
    ∷ asking_waypoint "a"
    ∷ confirming
    ∷ []

drawn_result : map (λ w. w.id) (edit_all drawn (opened no_draft)).draft.waypoints ≡ "b" ∷ []
unfolding edit_all edit
drawn_result = refl

edit_all-IsWellFormed_example : IsWellFormed (edit_all drawn (opened no_draft)).draft
unfolding edit_all edit
edit_all-IsWellFormed_example =
    Edits.edit_all-IsWellFormed drawn (opened no_draft)
      (refl, (refl, ((refl, refl), ((refl, refl), (tt, (tt, (tt, tt))))))) no_draft-IsWellFormed

abbrev statue : ChallengeDraft
statue = record {
  id = none;
  prompt = "Photograph the statue";
  rubric = record { must_show = []; fails_if = []; acceptable_ambiguity = "" };
  coin_reward = some 20;
  veto_penalty_seconds = some 900;
}

abbrev with_statue : Editing
with_statue = opened (record no_draft { challenges = ("a", statue) ∷ [] })

edit-Keeps_example : Asked.Keeps with_statue "a" statue (edit (finishing "a") with_statue)
edit-Keeps_example = Asked.edit-Keeps (finishing "a") with_statue "a" statue refl refl refl
