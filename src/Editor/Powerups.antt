-- ===== src/Editor/Powerups.antt =====
-- frontend/src/surfaces/editor/powerups.ts: the catalog of powerups, and the saved values merged
-- into it.
use runway_the_game.Prelude.{
  ℕ, ◌==◌, ◌≡◌, refl, sym, ap, ◌∙◌, Bool, true, false, ◌||◌, Option, none, some, List, [], ◌∷◌, map,
  find,
}
use runway_the_game.Editor.{PowerupDraft, PowerupEffect, nerf, tracker_off, challenge_skip}

abbrev pub default_powerups : List PowerupDraft
default_powerups =
    record {
      id = "nerf";
      icon = none;
      name = "Nerf Dart";
      description = "Freeze the opponent team, halting their progress.";
      cost = 10;
      duration_s = 300;
      effect = nerf;
    }
    ∷ record {
      id = "tracker_off";
      icon = none;
      name = "Tracker Off";
      description = "Hide your map position dot from opponents.";
      cost = 25;
      duration_s = 600;
      effect = tracker_off;
    }
    ∷ record {
      id = "challenge_skip";
      icon = none;
      name = "Challenge Skip";
      description = "Bypass your current blocking challenge immediately without penalty.";
      cost = 100;
      duration_s = 0;
      effect = challenge_skip;
    }
    ∷ []

abbrev pub same_effect : PowerupEffect → PowerupEffect → Bool
same_effect nerf nerf = true
same_effect tracker_off tracker_off = true
same_effect challenge_skip challenge_skip = true
same_effect _ _ = false

abbrev pub stands_for : PowerupDraft → PowerupDraft → Bool
stands_for def p = p.id == def.id || same_effect p.effect def.effect

abbrev pub merge_saved : PowerupDraft → Option PowerupDraft → PowerupDraft
merge_saved def none = def
merge_saved def (some found) = record def { cost = found.cost; duration_s = found.duration_s }

unfoldable pub ensure_default_powerups : List PowerupDraft → List PowerupDraft
ensure_default_powerups [] = default_powerups
ensure_default_powerups (p ∷ saved) =
    map (λ def. merge_saved def (find (stands_for def) (p ∷ saved))) default_powerups

-- The catalog with other costs and durations.
abbrev pub priced : ℕ → ℕ → ℕ → ℕ → ℕ → ℕ → List PowerupDraft
priced c1 d1 c2 d2 c3 d3 = elim default_powerups [
  | a ∷ b ∷ c ∷ [] ↦
      record a { cost = c1; duration_s = d1 }
      ∷ record b { cost = c2; duration_s = d2 }
      ∷ record c { cost = c3; duration_s = d3 }
      ∷ []
  | other ↦ other
]

priced_again :
    (c1 d1 c2 d2 c3 d3 : ℕ)
    → ensure_default_powerups (priced c1 d1 c2 d2 c3 d3) ≡ priced c1 d1 c2 d2 c3 d3
unfolding ensure_default_powerups
priced_again c1 d1 c2 d2 c3 d3 = refl

abbrev costs_of : (PowerupDraft → PowerupDraft) → List PowerupDraft
costs_of f = elim default_powerups [
  | a ∷ b ∷ c ∷ [] ↦
      priced (f a).cost (f a).duration_s (f b).cost (f b).duration_s (f c).cost (f c).duration_s
  | other ↦ other
]

merge_saved_lem :
    (def : PowerupDraft) (o : Option PowerupDraft)
    → merge_saved def o
      ≡ record def { cost = (merge_saved def o).cost; duration_s = (merge_saved def o).duration_s }
merge_saved_lem def none = refl
merge_saved_lem def (some found) = refl

cons_three {ℓ} :
    {A : Type ℓ} {a a' b b' c c' : A}
    → a ≡ a'
    → b ≡ b'
    → c ≡ c'
    → ◌≡◌ {A = List A} (a ∷ b ∷ c ∷ []) (a' ∷ b' ∷ c' ∷ [])
cons_three p q r = λ i. p i ∷ q i ∷ r i ∷ []

merged_costs :
    (o : PowerupDraft → Option PowerupDraft)
    → map (λ def. merge_saved def (o def)) default_powerups
      ≡ costs_of (λ def. merge_saved def (o def))
merged_costs o =
    cons_three (merge_saved_lem _ (o _)) (merge_saved_lem _ (o _)) (merge_saved_lem _ (o _))

pub ensure_default_powerups-twice :
    (saved : List PowerupDraft)
    → ensure_default_powerups (ensure_default_powerups saved) ≡ ensure_default_powerups saved
unfolding ensure_default_powerups
ensure_default_powerups-twice [] = priced_again 10 300 25 600 100 0
ensure_default_powerups-twice (p ∷ saved) =
    let found = λ (def : PowerupDraft). find (stands_for def) (p ∷ saved) in
    ap ensure_default_powerups (merged_costs found)
    ∙ priced_again _ _ _ _ _ _
    ∙ sym (merged_costs found)
