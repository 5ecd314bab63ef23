-- ===== src/Projection/Snapshot/Laws.antt =====
-- What a snapshot leaves in the store, and the deadlines folded from the rows of its effects.
use runway_the_game.Prelude.{
  ℕ, ◌≤◌, String, eq_iff, ◌≡◌, ◌≢◌, refl, ◌∙◌, Option, none, some, List, [], ◌∷◌, All, arith,
  or_default,
}
use runway_the_game.Projection.{GameState, TeamEffects}
use runway_the_game.Projection.Raw.{RawEffect, RawSnapshot}
use runway_the_game.Projection.Snapshot.{
  empty_effects, later, later_of, apply_effect, apply_effects, apply_snapshot,
}

module _ (parse_date : String → Option ℕ) (session_team : String → Option String) where
  abbrev pub replay : List RawSnapshot → GameState → GameState
  replay [] state = state
  replay (raw ∷ raws) state = replay raws (apply_snapshot parse_date session_team raw state)

  apply_snapshot_ignores :
      (raw : RawSnapshot) (state other : GameState)
      → raw.game_id ≢ ""
      → apply_snapshot parse_date session_team raw state
        ≡ record (apply_snapshot parse_date session_team raw other) {
          connection = state.connection;
        }
  unfolding apply_snapshot
  apply_snapshot_ignores raw state other named = ground (arith, eq_iff raw.game_id "")

  connection-replay :
      (raws : List RawSnapshot) (state : GameState)
      → (replay raws state).connection ≡ state.connection
  unfolding apply_snapshot
  connection-replay [] state = refl
  connection-replay (raw ∷ raws) state =
      connection-replay raws (apply_snapshot parse_date session_team raw state)

  -- A snapshot that names its game decides the whole state but the connection: whatever snapshots
  -- came before, and from whatever state, it leaves what it would leave on any other state.
  pub apply_snapshot-replay :
      (raws : List RawSnapshot) (raw : RawSnapshot) (state other : GameState)
      → raw.game_id ≢ ""
      → apply_snapshot parse_date session_team raw (replay raws state)
        ≡ record (apply_snapshot parse_date session_team raw other) {
          connection = state.connection;
        }
  apply_snapshot-replay raws raw state other named =
      apply_snapshot_ignores raw (replay raws state) other named ∙ rw (connection-replay raws state)

module _ (parse_date : String → Option ℕ) where
  -- The moment that a deadline names, 0 if there is none.
  abbrev pub moment : Option String → ℕ
  moment none = 0
  moment (some t) = or_default (parse_date t) 0

  abbrev pub Parses : String → Type 0
  Parses t = parse_date t ≢ none

  abbrev Sound : Option String → Type 0
  Sound none = Unit
  Sound (some t) = Parses t

  -- A deadline is no earlier than the row of its kind.
  pub record Covers (view : TeamEffects) (row : RawEffect) : Type 0 where
    pub freeze : row.kind ≡ "freeze" → moment (some row.until) ≤ moment view.frozen_until
    pub tracker_off :
        row.kind ≡ "tracker_off" → moment (some row.until) ≤ moment view.tracker_off_until
    pub veto_penalty :
        row.kind ≡ "veto_penalty" → moment (some row.until) ≤ moment view.veto_penalty_until

  module _ (empty_date : parse_date "" ≡ none) where
    later_of-max :
        (o : Option String) (t : String)
        → Sound o
        → Parses t
        → (moment o ≤ moment (some (later_of parse_date o t)))
          × (moment (some t) ≤ moment (some (later_of parse_date o t)))
          × Sound (some (later_of parse_date o t))
    unfolding later_of later
    later_of-max none t s p = ground arith
    later_of-max (some u) t s p = ground (arith, eq_iff u "")

    effects_step :
        (view : TeamEffects) (row : RawEffect)
        → Parses row.until
        → Sound view.frozen_until
        → Sound view.tracker_off_until
        → Sound view.veto_penalty_until
        → let next = apply_effect parse_date view row in
          Covers next row
          × (moment view.frozen_until ≤ moment next.frozen_until)
          × (moment view.tracker_off_until ≤ moment next.tracker_off_until)
          × (moment view.veto_penalty_until ≤ moment next.veto_penalty_until)
          × Sound next.frozen_until
          × Sound next.tracker_off_until
          × Sound next.veto_penalty_until
    unfolding apply_effect
    effects_step view row p f t v = ground (
      arith,
      eq_iff row.kind "freeze",
      eq_iff row.kind "tracker_off",
      eq_iff row.kind "veto_penalty",
      eq_iff row.kind "curse",
      eq_iff "freeze" "tracker_off",
      eq_iff "freeze" "veto_penalty",
      eq_iff "tracker_off" "veto_penalty",
      later_of-max view.frozen_until row.until f p,
      later_of-max view.tracker_off_until row.until t p,
      later_of-max view.veto_penalty_until row.until v p,
    )

    -- No deadline of the one is past that of the other.
    record NoLater (a b : TeamEffects) : Type 0 where
      frozen : moment a.frozen_until ≤ moment b.frozen_until
      hidden : moment a.tracker_off_until ≤ moment b.tracker_off_until
      vetoed : moment a.veto_penalty_until ≤ moment b.veto_penalty_until

    Covers-NoLater :
        (a b : TeamEffects) (row : RawEffect) → Covers a row → NoLater a b → Covers b row
    Covers-NoLater a b row c n = record {
      freeze = λ e. omega (arith, c.freeze e, n.frozen);
      tracker_off = λ e. omega (arith, c.tracker_off e, n.hidden);
      veto_penalty = λ e. omega (arith, c.veto_penalty e, n.vetoed);
    }

    apply_effects-Covers :
        (view : TeamEffects) (rows : List RawEffect)
        → All (λ row. Parses row.until) rows
        → Sound view.frozen_until
        → Sound view.tracker_off_until
        → Sound view.veto_penalty_until
        → NoLater view (apply_effects parse_date view rows)
          × All (Covers (apply_effects parse_date view rows)) rows
    unfolding apply_effects
    apply_effects-Covers view [] p f t v = (ground arith, tt)
    apply_effects-Covers view (row ∷ rows) p f t v =
        let next = apply_effect parse_date view row in
        let (c, lf, lt, lv, sf, st, sv) = effects_step view row p.0 f t v in
        let (n, cs) = apply_effects-Covers next rows p.1 sf st sv in
        (
          record {
            frozen = omega (arith, lf, n.frozen);
            hidden = omega (arith, lt, n.hidden);
            vetoed = omega (arith, lv, n.vetoed);
          },
          (Covers-NoLater next (apply_effects parse_date next rows) row c n, cs),
        )

    -- Where the timestamps parse and the empty text does not, a team's freeze, hidden-tracker and veto
    -- deadlines are each no earlier than any row of their kind, whatever the order of the rows.
    pub apply_effects_latest :
        (rows : List RawEffect)
        → All (λ row. Parses row.until) rows
        → All (Covers (apply_effects parse_date empty_effects rows)) rows
    apply_effects_latest rows p = (apply_effects-Covers empty_effects rows p tt tt tt).1
