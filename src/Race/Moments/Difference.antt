-- ===== src/Race/Moments/Difference.antt =====
-- diffMoments of frontend/src/core/game/raceMoments.ts.
use runway_the_game.Prelude.{String, sort_by}
use runway_the_game.Projection.{GameState}
use runway_the_game.Race.Moments.{MomentBatch, by_priority, head?}
use runway_the_game.Race.Moments.Celebrations.{candidates}
use runway_the_game.Race.Moments.Rivals.{rival_events}

module _ (prev next : GameState) (t : String) where
  -- EMPTY is this batch when both parts are empty.
  unfoldable pub diff_moments : MomentBatch
  unfolding candidates rival_events
  diff_moments = record {
    celebration = head? (sort_by by_priority (candidates prev next t));
    rival = rival_events prev next t;
  }
