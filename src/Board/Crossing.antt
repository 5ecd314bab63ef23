-- ===== src/Board/Crossing.antt =====
-- Crossing roads: ccw and roadsIntersect of frontend/src/core/editor/geometryUtils.ts, over planar
-- points with integer coordinates (the source's are floating-point metres).
use runway_the_game.Prelude.{Bool, false, ◌&&◌, ◌||◌, if◌then◌else◌}
use runway_the_game.Prelude.Int.{ℤ, ◌-ℤ◌, ◌*ℤ◌, is_pos, is_neg, eq_ℤ}

pub record Point : Type 0 where
  pub x : ℤ
  pub y : ℤ

pub ccw : Point → Point → Point → ℤ
ccw p1 p2 p3 = (p3.y -ℤ p1.y) *ℤ (p2.x -ℤ p1.x) -ℤ (p2.y -ℤ p1.y) *ℤ (p3.x -ℤ p1.x)

abbrev pub same_point : Point → Point → Bool
same_point p q = eq_ℤ p.x q.x && eq_ℤ p.y q.y

-- `(a > 0 && b < 0) || (a < 0 && b > 0)`
abbrev pub opposite : ℤ → ℤ → Bool
opposite a b = is_pos a && is_neg b || is_neg a && is_pos b

unfoldable pub roads_intersect : Point → Point → Point → Point → Bool
unfolding ccw
roads_intersect p1 q1 p2 q2 =
    if same_point p1 p2 || same_point p1 q2 || same_point q1 p2 || same_point q1 q2
    then false
    else opposite (ccw p1 q1 p2) (ccw p1 q1 q2) && opposite (ccw p2 q2 p1) (ccw p2 q2 q1)
