-- ===== src/Clocks/Fence.antt =====
-- Why the recovery fence is long enough (app/services/control_clock.py, "worst-case new-clock fast,
-- old-clock slow, rounded up").
use kz_home_core.Common.{ℕ, ◌+◌, ◌-◌, ◌*◌, ◌≤◌, ◌<◌, arith}
use native.Mathlib.Nat.{mul-le-mul_right, le_of_mul-le-mul_right}
use kz_home_core.Clocks.ControlClock.{fence_of, lifetime_us}

-- Rounding up: the fence times the denominator covers the numerator.
fence_covers :
    (ppm err : ℕ)
    → ppm < 1_000_000
    → (lifetime_us + err) * (1_000_000 + ppm) ≤ fence_of ppm err * (1_000_000 - ppm)
unfolding fence_of
fence_covers ppm err h = grind arith

-- The products of the two drift bounds, with the parts per million as plain factors.
drift_products :
    (m fast slow lower fence n o t : ℕ)
    → lower * fast ≤ fence * slow
    → fence ≤ n
    → n * m ≤ t * fast
    → t * slow ≤ o * m
    → lower * (fast * m) ≤ o * (fast * m)
drift_products m fast slow lower fence n o t covers waited new_fast old_slow = omega (
  arith,
  mul-le-mul_right m covers,
  mul-le-mul_right (slow * m) waited,
  mul-le-mul_right slow new_fast,
  mul-le-mul_right fast old_slow,
)

-- The fence is long enough: if the new clock has counted at least the fence while `t` true
-- microseconds passed and runs at most `ppm` parts per million fast, and the old clock ran at most
-- `ppm` slow, then the old clock has counted a full command lifetime and the recovery error, so every
-- command of the old epoch has expired.
pub fence_sound :
    (ppm error n o t : ℕ)
    → ppm < 1_000_000
    → fence_of ppm error ≤ n
    → n * 1_000_000 ≤ t * (1_000_000 + ppm)
    → t * (1_000_000 - ppm) ≤ o * 1_000_000
    → lifetime_us + error ≤ o
fence_sound ppm error n o t small waited new_fast old_slow =
    le_of_mul-le-mul_right {k = (1_000_000 + ppm) * 1_000_000}
      (drift_products 1_000_000 (1_000_000 + ppm) (1_000_000 - ppm) (lifetime_us + error)
        (fence_of ppm error) n o t (fence_covers ppm error small) waited new_fast old_slow)
      (omega arith)
