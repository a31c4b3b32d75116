-- ===== src/Clocks/Wall.antt =====
-- Readings of the operating system's clocks, which the clocks take as `Callable` arguments. Times
-- are microseconds; a wall reading says whether it carries a zero UTC offset.
use kz_home_core.Common.{ℕ, ◌+◌, ◌-◌, Bool}

pub record Wall : Type 0 where
  pub micros : ℕ
  pub is_utc : Bool

-- |a - b|
abbrev pub distance : ℕ → ℕ → ℕ
distance a b = (a - b) + (b - a)

-- One second, and `COMMAND_LIFETIME` of app/services/command_clock.py.
abbrev pub second : ℕ
second = 1_000_000

abbrev pub command_lifetime : ℕ
command_lifetime = 30_000_000
