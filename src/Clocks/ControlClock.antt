-- ===== src/Clocks/ControlClock.antt =====
-- `ControlClock` of app/services/control_clock.py. `ticks` gives `none` where the source's reading
-- is not an int; the k-th call of a reader gives the k-th reading. `sys.uuid4` and the three readers
-- are arguments of the constructor.
use kz_home_core.Common.{
  ℕ, ◌+◌, ◌-◌, ◌*◌, ◌/◌, String, Bool, true, false, not, ◌||◌, Option, none, some, ltb, leb,
  or_else, is_none, if◌then◌else◌, Exec, Result, ok, err, unavailable, value_error, pure, gets,
  raise_if, ◌>>=◌, ◌>>◌,
}
use kz_home_core.Clocks.Wall.{Wall, distance, second}

abbrev pub lifetime_us : ℕ
lifetime_us = 30_000_000

abbrev pub permit_us : ℕ
permit_us = 2_000_000

pub record ControlClock : Type 0 where
  pub ticks : ℕ → Option ℕ
  pub wall : ℕ → Wall
  pub utc_health : ℕ → Bool
  pub calls : ℕ
  pub epoch : String
  pub qualified : Bool
  pub start : ℕ
  pub last : ℕ
  pub fence_start : ℕ
  pub anchor : Wall
  pub timer_fault : Bool
  pub wall_fault : Bool
  pub fence_us : ℕ

-- The length of the recovery fence, rounded up.
unfoldable pub fence_of : ℕ → ℕ → ℕ
fence_of rate_error_ppm recovery_error_us =
    let numerator = (lifetime_us + recovery_error_us) * (1_000_000 + rate_error_ppm) in
    let denominator = 1_000_000 - rate_error_ppm in (numerator + denominator - 1) / denominator

-- `__init__`: the first readings of `ticks` and `wall`.
unfoldable pub new :
    (ℕ → Option ℕ) → (ℕ → Wall) → (ℕ → Bool) → String → Bool → ℕ → ℕ → Result ControlClock
unfolding fence_of
new ticks wall utc_health epoch qualified rate_error_ppm recovery_error_us =
    if not (ltb rate_error_ppm 1_000_000)
    then err value_error
    else ok (record {
      ticks = ticks;
      wall = wall;
      utc_health = utc_health;
      calls = 2;
      epoch = epoch;
      qualified = qualified;
      start = or_else (ticks 0) 0;
      last = or_else (ticks 0) 0;
      fence_start = or_else (ticks 0) 0;
      anchor = wall 1;
      timer_fault = is_none (ticks 0);
      wall_fault = false;
      fence_us = fence_of rate_error_ppm recovery_error_us;
    })

-- The reading of `self.ticks()` is accepted, or latches the timer fault.
unfoldable pub accept_tick : Option ℕ → Exec ControlClock ℕ
accept_tick none c = (err unavailable, record c { timer_fault = true })
accept_tick (some value) c =
    if ltb value c.last
    then (err unavailable, record c { timer_fault = true })
    else (ok value, record c { last = value })

-- `tick`
unfoldable pub tick : Exec ControlClock ℕ
unfolding accept_tick
tick c =
    if not c.qualified || c.timer_fault
    then (err unavailable, c)
    else accept_tick (c.ticks c.calls) (record c { calls = c.calls + 1 })

-- `recovered`; the difference of the source is compared without subtracting.
unfoldable pub recovered : Exec ControlClock Bool
recovered = do t ← tick; gets (λ c. leb (c.fence_start + c.fence_us) t)

-- `self.anchor + timedelta(microseconds=tick - self.start)`
abbrev pub anchored : ℕ → ControlClock → ℕ
anchored t c = c.anchor.micros + t - c.start

-- `logical_now`
unfoldable pub logical_now : Exec ControlClock ℕ
logical_now = do
  t ← tick
  ok_anchor ← gets (λ c. c.anchor.is_utc)
  raise_if (not ok_anchor) unavailable
  gets (anchored t)

-- The checks of `sample` on the anchor and on a wall reading.
unfoldable pub check_wall : ℕ → Wall → Exec ControlClock ℕ
check_wall t wall c =
    if not c.anchor.is_utc
    then (err unavailable, record c { wall_fault = true })
    else if not wall.is_utc || ltb second (distance wall.micros (anchored t c))
    then (ok (anchored t c), record c { wall_fault = true })
    else (ok (anchored t c), c)

unfoldable pub read_wall : Exec ControlClock Wall
read_wall c = (ok (c.wall c.calls), record c { calls = c.calls + 1 })

unfoldable pub read_health : Exec ControlClock Bool
read_health c = (ok (c.utc_health c.calls), record c { calls = c.calls + 1 })

-- `if self.wall_fault or not self.utc_health() or not self.recovered(): raise`
unfoldable pub require_health : Exec ControlClock (Unit {0})
require_health = do
  fault ← gets (λ c. c.wall_fault)
  raise_if fault unavailable
  healthy ← read_health
  raise_if (not healthy) unavailable
  past_fence ← recovered
  raise_if (not past_fence) unavailable

-- `sample` after its tick `t`.
unfoldable pub sample_at : ℕ → Exec ControlClock (ℕ × ℕ)
sample_at t = do wall ← read_wall; value ← check_wall t wall; require_health; pure (value, t)

-- `sample`
unfoldable pub sample : Exec ControlClock (ℕ × ℕ)
sample = do t ← tick; sample_at t
