-- ===== src/Clocks/Tests.antt =====
-- The clocks on concrete readings, and their theorems at those inputs.
use kz_home_core.Common.{
  List, [], ◌∷◌, ◌+◌, ◌≤◌, true, false, ◌||◌, ◌≡◌, refl, ok, err, unavailable, arith,
}
use kz_home_core.Clocks.Wall.{distance, second}
use kz_home_core.Clocks.CommandClock.{now}
use kz_home_core.Clocks.CommandClockLaws
use kz_home_core.Clocks.CommandClockLaws.{now-IsValid, IsReading, reported}
use kz_home_core.Clocks.ControlClock.{
  ControlClock, tick, recovered, logical_now, sample, sample_at, check_wall, read_wall, read_health,
  require_health, fence_of,
}
use kz_home_core.Clocks.ControlClockLaws.{Healthy, sample-Healthy}
use kz_home_core.Clocks.WallFault.{
  Call, ticks, samples, reads, after_calls, repaired, wall_fault_admission,
}
use kz_home_core.Clocks.Fence.{fence_sound}
use kz_home_core.Samples.{utc_at, dispatch_clock, control_clock}

first_now : (now dispatch_clock).0 ≡ ok 5_000_000
unfolding now
first_now = refl

now-IsValid_example :
    CommandClockLaws.IsValid (now dispatch_clock).1
    × (0 ≤ reported (now dispatch_clock).1)
    × ((false || (now dispatch_clock).1.fault) ≡ (now dispatch_clock).1.fault)
    × IsReading dispatch_clock (now dispatch_clock).0 (now dispatch_clock).1
now-IsValid_example = now-IsValid dispatch_clock tt

sample_succeeds : (sample control_clock).0 ≡ ok (90_000_000, 40_000_000)
unfolding sample sample_at tick recovered check_wall read_wall read_health require_health fence_of
sample_succeeds = refl

sample-Healthy_example :
    Healthy control_clock (sample control_clock).1 90_000_000 40_000_000
    × (0 ≤ 40_000_000)
    × (control_clock.qualified ≡ true)
    × (control_clock.timer_fault ≡ false)
    × ((utc_at 90_000_000).is_utc ≡ true)
    × (distance 90_000_000 90_000_000 ≤ second)
    × (control_clock.utc_health 2 ≡ true)
sample-Healthy_example = sample-Healthy control_clock 90_000_000 40_000_000 sample_succeeds

abbrev unqualified : ControlClock
unqualified = record control_clock { qualified = false }

abbrev stepped_wall : ControlClock
stepped_wall = record control_clock { wall_fault = true }

abbrev further : List Call
further = ticks ∷ samples ∷ reads ∷ []

wall_fault_admission_example :
    ((sample (after_calls further stepped_wall)).0 ≡ err unavailable)
    × ((logical_now (after_calls further stepped_wall)).0
        ≡ (logical_now (repaired (after_calls further stepped_wall))).0)
wall_fault_admission_example = wall_fault_admission stepped_wall further refl

fence_sound_example : 30_000_000 + 1000 ≤ 30_200_000
unfolding fence_of
fence_sound_example =
    fence_sound 1000 1000 30_065_000 30_200_000 30_050_000 (omega arith) (omega arith) (omega arith)
      (omega arith)
