-- ===== src/Clocks/WallFault.antt =====
-- What a latched wall fault stops and what it leaves alone (app/services/control_clock.py).
use kz_home_core.Common.{true, false, List, [], ◌∷◌, ◌≡◌, sym, err, unavailable, arith}
use kz_home_core.Clocks.ControlClock.{
  ControlClock, tick, recovered, logical_now, check_wall, read_wall, read_health, require_health,
  sample_at, sample, accept_tick,
}
use kz_home_core.Clocks.ControlClockLaws.{
  Later, tick_lem, recovered_lem, logical_now_lem, sample-Later,
}

-- The calls that the authority makes on its clock.
pub data Call : Type 0 where
  ticks recovers reads samples : Call

abbrev pub call : Call → ControlClock → ControlClock
call ticks c = (tick c).1
call recovers c = (recovered c).1
call reads c = (logical_now c).1
call samples c = (sample c).1

abbrev pub after_calls : List Call → ControlClock → ControlClock
after_calls [] c = c
after_calls (x ∷ xs) c = after_calls xs (call x c)

call-Later : (x : Call) (c : ControlClock) → Later c (call x c)
call-Later ticks c = (tick_lem c).0
call-Later recovers c = (recovered_lem c).0
call-Later reads c = (logical_now_lem c).0
call-Later samples c = sample-Later c

wall_stays :
    (xs : List Call) (c : ControlClock) → c.wall_fault ≡ true → (after_calls xs c).wall_fault ≡ true
wall_stays [] c h = h
wall_stays (x ∷ xs) c h = wall_stays xs (call x c) ((call-Later x c).wall_latched h)

sample_faulty : (c : ControlClock) → c.wall_fault ≡ true → (sample c).0 ≡ err unavailable
unfolding tick accept_tick recovered check_wall read_wall read_health require_health sample_at
    sample
sample_faulty c h = ground arith

abbrev pub repaired : ControlClock → ControlClock
repaired c = record c { wall_fault = false }

logical_now-repaired : (c : ControlClock) → (logical_now (repaired c)).0 ≡ (logical_now c).0
unfolding tick accept_tick logical_now
logical_now-repaired c = ground arith

-- Once a wall fault is latched, it is for good: after any further calls of the clock, whatever its readers
-- give, `sample` raises "unavailable", while `logical_now`, which deadlines use, answers or raises what it
-- would without the fault.
pub wall_fault_admission :
    (c : ControlClock) (calls : List Call)
    → c.wall_fault ≡ true
    → ((sample (after_calls calls c)).0 ≡ err unavailable)
      × ((logical_now (after_calls calls c)).0 ≡ (logical_now (repaired (after_calls calls c))).0)
wall_fault_admission c calls h = (
  sample_faulty (after_calls calls c) (wall_stays calls c h),
  sym (logical_now-repaired (after_calls calls c)),
)
