-- ===== src/Clocks/CommandClock.antt =====
-- `CommandClock` of app/services/command_clock.py. The monotonic float seconds are whole
-- microseconds here, `none` where they are not finite; the k-th call of the readers gives the k-th
-- reading.
use kz_home_core.Common.{
  ℕ, ◌+◌, ◌-◌, Bool, true, false, not, ◌||◌, Option, none, some, ltb, if◌then◌else◌, Exec, ok, err,
  unavailable, or_else,
}
use kz_home_core.Clocks.Wall.{Wall, distance, second}

pub record CommandClock : Type 0 where
  pub wall : ℕ → Wall
  pub ticks : ℕ → Option ℕ
  pub calls : ℕ
  pub anchor : Option (ℕ × ℕ)
  pub fault : Bool
  pub last_tick : Option ℕ

-- `self.last_tick is not None and tick < self.last_tick`
abbrev pub goes_back : Option ℕ → ℕ → Bool
goes_back none tick = false
goes_back (some last) tick = ltb tick last

-- The rest of `now` once the readings are accepted: the tick is kept, the anchor set at the first
-- call, and the wall must lie within a second of the anchored time.
unfoldable pub settle : Wall → ℕ → Exec CommandClock ℕ
settle wall tick c =
    let (base, start) = or_else c.anchor (wall.micros, tick) in
    let value = base + (tick - start) in
    let kept = record c { last_tick = some tick; anchor = some (base, start) } in
    if ltb tick start || ltb second (distance wall.micros value)
    then (err unavailable, record kept { fault = true })
    else (ok value, kept)

unfoldable pub observe : Wall → Option ℕ → Exec CommandClock ℕ
unfolding settle
observe wall none c = (err unavailable, record c { fault = true })
observe wall (some tick) c =
    if not wall.is_utc || goes_back c.last_tick tick
    then (err unavailable, record c { fault = true })
    else if c.fault
    then (err unavailable, c)
    else settle wall tick c

-- `now`
unfoldable pub now : Exec CommandClock ℕ
unfolding observe
now c = observe (c.wall c.calls) (c.ticks c.calls) (record c { calls = c.calls + 1 })
