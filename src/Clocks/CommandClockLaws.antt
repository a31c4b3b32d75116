-- ===== src/Clocks/CommandClockLaws.antt =====
-- What the dispatch clock promises (app/services/command_clock.py).
use kz_home_core.Common.{
  ℕ, ◌+◌, ◌-◌, ◌≤◌, ◌||◌, true, false, Option, none, some, ◌≡◌, ok, err, refl, Result, arith,
}
use kz_home_core.Clocks.Wall.{distance, second}
use kz_home_core.Clocks.CommandClock.{CommandClock, now}

-- The anchor lies at or before the last tick, and both are set together.
abbrev Ordered : Option (ℕ × ℕ) → Option ℕ → Type 0
Ordered none last = Unit
Ordered (some (base, start)) none = ⊥
Ordered (some (base, start)) (some last) = start ≤ last

abbrev pub IsValid : CommandClock → Type 0
IsValid c = Ordered c.anchor c.last_tick

-- The time that the last accepted tick stood for, or 0 before the first.
abbrev time_of : Option (ℕ × ℕ) → Option ℕ → ℕ
time_of none last = 0
time_of (some (base, start)) none = 0
time_of (some (base, start)) (some last) = base + (last - start)

abbrev pub reported : CommandClock → ℕ
reported c = time_of c.anchor c.last_tick

now_steady :
    (c : CommandClock)
    → IsValid c
    → IsValid (now c).1
      × (reported c ≤ reported (now c).1)
      × ((c.fault || (now c).1.fault) ≡ (now c).1.fault)
unfolding now
now_steady c valid = (ground arith, ground arith, ground arith)

now-ok :
    (c : CommandClock) (v : ℕ)
    → IsValid c
    → (now c).0 ≡ ok v
    → (v ≡ reported (now c).1)
      × (reported c ≤ v)
      × (distance (c.wall c.calls).micros v ≤ second)
      × ((c.wall c.calls).is_utc ≡ true)
      × (c.fault ≡ false)
      × ((now c).1.fault ≡ false)
unfolding now
now-ok c v valid h = ground arith

-- What a call that returned says: the time that the clock then reports, from a clock without a fault.
abbrev pub IsReading : CommandClock → Result ℕ → CommandClock → Type 0
IsReading c (err e) d = Unit
IsReading c (ok v) d =
    (v ≡ reported d)
    × (reported c ≤ v)
    × (distance (c.wall c.calls).micros v ≤ second)
    × ((c.wall c.calls).is_utc ≡ true)
    × (c.fault ≡ false)
    × (d.fault ≡ false)

-- Whether a call of `now` returns or raises, the clock stays valid, the time it reports does not go
-- back, and a latched fault stays latched. When it returns, it gives the time that the clock then reports,
-- within one second of this call's wall reading, a UTC one; the clock had no fault and has none.
pub now-IsValid :
    (c : CommandClock)
    → IsValid c
    → IsValid (now c).1
      × (reported c ≤ reported (now c).1)
      × ((c.fault || (now c).1.fault) ≡ (now c).1.fault)
      × IsReading c (now c).0 (now c).1
now-IsValid c valid =
    let (still, forward, latched) = now_steady c valid in
    (still, forward, latched, reading (now c).0 refl)
  where
    reading : (r : Result ℕ) → (now c).0 ≡ r → IsReading c r (now c).1
    reading (err e) h = tt
    reading (ok v) h = now-ok c v valid h
