-- ===== src/Clocks/ControlClockLaws.antt =====
-- What the control clock promises (app/services/control_clock.py).
use kz_home_core.Common.{
  ℕ, ◌+◌, ◌≤◌, Bool, true, false, ◌≡◌, refl, ap, ◌∙◌, Result, ok, err, unavailable, arith, ◌>>=◌,
  ◌>>◌, Error, not, ◌||◌, Exec, Moves, Moves-bind, Moves-gets, Moves-pure, Moves-raise_if, bind-ok,
  gets, pure, raise_if, subst,
}
use kz_home_core.Clocks.Wall.{Wall, distance, second}
use kz_home_core.Clocks.ControlClock.{
  ControlClock, tick, recovered, anchored, logical_now, check_wall, read_wall, read_health,
  require_health, sample_at, sample,
}

-- What any number of readings leave alone, and what can only grow or be latched.
pub record Later (c d : ControlClock) : Type 0 where
  pub last : c.last ≤ d.last
  pub epoch : d.epoch ≡ c.epoch
  pub qualified : d.qualified ≡ c.qualified
  pub start : d.start ≡ c.start
  pub fence_start : d.fence_start ≡ c.fence_start
  pub fence_us : d.fence_us ≡ c.fence_us
  pub anchor : d.anchor ≡ c.anchor
  pub timer_latched : c.timer_fault ≡ true → d.timer_fault ≡ true
  pub wall_latched : c.wall_fault ≡ true → d.wall_fault ≡ true

pub Later-refl : (c : ControlClock) → Later c c
Later-refl c = ground arith

pub Later-trans : {c d e : ControlClock} → Later c d → Later d e → Later c e
Later-trans h k = ground arith

-- A tick that is returned is the clock's last, not before the previous one, of a qualified clock
-- without a timer fault; and whether it returns or raises, the clock only moves on.
pub tick_lem :
    (c : ControlClock)
    → Later c (tick c).1
      × ((t : ℕ)
          → (tick c).0 ≡ ok t
          → ((tick c).1.last ≡ t)
            × (c.last ≤ t)
            × (c.qualified ≡ true)
            × ((tick c).1.timer_fault ≡ false)
            × ((tick c).1.wall_fault ≡ c.wall_fault))
unfolding tick
tick_lem c = (ground arith, λ t h. ground arith)

tick-ok :
    (c : ControlClock) (t : ℕ)
    → (tick c).0 ≡ ok t
    → ((tick c).1 ≡ record c { calls = c.calls + 1; last = t })
      × (c.qualified ≡ true)
      × (c.timer_fault ≡ false)
      × (c.last ≤ t)
unfolding tick
tick-ok c t h = ground arith

tick-eq-unavailable : (c : ControlClock) (e : Error) → (tick c).0 ≡ err e → e ≡ unavailable
unfolding tick
tick-eq-unavailable c e h = ground arith

pub recovered_lem :
    (c : ControlClock)
    → Later c (recovered c).1
      × ((recovered c).0 ≡ ok true
          → (c.fence_start + c.fence_us ≤ (recovered c).1.last)
            × ((recovered c).1.timer_fault ≡ false)
            × ((recovered c).1.wall_fault ≡ c.wall_fault))
unfolding tick recovered
recovered_lem c = (ground arith, λ h. ground arith)

pub logical_now_lem :
    (c : ControlClock)
    → Later c (logical_now c).1
      × ((v : ℕ)
          → (logical_now c).0 ≡ ok v
          → (v ≡ anchored (logical_now c).1.last (logical_now c).1)
            × (c.qualified ≡ true)
            × (c.timer_fault ≡ false)
            × (c.anchor.is_utc ≡ true))
unfolding tick logical_now
logical_now_lem c = (ground arith, λ v h. ground arith)

-- What a successful sample has seen of the clock `c` before and `d` after it.
pub record Healthy (c d : ControlClock) (v t : ℕ) : Type 0 where
  pub value : v ≡ anchored t c
  pub ticked : t ≤ d.last
  pub timer : d.timer_fault ≡ false
  pub wall_before : c.wall_fault ≡ false
  pub wall_after : d.wall_fault ≡ false
  pub utc : c.anchor.is_utc ≡ true
  pub past_fence : c.fence_start + c.fence_us ≤ d.last

abbrev Advances : {A : Type 0} → Exec ControlClock A → Type 0
Advances m = Moves Later m

Advances-bind :
    {A B : Type 0} (m : Exec ControlClock A) (f : A → Exec ControlClock B)
    → Advances m
    → ((a : A) → Advances (f a))
    → Advances (m >>= f)
Advances-bind = Moves-bind Later Later-refl (λ s t u. Later-trans)

Advances-gets : {A : Type 0} (f : ControlClock → A) → Advances (gets f)
Advances-gets = Moves-gets Later Later-refl (λ s t u. Later-trans)

Advances-pure : {A : Type 0} (a : A) → Advances (pure a)
Advances-pure = Moves-pure Later Later-refl (λ s t u. Later-trans)

Advances-raise_if : (b : Bool) (e : Error) → Advances (raise_if b e)
Advances-raise_if = Moves-raise_if Later Later-refl (λ s t u. Later-trans)

Advances-recovered : Advances recovered
Advances-recovered = record { at = λ c. (recovered_lem c).0 }

Advances-read_health : Advances read_health
unfolding read_health
Advances-read_health = record { at = λ c. ground arith }

Advances-read_wall : Advances read_wall
unfolding read_wall
Advances-read_wall = record { at = λ c. ground arith }

Advances-check_wall : (t : ℕ) (w : Wall) → Advances (check_wall t w)
unfolding check_wall
Advances-check_wall t w = record { at = λ c. ground arith }

Advances-require_health : Advances require_health
unfolding require_health
Advances-require_health =
    Advances-bind (gets (λ c. c.wall_fault)) _ (Advances-gets (λ c. c.wall_fault)) λ fault.
      Advances-bind (raise_if fault unavailable) _ (Advances-raise_if fault unavailable) λ _.
        Advances-bind read_health _ Advances-read_health λ healthy.
          Advances-bind (raise_if (not healthy) unavailable) _
            (Advances-raise_if (not healthy) unavailable)
            λ _.
              Advances-bind recovered _ Advances-recovered
                λ past. Advances-raise_if (not past) unavailable

Advances-sample_at : (t : ℕ) → Advances (sample_at t)
unfolding sample_at
Advances-sample_at t = Advances-bind read_wall _ Advances-read_wall λ wall.
    Advances-bind (check_wall t wall) _ (Advances-check_wall t wall)
      λ value. Advances-bind require_health _ Advances-require_health λ _. Advances-pure (value, t)

Advances-sample : Advances sample
unfolding sample
Advances-sample =
    Advances-bind tick _ (record { at = λ c. (tick_lem c).0 }) λ t. Advances-sample_at t

require_health-ok :
    (c : ControlClock)
    → (require_health c).0 ≡ ok tt
    → (c.wall_fault ≡ false)
      × (c.utc_health c.calls ≡ true)
      × (c.fence_start + c.fence_us ≤ (require_health c).1.last)
      × (c.last ≤ (require_health c).1.last)
      × ((require_health c).1.timer_fault ≡ false)
      × ((require_health c).1.wall_fault ≡ false)
unfolding tick recovered read_health require_health
require_health-ok c h = ground arith

check_wall-ok :
    (t : ℕ) (w : Wall) (c : ControlClock) (v : ℕ)
    → (check_wall t w c).0 ≡ ok v
    → (v ≡ anchored t c)
      × (c.anchor.is_utc ≡ true)
      × ((check_wall t w c).1.wall_fault ≡ false
          → (c.wall_fault ≡ false) × (w.is_utc ≡ true) × (distance w.micros v ≤ second))
      × ((check_wall t w c).1.last ≡ c.last)
      × ((check_wall t w c).1.calls ≡ c.calls)
      × ((check_wall t w c).1.utc_health c.calls ≡ c.utc_health c.calls)
      × ((check_wall t w c).1.fence_start + (check_wall t w c).1.fence_us
          ≡ c.fence_start + c.fence_us)
unfolding check_wall
check_wall-ok t w c v h = ground arith

-- The part of `sample_at` behind the wall check.
after_wall : ℕ → ℕ → Exec ControlClock (ℕ × ℕ)
after_wall value t = do require_health; pure (value, t)

sample_at-Healthy :
    (t : ℕ) (c : ControlClock) (v u : ℕ)
    → c.last ≡ t
    → (sample_at t c).0 ≡ ok (v, u)
    → (u ≡ t)
      × Healthy c (sample_at t c).1 v t
      × ((c.wall c.calls).is_utc ≡ true)
      × (distance (c.wall c.calls).micros v ≤ second)
      × (c.utc_health (c.calls + 1) ≡ true)
unfolding sample_at read_wall after_wall
sample_at-Healthy t c v u l h =
    let c1 = record c { calls = c.calls + 1 } in
    let (value, p, e) = bind-ok (check_wall t (c.wall c.calls)) (λ x. after_wall x t) c1 (v, u) h in
    let d = (check_wall t (c.wall c.calls) c1).1 in
    let (_, q, f) =
      bind-ok require_health (λ _. pure (value, t)) d (v, u)
        (subst (λ (x : Result (ℕ × ℕ) × ControlClock). x.0 ≡ ok (v, u)) e h) in
    let facts = check_wall-ok t (c.wall c.calls) c1 value p in
    let health = require_health-ok d q in ground arith

-- Whether a sample is returned or raises, the clock only moves on.
pub sample-Later : (c : ControlClock) → Later c (sample c).1
sample-Later c = Advances-sample.at c

-- A sample that is returned is the anchored time of its own tick; that tick is not before the
-- previous one and the clock's last not before it; the clock is qualified, has no timer or wall
-- fault (before or after), a UTC anchor, has read a healthy UTC and a wall in UTC within one second
-- of the value, and has passed the recovery fence.
pub sample-Healthy :
    (c : ControlClock) (v t : ℕ)
    → (sample c).0 ≡ ok (v, t)
    → Healthy c (sample c).1 v t
      × (c.last ≤ t)
      × (c.qualified ≡ true)
      × (c.timer_fault ≡ false)
      × ((c.wall (c.calls + 1)).is_utc ≡ true)
      × (distance (c.wall (c.calls + 1)).micros v ≤ second)
      × (c.utc_health (c.calls + 1 + 1) ≡ true)
unfolding sample
sample-Healthy c v t h =
    let (u, p, e) = bind-ok tick sample_at c (v, t) h in
    let (moved, qualified, timer, advanced) = tick-ok c u p in
    let d = record c { calls = c.calls + 1; last = u } in
    let (same, healthy, wall_utc, near, health) = sample_at-Healthy u d v t refl (
      subst (λ (x : Result (ℕ × ℕ) × ControlClock). x.0 ≡ ok (v, t)) (e ∙ ap (sample_at u) moved)
        h) in
    ground (arith, e ∙ ap (sample_at u) moved)

-- A clock that is not qualified, which is how the shipped wiring builds it, or that has latched a
-- timer fault, answers nothing: every operation raises "unavailable" and leaves the clock as it was.
unqualified_refuses :
    (c : ControlClock)
    → (not c.qualified || c.timer_fault) ≡ true
    → (tick c ≡ (err unavailable, c))
      × (recovered c ≡ (err unavailable, c))
      × (logical_now c ≡ (err unavailable, c))
      × (sample c ≡ (err unavailable, c))
unfolding tick recovered logical_now sample
unqualified_refuses c h = (ground arith, ground arith, ground arith, ground arith)
