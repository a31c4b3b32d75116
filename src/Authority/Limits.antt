-- ===== src/Authority/Limits.antt =====
-- The bounds of `ControlAuthority`: request rates, the deadline of a grant, and what an expiry
-- decision rests on (app/services/control_authority.py).
use text.Mathlib.TextPositions.{eq_refl}
use kz_home_core.Common.{
  ℕ, ◌+◌, ◌≤◌, ◌<◌, String, Bool, true, false, ◌&&◌, some, List, [], ◌∷◌, ◌≡◌, str_eq, ◌==◌, ok,
  returns, keep, any, any-keep, any_mono, length, length-keep, contains, lookup, arith, All, ◌⊎◌,
  inl, inr, Option-cases, Bool-cases,
}
use kz_home_core.Clocks.ControlClock.{tick, recovered, permit_us}
use kz_home_core.Database.{DeviceCommand, ControlCommand}
use kz_home_core.System.{Authority, System, Rate, Window, PermitRequest, ControlDelivery}
use kz_home_core.Authority.Defs.{expired}
use kz_home_core.Authority.Grant.{
  limit, is_recent, is_rate_of, max_rates, max_per_second, rate_interval, grant_permit, reply_of,
}

-- The counters that `_limit` keeps.
pub record IsLimited (a : Authority) : Type 0 where
  pub rates : length a.rates ≤ max_rates
  pub count : a.global_count ≤ max_per_second

-- However a call of the rate limit ends, at most 4096 devices are remembered and at most 100 grants
-- counted in a second.
limit-IsLimited :
    (house device : String) (at : ℕ) (a : Authority)
    → IsLimited a
    → IsLimited (limit house device at a).1
unfolding limit
limit-IsLimited house device at a v = ground (arith, length-keep (is_recent at) a.rates)

-- A grant to the device at tick `t` is remembered.
abbrev pub is_rate_at : String → String → ℕ → Rate → Bool
is_rate_at house device t r = is_rate_of house device r && (r.tick == t)

abbrev pub remembers : String → String → ℕ → Authority → Bool
remembers house device t a = any (is_rate_at house device t) a.rates

limit-remembers :
    (house device : String) (t : ℕ) (a : Authority)
    → returns (limit house device t a).0 ≡ true
    → remembers house device t (limit house device t a).1 ≡ true
unfolding limit
limit-remembers house device t a h = ground (arith, eq_refl house, eq_refl device)

rate_at-is_recent :
    (house device : String) (t at : ℕ) (r : Rate)
    → at < t + rate_interval
    → is_rate_at house device t r ≡ true
    → is_recent at r ≡ true
unfolding is_recent
rate_at-is_recent house device t at r h k = ground arith

rate_at-is_rate_of :
    (house device : String) (t : ℕ) (r : Rate)
    → is_rate_at house device t r ≡ true
    → is_rate_of house device r ≡ true
rate_at-is_rate_of house device t r k = ground arith

limit_keeps_memory :
    (house device house' device' : String) (t at : ℕ) (a : Authority)
    → at < t + rate_interval
    → remembers house device t a ≡ true
    → remembers house device t (limit house' device' at a).1 ≡ true
unfolding limit
limit_keeps_memory house device house' device' t at a h m = ground (
  arith,
  any-keep (is_recent at) (is_rate_at house device t) a.rates
      (λ r k. rate_at-is_recent house device t at r h k) m,
)

limit_refuses :
    (house device : String) (t at : ℕ) (a : Authority)
    → at < t + rate_interval
    → remembers house device t a ≡ true
    → returns (limit house device at a).0 ≡ false
unfolding limit
limit_refuses house device t at a h m = ground (
  arith,
  any_mono (is_rate_of house device) (is_rate_at house device t) (keep (is_recent at) a.rates)
      (λ r k. rate_at-is_rate_of house device t r k)
      (any-keep (is_recent at) (is_rate_at house device t) a.rates
        (λ r k. rate_at-is_recent house device t at r h k) m),
)

-- Calls of the limit by any devices, one after another.
abbrev pub limits : List (String × String × ℕ) → Authority → Authority
limits [] a = a
limits ((house, device, at) ∷ calls) a = limits calls (limit house device at a).1

limits_keep_memory :
    (house device : String) (t : ℕ) (calls : List (String × String × ℕ)) (a : Authority)
    → All (λ c. c.2 < t + rate_interval) calls
    → remembers house device t a ≡ true
    → remembers house device t (limits calls a) ≡ true
limits_keep_memory house device t [] a h m = m
limits_keep_memory house device t ((house', device', at) ∷ calls) a h m =
    limits_keep_memory house device t calls (limit house' device' at a).1 h.1
      (limit_keeps_memory house device house' device' t at a h.0 m)

-- Once the limit has let a device pass at tick `t`, it refuses that device at every tick before
-- `t` plus one second, whatever calls by whichever devices came between, if those too came before
-- that tick.
pub limit_spacing :
    (house device : String) (t at : ℕ) (calls : List (String × String × ℕ)) (a : Authority)
    → returns (limit house device t a).0 ≡ true
    → All (λ c. c.2 < t + rate_interval) calls
    → at < t + rate_interval
    → returns (limit house device at (limits calls (limit house device t a).1)).0 ≡ false
limit_spacing house device t at calls a passed early now =
    limit_refuses house device t at (limits calls (limit house device t a).1) now (
      limits_keep_memory house device t calls (limit house device t a).1 early
        (limit-remembers house device t a passed))

-- A permit that is granted at tick `at` is a grant for the command and its window's deadline, ends
-- after `at`, before that deadline, and less than two seconds after `at`.
pub grant_deadline :
    (house device : String) (r : PermitRequest) (now at : ℕ) (row : DeviceCommand) (window : Window)
    (binding : String) (s : System) (d : ControlDelivery)
    → (grant_permit house device r now at row window binding s).0 ≡ ok d
    → (d.is_grant ≡ true)
      × (d.command_id ≡ row.command_id)
      × (d.deadline_tick ≡ window.deadline)
      × (at < d.valid_until_tick)
      × (d.valid_until_tick < window.deadline)
      × (d.valid_until_tick < at + permit_us)
unfolding grant_permit reply_of
grant_deadline house device r now at row window binding s d h = ground arith

-- When an expiry is decided as "expired", the control clock shows it: for a command of the current
-- epoch it has reached the deadline of the command's window; for a command of an earlier epoch the
-- command was in the recovery snapshot and the recovery fence has passed.
pub expired_sound :
    (c : ControlCommand) (a : Authority)
    → (expired c a).0 ≡ ok true
    → ((str_eq c.authority_epoch a.clock.epoch ≡ true)
        × ((w : Window) × (lookup c.command_id a.windows ≡ some w)
            × (w.deadline ≤ (expired c a).1.clock.last)))
      ⊎ ((str_eq c.authority_epoch a.clock.epoch ≡ false)
          × (contains c.command_id a.recovery_ids ≡ true)
          × (a.clock.fence_start + a.clock.fence_us ≤ (expired c a).1.clock.last))
unfolding expired tick recovered
expired_sound c a h = elim (Bool-cases (str_eq c.authority_epoch a.clock.epoch)) [
  | inl own ↦ elim (Option-cases (lookup c.command_id a.windows)) [
    | inl gone ↦ absurd (ground arith)
    | inr (w, e) ↦ inl (own, (w, e, ground arith))
  ]
  | inr foreign ↦ inr (foreign, ground arith, ground arith)
]
