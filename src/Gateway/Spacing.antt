-- ===== src/Gateway/Spacing.antt =====
-- How far apart the limiter of `MQTTGateway._control_request` (app/transports/mqtt.py) keeps the requests of
-- one device.
use kz_home_core.Common.{
  ℕ, ◌+◌, ◌≤◌, ◌<◌, String, Bool, true, false, ◌&&◌, List, [], ◌∷◌, ◌≡◌, eq_iff, ltb, ◌==◌, any,
  any-keep, any_mono, All, inl, inr, Bool-cases, arith,
}
use kz_home_core.Gateway.Limiter.{Limiter, new_limiter, max_count, one_second, recent, same_key}
use kz_home_core.Gateway.Rates.{
  Passed, accepted, in_second, accepted_rate, IsOrdered, refused, passed, admit-cases,
}

abbrev pub IsLater : Passed → Passed → Type 0
IsLater (key, tick) p = same_key key p ≡ true → tick + one_second ≤ p.1

-- Any two requests of the same device are a second apart, or more.
abbrev pub IsSpaced : List Passed → Type 0
IsSpaced [] = Unit
IsSpaced (p ∷ ps) = All (IsLater p) ps × IsSpaced ps

abbrev is_entry : Passed → Passed → Bool
is_entry (key, tick) e = same_key key e && e.1 == tick

after_tick :
    (p : Passed) (t : ℕ) (rs : List Passed) (l : Limiter)
    → IsOrdered t rs
    → p.1 + one_second ≤ t
    → All (IsLater p) (accepted rs l)
after_tick p t [] l o h = tt
after_tick p t ((key, tick) ∷ rs) l (o, os) h = elim (admit-cases key tick l) [
  | inl stopped ↦ rw stopped (after_tick p tick rs (refused tick l) os (omega arith))
  | inr (went, _, _) ↦
      rw went (λ _. omega arith, after_tick p tick rs (passed key tick l) os (omega arith))
]

-- An entry that is recent stays.
entry-recent :
    (p : Passed) (tick : ℕ) (l : Limiter)
    → any (is_entry p) l.devices ≡ true
    → tick < p.1 + one_second
    → any (is_entry p) (recent tick l.devices) ≡ true
unfolding recent
entry-recent p tick l held h =
    any-keep (λ e. ltb tick (e.1 + one_second)) (is_entry p) l.devices (λ e here. ground arith) held

-- A device with a recent entry is refused.
entry-same_key :
    (key p : String × String) (t : ℕ) (es : List Passed)
    → any (is_entry (p, t)) es ≡ true
    → any (same_key key) es ≡ false
    → same_key p (key, t) ≡ false
entry-same_key key p t es held free = elim (Bool-cases (same_key p (key, t))) [
  | inr other ↦ other
  | inl same ↦
      (let found =
          any_mono (same_key key) (is_entry (p, t)) es
            (λ e here. ground (
              arith,
              eq_iff key.0 p.0,
              eq_iff key.1 p.1,
              eq_iff e.0.0 p.0,
              eq_iff e.0.1 p.1,
              eq_iff e.0.0 key.0,
              eq_iff e.0.1 key.1,
            ))
            held in
        absurd (ground arith))
]

held_apart :
    (p : Passed) (t : ℕ) (rs : List Passed) (l : Limiter)
    → IsOrdered t rs
    → any (is_entry p) l.devices ≡ true
    → All (IsLater p) (accepted rs l)
held_apart p t [] l o held = tt
held_apart p t ((key, tick) ∷ rs) l (o, os) held = elim (Bool-cases (ltb tick (p.1 + one_second))) [
  | inr past ↦ after_tick p tick ((key, tick) ∷ rs) l (omega arith, os) (ground arith)
  | inl still ↦
      (let kept = entry-recent p tick l held (ground arith) in
        elim (admit-cases key tick l) [
          | inl stopped ↦ rw stopped (held_apart p tick rs (refused tick l) os kept)
          | inr (went, _, free) ↦
              (let other = entry-same_key key p.0 p.1 (recent tick l.devices) kept free in
                rw went (
                  λ same. absurd (ground arith),
                  held_apart p tick rs (passed key tick l) os (ground arith),
                ))
        ])
]

accepted_apart :
    (t : ℕ) (rs : List Passed) (l : Limiter) → IsOrdered t rs → IsSpaced (accepted rs l)
accepted_apart t [] l o = tt
accepted_apart t ((key, tick) ∷ rs) l (o, os) = elim (admit-cases key tick l) [
  | inl stopped ↦ rw stopped (accepted_apart tick rs (refused tick l) os)
  | inr (went, _, _) ↦ rw went (
    held_apart (key, tick) tick rs (passed key tick l) os
        (ground (arith, eq_iff key.0 key.0, eq_iff key.1 key.1)),
    accepted_apart tick rs (passed key tick l) os,
  )
]

accepted-IsSpaced : (rs : List Passed) → IsOrdered 0 rs → IsSpaced (accepted rs new_limiter)
accepted-IsSpaced rs o = accepted_apart 0 rs new_limiter o

-- Whatever control requests come, as long as the clock's readings do not go back, the limiter lets at most 100
-- of them through in any second of the clock, and of one device only such as are at least a second apart.
pub accepted_sparse :
    (rs : List Passed)
    → IsOrdered 0 rs
    → IsSpaced (accepted rs new_limiter)
      × ((k : ℕ) → in_second k (accepted rs new_limiter) ≤ max_count)
accepted_sparse rs o = (accepted-IsSpaced rs o, accepted_rate rs o)
