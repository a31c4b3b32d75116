-- ===== src/Gateway/Rates.antt =====
-- How often the limiter of `MQTTGateway._control_request` (app/transports/mqtt.py) lets requests through.
use kz_home_core.Common.{
  ℕ, suc, ◌+◌, ◌/◌, ◌≤◌, ◌<◌, String, true, false, ◌||◌, Option, none, some, List, [], ◌∷◌, ◌≡◌,
  refl, ◌⊎◌, leb, ◌==◌, any, length, if◌then◌else◌, inl, inr, Bool-cases, arith,
}
use kz_home_core.Gateway.Limiter.{
  Limiter, new_limiter, one_second, max_count, max_devices, recent, same_key, is_second, count_at,
  admit,
}

abbrev pub Passed : Type 0
Passed = (String × String) × ℕ

-- The requests that pass, in their order.
abbrev pub accepted : List Passed → Limiter → List Passed
accepted [] l = []
accepted ((key, tick) ∷ rs) l =
    let (passes, next) = admit key tick l in
    let rest = accepted rs next in if passes then (key, tick) ∷ rest else rest

-- The readings do not go back, as is documented of `monotonic`.
abbrev pub IsOrdered : ℕ → List Passed → Type 0
IsOrdered t [] = Unit
IsOrdered t ((key, tick) ∷ rs) = (t ≤ tick) × IsOrdered tick rs

abbrev pub in_second : ℕ → List Passed → ℕ
in_second k [] = 0
in_second k ((key, tick) ∷ ps) =
    let rest = in_second k ps in if tick / one_second == k then suc rest else rest

abbrev after_admit : String × String → ℕ → Limiter → Limiter
after_admit key tick l = (admit key tick l).1

none_before :
    (k t : ℕ) (rs : List Passed) (l : Limiter)
    → IsOrdered t rs
    → k < t / one_second
    → in_second k (accepted rs l) ≡ 0
none_before k t [] l o h = refl
none_before k t ((key, tick) ∷ rs) l (o, os) h =
    let rest = none_before k tick rs (after_admit key tick l) os (omega (arith, h, o)) in
    elim (Bool-cases (admit key tick l).0) [
      | inl passes ↦ rw passes (ground (arith, rest, h, o))
      | inr refused ↦ rw refused rest
    ]

-- What the limiter has counted for a second.
abbrev counted : ℕ → Limiter → ℕ
counted k l = if is_second k l.second then l.count else 0

abbrev IsUpTo : ℕ → Limiter → Type 0
IsUpTo t l = (l.count ≤ max_count) × elim l.second [ none ↦ Unit | some j ↦ j ≤ t / one_second ]

-- The limiter after a refusal, and after a request that passes.
abbrev pub refused : ℕ → Limiter → Limiter
refused tick l = record {
  devices = recent tick l.devices;
  second = some (tick / one_second);
  count = counted (tick / one_second) l;
}

abbrev pub passed : String × String → ℕ → Limiter → Limiter
passed key tick l = record {
  devices = (key, tick) ∷ recent tick l.devices;
  second = some (tick / one_second);
  count = suc (counted (tick / one_second) l);
}

pub admit-cases :
    (key : String × String) (tick : ℕ) (l : Limiter)
    → (admit key tick l ≡ (false, refused tick l))
      ⊎ ((admit key tick l ≡ (true, passed key tick l))
          × (counted (tick / one_second) l < max_count)
          × (any (same_key key) (recent tick l.devices) ≡ false))
unfolding admit count_at
admit-cases key tick l =
    elim (Bool-cases (
      any (same_key key) (recent tick l.devices)
      || (leb max_devices (length (recent tick l.devices))
          || leb max_count (counted (tick / one_second) l)))) [
            | inl over ↦ inl (rw (over, admit) refl)
            | inr free ↦ inr (rw (free, admit) refl, ground arith, ground arith)
          ]

-- A count of the second of the reading bounds the count of any second.
carry :
    (k t tick x : ℕ) (second : Option ℕ) (count : ℕ)
    → count ≤ max_count
    → (elim second as (λ _. Type 0) [ none ↦ Unit | some j ↦ j ≤ t / one_second ])
    → t ≤ tick
    → (k < tick / one_second → x ≡ 0)
    → x
        + (if tick / one_second == k
            then (if is_second (tick / one_second) second then count else 0)
            else 0)
      ≤ max_count
    → x + (if is_second k second then count else 0) ≤ max_count
carry k t tick x none count bounded up o early h = ground arith
carry k t tick x (some j) count bounded up o early h = ground arith

counted_max : (k t : ℕ) (l : Limiter) → IsUpTo t l → counted k l ≤ max_count
counted_max k t l (bounded, _) = ground arith

counted_rate :
    (k t : ℕ) (rs : List Passed) (l : Limiter)
    → IsOrdered t rs
    → IsUpTo t l
    → in_second k (accepted rs l) + counted k l ≤ max_count
counted_rate k t [] l o (up, _) = ground arith
counted_rate k t ((key, tick) ∷ rs) l (o, os) (bounded, up) = elim (admit-cases key tick l) [
  | inl stopped ↦
      (let rest =
          counted_rate k tick rs (refused tick l) os
            (counted_max (tick / one_second) t l (bounded, up), omega arith) in
        let early = none_before k tick rs (refused tick l) os in
        rw stopped (
          carry k t tick (in_second k (accepted rs (refused tick l))) l.second l.count bounded up o
            early rest))
  | inr (went, below, _) ↦
      (let rest = counted_rate k tick rs (passed key tick l) os (below, omega arith) in
        let early = none_before k tick rs (passed key tick l) os in
        let x = in_second k ((key, tick) ∷ accepted rs (passed key tick l)) in
        rw went (carry k t tick x l.second l.count bounded up o (λ h. ground arith) (ground arith)))
]

pub accepted_rate :
    (rs : List Passed)
    → IsOrdered 0 rs
    → (k : ℕ) → in_second k (accepted rs new_limiter) ≤ max_count
accepted_rate rs o k = omega (arith, counted_rate k 0 rs new_limiter o (omega arith, tt))
