-- ===== src/Provisioning/Runs.antt =====
-- Sequences of transition requests on one attempt (app/services/provisioning_state.py): a request
-- that raises leaves the snapshot as it was.
use kz_home_core.Common.{
  ℕ, ◌+◌, ◌≤◌, ◌<◌, String, true, false, Option, some, List, [], ◌∷◌, ◌≡◌, refl, ap, Result, ok,
  err, returns, arith, if◌then◌else◌,
}
use kz_home_core.Provisioning.State.{
  ProvisioningStatus, discovered, awaiting_confirmation, registered, ProvisioningErrorCode,
  ProvisioningEvent, Datetime, ProvisioningState, is_proof_verified, transition,
}
use kz_home_core.Provisioning.Transition.{IsValid, edge, proof_after, transition-edge}

pub record Request : Type 0 where
  pub event : ProvisioningEvent
  pub expected_revision : ℕ
  pub now : Datetime
  pub challenge : Option String
  pub error_code : Option ProvisioningErrorCode

-- The most transitions that can still succeed.
abbrev pub rank : ProvisioningStatus → ℕ
rank discovered = 3
rank awaiting_confirmation = 2
rank registered = 1
rank _ = 0

edge-rank :
    (a : ProvisioningStatus) (e : ProvisioningEvent) (b : ProvisioningStatus)
    → edge a e ≡ some b
    → rank b < rank a
edge-rank a e b h = ground arith

abbrev pub settle : ProvisioningState → Result ProvisioningState → ProvisioningState
settle s (ok t) = t
settle s (err _) = s

abbrev pub score : Result ProvisioningState → ℕ
score (ok _) = 1
score (err _) = 0

-- 1 while the proof can still be used.
abbrev pub unused_proof : ProvisioningState → ℕ
unused_proof s = if s.proof_consumed then 0 else 1

module _ (sha256 : String → String) where
  unfoldable pub respond : ProvisioningState → Request → Result ProvisioningState
  respond s r = transition sha256 s r.event r.expected_revision r.now r.challenge r.error_code

  abbrev pub run : ProvisioningState → List Request → ProvisioningState
  run s [] = s
  run s (r ∷ rs) = run (settle s (respond s r)) rs

  -- How many requests of a run succeed.
  abbrev pub accepted : ProvisioningState → List Request → ℕ
  accepted s [] = 0
  accepted s (r ∷ rs) = score (respond s r) + accepted (settle s (respond s r)) rs

  -- How many PROOF_VERIFIED requests of a run succeed.
  abbrev pub proofs : ProvisioningState → List Request → ℕ
  proofs s [] = 0
  proofs s (r ∷ rs) =
      (if is_proof_verified r.event then score (respond s r) else 0)
      + proofs (settle s (respond s r)) rs

  -- One request, succeed or not: the rank pays for it, the revision counts it.
  record Settled (s : ProvisioningState) (r : Request) (q : Result ProvisioningState) : Type 0 where
    paid : rank (settle s q).status + score q ≤ rank s.status
    counted : (settle s q).revision ≡ s.revision + score q
    valid : IsValid s → IsValid (settle s q)
    proven :
        IsValid s
        → unused_proof (settle s q) + (if is_proof_verified r.event then score q else 0)
          ≤ unused_proof s

  unproven_discovered :
      (s : ProvisioningState) (e : ProvisioningEvent) (b : ProvisioningStatus)
      → IsValid s
      → edge s.status e ≡ some b
      → is_proof_verified e ≡ true
      → s.proof_consumed ≡ false
  unproven_discovered s e b v h p = ground (arith, v.unproven)

  proof_paid :
      (s t : ProvisioningState) (e : ProvisioningEvent)
      → IsValid s
      → edge s.status e ≡ some t.status
      → t.proof_consumed ≡ proof_after e s.proof_consumed
      → unused_proof t + (if is_proof_verified e then 1 else 0) ≤ unused_proof s
  proof_paid s t e v h c = ground (arith, unproven_discovered s e t.status v h)

  respond-Settled :
      (s : ProvisioningState) (r : Request) (q : Result ProvisioningState)
      → respond s r ≡ q
      → Settled s r q
  unfolding respond
  respond-Settled s r (err e) p = record {
    paid = omega arith;
    counted = omega arith;
    valid = λ v. v;
    proven = λ v. ground arith;
  }
  respond-Settled s r (ok t) p =
      let (on_table, revision, created, late, e, v) =
        transition-edge sha256 s t r.event r.expected_revision r.now r.challenge r.error_code p in
      record {
        paid = omega (arith, edge-rank s.status r.event t.status on_table);
        counted = ap (λ (x : ProvisioningState). x.revision) e;
        valid = λ _. v;
        proven = λ w.
            proof_paid s t r.event w on_table (ap (λ (x : ProvisioningState). x.proof_consumed) e);
      }

  -- Whatever the requests, and whichever of them raise: the rank of the final status and the number
  -- of transitions that succeeded add up to at most the rank of the first status (so at most three
  -- succeed on any attempt), and the revision is the first one plus that number.
  pub run_bounded :
      (s : ProvisioningState) (rs : List Request)
      → (rank (run s rs).status + accepted s rs ≤ rank s.status)
        × ((run s rs).revision ≡ s.revision + accepted s rs)
  run_bounded s [] = (omega arith, omega arith)
  run_bounded s (r ∷ rs) =
      let one = respond-Settled s r (respond s r) refl in
      let (paid, counted) = run_bounded (settle s (respond s r)) rs in
      (omega (arith, one.paid), omega (arith, one.counted))

  -- Proof verification succeeds at most once on an attempt that starts valid, whatever else is
  -- requested, and never once the proof is consumed.
  pub proof_once :
      (s : ProvisioningState) (rs : List Request) → IsValid s → proofs s rs ≤ unused_proof s
  proof_once s [] v = ground arith
  proof_once s (r ∷ rs) v =
      let one = respond-Settled s r (respond s r) refl in
      let rest = proof_once (settle s (respond s r)) rs (one.valid v) in omega (arith, one.proven v)

  -- After a transition has succeeded, no later request that still expects the old revision (a replay
  -- among them) succeeds, whatever was requested in between.
  pub stale_revision :
      (s t : ProvisioningState) (r late : Request) (rs : List Request)
      → respond s r ≡ ok t
      → late.expected_revision ≡ s.revision
      → returns (respond (run t rs) late) ≡ false
  stale_revision s t r late rs p stale = go (respond (run t rs) late) refl
    where
      go : (q : Result ProvisioningState) → respond (run t rs) late ≡ q → returns q ≡ false
      go (err e) h = refl
      go (ok u) h =
          let (_, revision, _, _, _, _) =
            transition-edge sha256 (run t rs) u late.event late.expected_revision late.now
              late.challenge late.error_code (unfold respond in h) in
          let (_, grown) = run_bounded t rs in
          let one = respond-Settled s r (ok t) p in absurd (omega (arith, one.counted))
