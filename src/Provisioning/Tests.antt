-- ===== src/Provisioning/Tests.antt =====
-- Runs of the attempt state on concrete snapshots, and the theorems at those inputs.
use kz_home_core.Common.{
  ℕ, ◌+◌, ◌≤◌, String, true, false, Option, none, some, List, [], ◌∷◌, ◌≡◌, refl, ok, err, returns,
  leb, or_else, subst, provisioning_expired, arith,
}
use kz_home_core.Provisioning.State.{
  discovered, awaiting_confirmation, expired, proof_verified, confirm, cancel, expire, Datetime,
  ProvisioningState, public_status_valid, transition, target_of, finish,
}
use kz_home_core.Provisioning.Transition.{
  IsValid, edge, moved, proof_after, transition-edge, transition-expired,
}
use kz_home_core.Provisioning.Runs.{
  Request, respond, run, accepted, proofs, rank, run_bounded, proof_once, stale_revision,
}
use kz_home_core.Identifiers.{is_hex_digest, is_topic_id, is_token}

abbrev hash : String
hash = "0123456789abcdef0123456789abcdef0123456789abcdef0123456789abcdef"

abbrev token : String
token = "abcdefghijklmnopqrstuvwxyz_ABCDEFGHIJ-01234"

abbrev sha : String → String
sha _ = hash

abbrev at : ℕ → Datetime
at t = record { micros = t; is_aware = true }

abbrev fresh : ProvisioningState
fresh = record {
  session_id = "6f9619ff-8b86-4d01-b42d-00cf4fc964ff";
  house_id = "house-1";
  device_id = "relay-1";
  room_id = "room-1";
  created_at = at 100;
  expires_at = at 400;
  challenge_hash = hash;
  status = discovered;
  revision = 0;
  proof_consumed = false;
  error_code = none;
}

fresh-IsValid : IsValid fresh
unfolding public_status_valid is_topic_id is_hex_digest
fresh-IsValid = record {
  created_aware = refl;
  expires_aware = refl;
  ordered = omega arith;
  hashed = refl;
  unproven = refl;
  proven = refl;
  error_matches = refl;
  public = refl;
}

abbrev prove : Request
prove = record {
  event = proof_verified;
  expected_revision = 0;
  now = at 200;
  challenge = some token;
  error_code = none;
}

abbrev follow : Request
follow = record {
  event = confirm;
  expected_revision = 1;
  now = at 250;
  challenge = none;
  error_code = none;
}

abbrev proven : ProvisioningState
proven = moved fresh awaiting_confirmation true none

prove_succeeds : transition sha fresh proof_verified 0 (at 200) (some token) none ≡ ok proven
unfolding transition target_of finish is_token is_topic_id is_hex_digest
prove_succeeds = refl

transition-edge_example :
    (edge discovered proof_verified ≡ some awaiting_confirmation)
    × (◌≡◌ {A = ℕ} 0 0)
    × (100 ≤ 200)
    × (leb 400 200 ≡ false)
    × (proven ≡ moved fresh awaiting_confirmation (proof_after proof_verified false) none)
    × IsValid proven
transition-edge_example =
    transition-edge sha fresh proven proof_verified 0 (at 200) (some token) none prove_succeeds

transition-expired_example :
    (transition sha fresh cancel 0 (at 400) none none ≡ err provisioning_expired)
    × (transition sha fresh expire 0 (at 400) none none ≡ ok (moved fresh expired false none))
transition-expired_example =
    transition-expired sha fresh cancel (at 400) none none fresh-IsValid refl refl (omega arith)
      refl

token_form : (c : String) → some token ≡ some c → is_token c ≡ true
unfolding is_token
token_form c e = subst (λ (o : Option String). is_token (or_else o token) ≡ true) e refl

abbrev script : List Request
script = prove ∷ prove ∷ follow ∷ []

script_outcome : accepted sha fresh script ≡ 2
unfolding respond transition target_of finish is_token is_topic_id is_hex_digest
script_outcome = refl

run_bounded_example :
    (rank (run sha fresh script).status + accepted sha fresh script ≤ 3)
    × ((run sha fresh script).revision ≡ 0 + accepted sha fresh script)
run_bounded_example = run_bounded sha fresh script

proof_once_example : proofs sha fresh script ≤ 1
proof_once_example = proof_once sha fresh script fresh-IsValid

stale_revision_example : returns (respond sha (run sha proven (follow ∷ [])) prove) ≡ false
unfolding respond
stale_revision_example =
    stale_revision sha fresh proven prove prove (follow ∷ []) prove_succeeds refl
