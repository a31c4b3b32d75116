-- ===== src/Provisioning/State.antt =====
-- app/services/provisioning_state.py, with the statuses and error codes of
-- app/schemas/provisioning.py. Times are microseconds with a flag for `tzinfo is not None`;
-- SHA-256 is a parameter. Type tests on arguments hold by typing and are left out.
use kz_home_core.Common.{
  ℕ, ◌+◌, String, Bool, true, false, not, ◌&&◌, ◌||◌, Option, none, some, ltb, leb, ◌==◌, is_some,
  bool_eq, str_eq, if◌then◌else◌, Result, ok, err, value_error, provisioning_conflict,
  provisioning_expired,
}
use kz_home_core.Identifiers.{is_topic_id, is_token, is_hex_digest}

pub data ProvisioningStatus : Type 0 where
  discovered awaiting_confirmation registered connected error expired cancelled : ProvisioningStatus

pub data ProvisioningErrorCode : Type 0 where
  proof_rejected transport_unavailable registration_failed : ProvisioningErrorCode

pub data ProvisioningEvent : Type 0 where
  proof_verified confirm device_connected fail cancel expire : ProvisioningEvent

pub record Datetime : Type 0 where
  pub micros : ℕ
  pub is_aware : Bool

pub record ProvisioningState : Type 0 where
  pub session_id : String
  pub house_id : String
  pub device_id : String
  pub room_id : String
  pub created_at : Datetime
  pub expires_at : Datetime
  pub challenge_hash : String
  pub status : ProvisioningStatus
  pub revision : ℕ
  pub proof_consumed : Bool
  pub error_code : Option ProvisioningErrorCode

abbrev pub is_discovered : ProvisioningStatus → Bool
is_discovered discovered = true
is_discovered _ = false

abbrev pub is_awaiting_confirmation : ProvisioningStatus → Bool
is_awaiting_confirmation awaiting_confirmation = true
is_awaiting_confirmation _ = false

abbrev pub is_registered : ProvisioningStatus → Bool
is_registered registered = true
is_registered _ = false

abbrev pub is_error : ProvisioningStatus → Bool
is_error error = true
is_error _ = false

-- AWAITING_CONFIRMATION, REGISTERED, CONNECTED
abbrev pub needs_proof : ProvisioningStatus → Bool
needs_proof awaiting_confirmation = true
needs_proof registered = true
needs_proof connected = true
needs_proof _ = false

-- `state.status in TERMINAL`
abbrev pub is_terminal : ProvisioningStatus → Bool
is_terminal connected = true
is_terminal error = true
is_terminal expired = true
is_terminal cancelled = true
is_terminal _ = false

abbrev pub is_expire : ProvisioningEvent → Bool
is_expire expire = true
is_expire _ = false

abbrev pub is_fail : ProvisioningEvent → Bool
is_fail fail = true
is_fail _ = false

abbrev pub is_proof_verified : ProvisioningEvent → Bool
is_proof_verified proof_verified = true
is_proof_verified _ = false

-- `public_status()` as a check: the identifiers must fit `TopicID` and the expiry be aware.
unfoldable pub public_status_valid : ProvisioningState → Bool
public_status_valid s =
    is_topic_id s.house_id
    && (is_topic_id s.device_id && (is_topic_id s.room_id && s.expires_at.is_aware))

-- `__post_init__`
unfoldable pub post_init : ProvisioningState → Result ProvisioningState
unfolding public_status_valid
post_init s =
    if not s.created_at.is_aware
    then err value_error
    else if not s.expires_at.is_aware
    then err value_error
    else if leb s.expires_at.micros s.created_at.micros
    then err value_error
    else if not (is_hex_digest s.challenge_hash)
    then err value_error
    else if is_discovered s.status && s.proof_consumed
    then err value_error
    else if needs_proof s.status && not s.proof_consumed
    then err value_error
    else if not (bool_eq (is_error s.status) (is_some s.error_code))
    then err value_error
    else if not (public_status_valid s)
    then err value_error
    else ok s

-- `replace(state, status=…, revision=…, …)`, which runs `__post_init__` again.
unfoldable pub finish :
    ProvisioningState
    → Option ProvisioningErrorCode
    → Result (Option (ProvisioningStatus × Bool))
    → Result ProvisioningState
unfolding post_init
finish s error_code (err e) = err e
finish s error_code (ok none) = err provisioning_conflict
finish s error_code (ok (some (target, consumed))) = post_init (record s {
  status = target;
  revision = s.revision + 1;
  proof_consumed = consumed;
  error_code = error_code;
})

module _ (sha256 : String → String) where
  unfoldable pub challenge_digest : String → Result String
  challenge_digest challenge = if is_token challenge then ok (sha256 challenge) else err value_error

  -- `challenge is None or not compare_digest(challenge_hash, challenge_digest(challenge))`
  unfoldable pub challenge_mismatch : String → Option String → Result Bool
  unfolding challenge_digest
  challenge_mismatch challenge_hash none = ok true
  challenge_mismatch challenge_hash (some challenge) = elim (challenge_digest challenge) [
    | ok digest ↦ ok (not (str_eq challenge_hash digest))
    | err e ↦ err e
  ]

  -- The `if event == …` ladder: the target status, and whether the proof is consumed after it.
  -- `none` is a target that stayed `None`.
  unfoldable pub target_of :
      ProvisioningState
      → ProvisioningEvent
      → Datetime
      → Option String
      → Option ProvisioningErrorCode
      → Result (Option (ProvisioningStatus × Bool))
  unfolding challenge_mismatch
  target_of s proof_verified now challenge error_code =
      if not (is_discovered s.status) || s.proof_consumed
      then err provisioning_conflict
      else elim (challenge_mismatch s.challenge_hash challenge) [
        | ok mismatch ↦
            (if mismatch
              then err provisioning_conflict
              else ok (some (awaiting_confirmation, true)))
        | err e ↦ err e
      ]
  target_of s confirm now challenge error_code =
      if is_awaiting_confirmation s.status
      then ok (some (registered, s.proof_consumed))
      else ok none
  target_of s device_connected now challenge error_code =
      if is_registered s.status then ok (some (connected, s.proof_consumed)) else ok none
  target_of s cancel now challenge error_code = ok (some (cancelled, s.proof_consumed))
  target_of s fail now challenge error_code =
      if is_some error_code then ok (some (error, s.proof_consumed)) else ok none
  target_of s expire now challenge error_code =
      if leb s.expires_at.micros now.micros then ok (some (expired, s.proof_consumed)) else ok none

  unfoldable pub transition :
      ProvisioningState
      → ProvisioningEvent
      → ℕ
      → Datetime
      → Option String
      → Option ProvisioningErrorCode
      → Result ProvisioningState
  transition s event expected_revision now challenge error_code =
      if not now.is_aware
      then err value_error
      else if not (expected_revision == s.revision)
      then err provisioning_conflict
      else if ltb now.micros s.created_at.micros
      then err provisioning_conflict
      else if is_terminal s.status
      then err provisioning_conflict
      else if leb s.expires_at.micros now.micros && not (is_expire event)
      then err provisioning_expired
      else if is_some challenge && not (is_proof_verified event)
      then err provisioning_conflict
      else if is_some error_code && not (is_fail event)
      then err provisioning_conflict
      else finish s error_code (target_of s event now challenge error_code)
