-- ===== src/Gateway/Senders.antt =====
-- `MQTTGateway.send_command`, `authorize_command` and `send_control_command` (app/transports/mqtt.py). The guard, the
-- stage handler, the text of an envelope, which pydantic validates, and the broker client are arguments.
use kz_home_core.Common.{
  ℕ, ◌+◌, String, Bool, false, not, ◌&&◌, ◌||◌, Option, none, some, str_eq, leb, ltb, if◌then◌else◌,
  Exec, Result, ok, err, conflict, unavailable, invalid_reference, value_error, pure, ◌>>=◌, ◌>>◌,
}
use kz_home_core.Topics.{set, control_command, build_topic}
use kz_home_core.Clocks.Wall.{Wall, command_lifetime}
use kz_home_core.Clocks.CommandClock.{CommandClock, now}
use kz_home_core.Gateway.Limiter.{Gateway}

-- `CommandEnvelope`
pub record CommandEnvelope (State : Type 0) : Type 0 where
  pub command_id : String
  pub correlation_id : String
  pub timestamp : ℕ
  pub expires_at : ℕ
  pub state : State

-- What the gateway is built with, and the text of an envelope: none for an invalid one.
pub record Outbound (W State Delivery : Type 0) : Type 0 where
  pub command_guard : Option (String → String → Exec W (Unit {0}))
  pub control_stage_handler : Option (String → String → String → Exec W Delivery)
  pub validate_delivery : Delivery → Exec W (Unit {0})
  pub delivery_payload : Delivery → String
  pub to_text : CommandEnvelope State → Option String
  pub publish : String → String → ℕ → Bool → Exec W (Unit {0})

-- The gateway with the process's command clock.
pub record Sender (W : Type 0) : Type 0 where
  pub gateway : Gateway W
  pub clock : CommandClock

-- The two times of a command: both given, in UTC, and the deadline within the lifetime.
abbrev pub deadline : Option Wall → Option Wall → Result (ℕ × ℕ)
deadline (some timestamp) (some expires_at) =
    if not (timestamp.is_utc && expires_at.is_utc)
      || (leb expires_at.micros timestamp.micros
          || ltb (timestamp.micros + command_lifetime) expires_at.micros)
    then err invalid_reference
    else ok (timestamp.micros, expires_at.micros)
deadline _ _ = err invalid_reference

-- `text or str(uuid4())`
abbrev pub or_fresh : String → String → String
or_fresh text fresh = if str_eq text "" then fresh else text

module _ {W State Delivery : Type 0} (outbound : Outbound W State Delivery) where
  abbrev pub at_gateway : {A : Type 0} → Exec W A → Exec (Sender W) A
  at_gateway m s =
      let (result, w) = m s.gateway.world in
      (result, record s { gateway = record (s.gateway) { world = w } })

  abbrev pub on_clock : Exec (Sender W) ℕ
  on_clock s = let (result, c) = now s.clock in (result, record s { clock = c })

  -- `authorize_command`
  unfoldable pub authorize_command : String → String → Exec W (Unit {0})
  authorize_command house device w = elim outbound.command_guard [
    | none ↦ (err conflict, w)
    | some guard ↦ guard house device w
  ]

  -- What is done with a valid deadline.
  unfoldable pub emit : String → String → State → String → String → ℕ × ℕ → Exec (Sender W) String
  emit house device values correlation_id command_id (timestamp, expires_at) = do
    text ← (λ s. (
      elim (outbound.to_text (record {
        command_id = command_id;
        correlation_id = correlation_id;
        timestamp = timestamp;
        expires_at = expires_at;
        state = values;
      })) [ none ↦ err value_error | some text ↦ ok text ],
      s,
    ))
    time ← on_clock
    (λ s. (if leb timestamp time && ltb time expires_at then ok tt else err conflict, s))
    topic ← (λ s. (build_topic house device set, s))
    at_gateway (outbound.publish topic text 1 false)
    pure command_id

  -- `send_command`, with the identifiers that are drawn where none are given.
  unfoldable pub send_command :
      String
      → String
      → State
      → String
      → String
      → Option Wall
      → Option Wall
      → String
      → String
      → Exec (Sender W) String
  unfolding emit
  send_command house device values correlation_id command_id timestamp expires_at fresh_correlation
        fresh_command =
      do
        at_gateway (authorize_command house device)
        times ← (λ s. (deadline timestamp expires_at, s))
        emit house device values (or_fresh correlation_id fresh_correlation)
            (or_fresh command_id fresh_command) times

  -- `send_control_command`
  unfoldable pub send_control_command : String → String → String → Exec (Sender W) (Unit {0})
  send_control_command house device command_id = do
    handler ← (λ s. (
      elim outbound.control_stage_handler [ none ↦ err conflict | some handler ↦ ok handler ],
      s,
    ))
    delivery ← at_gateway (handler house device command_id)
    (λ s. (
      if not s.gateway.connected || not s.gateway.control_subscribed
          then err unavailable
          else ok tt,
      s,
    ))
    at_gateway (outbound.validate_delivery delivery)
    topic ← (λ s. (build_topic house device control_command, s))
    at_gateway (outbound.publish topic (outbound.delivery_payload delivery) 1 false)
