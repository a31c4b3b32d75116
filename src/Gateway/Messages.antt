-- ===== src/Gateway/Messages.antt =====
-- `MQTTGateway.handle_message` and `_route` (app/transports/mqtt.py). A payload is its text; the JSON decoder, the
-- validation of envelopes, which pydantic does, the handlers and the event bus are arguments.
use Prim.Native.String.{len}
use kz_home_core.Common.{
  ℕ, ◌*◌, String, Bool, true, false, Option, none, some, str_eq, ltb, if◌then◌else◌, Exec, Result,
  ok, err, value_error, pure, ◌>>=◌, ◌>>◌,
}
use kz_home_core.Topics.{
  TopicKind, state, set, ack, telemetry, status, control_command, control_request, control_reply,
  ParsedTopic, parse_topic,
}
use kz_home_core.Json.{Json, Fields, str, dict, end, field, validate_json_bounds}
use kz_home_core.Gateway.Limiter
use kz_home_core.Gateway.Limiter.{Gateway, Handlers}

-- `StatusEnvelope`, with the status as "online" or not, and `TelemetryEnvelope`.
pub record StatusEnvelope : Type 0 where
  pub online : Bool
  pub last_seen : ℕ

pub record TelemetryEnvelope : Type 0 where
  pub timestamp : ℕ
  pub correlation_id : String
  pub metrics : Fields

-- The events that the gateway publishes: a house, a device and what was received.
pub data Notice (Ack : Type 0) : Type 0 where
  device_status_changed : String → String → StatusEnvelope → Notice Ack
  device_ack_received : String → String → Ack → Notice Ack
  device_telemetry_received : String → String → TelemetryEnvelope → Notice Ack

-- `json.loads`, the envelopes, and what the gateway is built with.
pub record Inbound (W State Ack : Type 0) : Type 0 where
  pub loads : String → Option Json
  pub to_state : Fields → Option State
  pub to_status : Fields → Option StatusEnvelope
  pub to_ack : Fields → Option Ack
  pub to_telemetry : Fields → Option TelemetryEnvelope
  pub state_handler : String → String → State → Exec W (Unit {0})
  pub command_state_handler : Option (String → String → State → Bool → Exec W (Unit {0}))
  pub status_handler : String → String → Bool → ℕ → Exec W Bool
  pub command_ack_handler : Option (String → String → Ack → Bool → Exec W (Unit {0}))
  pub publish_event : Notice Ack → Exec W (Unit {0})

pub record Message : Type 0 where
  pub topic : String
  pub payload : String
  pub retained : Bool

-- `MAX_TELEMETRY_PAYLOAD`, `MAX_CONTROL_PAYLOAD`
abbrev pub payload_limit : TopicKind → ℕ
payload_limit telemetry = 32 * 1024
payload_limit _ = 16 * 1024

abbrev pub get_field : String → Fields → Option Json
get_field k end = none
get_field k (field name v fs) = let rest = get_field k fs in if str_eq name k then some v else rest

-- `raw.get("protocol_version", PROTOCOL_VERSION) != PROTOCOL_VERSION`
abbrev pub is_version : Option Json → Bool
is_version none = true
is_version (some (str v)) = str_eq v "v1"
is_version (some _) = false

-- Topics that the core writes and does not read.
abbrev pub is_outbound : TopicKind → Bool
is_outbound set = true
is_outbound control_command = true
is_outbound control_reply = true
is_outbound _ = false

abbrev pub is_control_request : TopicKind → Bool
is_control_request control_request = true
is_control_request _ = false

-- The checks between the topic and `_route`; the check of the bounds ends on every value.
unfoldable pub read_payload : (String → Option Json) → TopicKind → String → Result Fields
read_payload loads kind payload =
    if ltb (payload_limit kind) (len payload) then err value_error else elim (loads payload) [
      | some (dict raw) ↦ elim (validate_json_bounds (dict raw)) [
        | some (ok _) ↦
            if is_version (get_field "protocol_version" raw) then ok raw else err value_error
        | some (err e) ↦ err e
        | none ↦ err value_error
      ]
      | _ ↦ err value_error
    ]

abbrev pub validated : {A : Type 0} → Option A → Result A
validated none = err value_error
validated (some a) = ok a

module _ {W State Ack : Type 0} (inbound : Inbound W State Ack) where
  abbrev on_state : String → String → Fields → Bool → Exec W (Unit {0})
  on_state house device raw retained w = elim (inbound.to_state raw) [
    | none ↦ (err value_error, w)
    | some envelope ↦
        (do
          inbound.state_handler house device envelope
          elim inbound.command_state_handler [
            | none ↦ pure tt
            | some handler ↦ handler house device envelope retained
          ])
          w
  ]

  abbrev on_status : String → String → Fields → Exec W (Unit {0})
  on_status house device raw w = elim (inbound.to_status raw) [
    | none ↦ (err value_error, w)
    | some envelope ↦
        (do
          changed ← inbound.status_handler house device envelope.online envelope.last_seen
          if changed
              then inbound.publish_event (device_status_changed house device envelope)
              else pure tt)
          w
  ]

  abbrev on_ack : String → String → Fields → Bool → Exec W (Unit {0})
  on_ack house device raw retained w = elim (inbound.to_ack raw) [
    | none ↦ (err value_error, w)
    | some envelope ↦
        (do
          elim inbound.command_ack_handler [
            | none ↦ pure tt
            | some handler ↦ handler house device envelope retained
          ]
          inbound.publish_event (device_ack_received house device envelope))
          w
  ]

  abbrev on_telemetry : String → String → Fields → Exec W (Unit {0})
  on_telemetry house device raw w = elim (inbound.to_telemetry raw) [
    | none ↦ (err value_error, w)
    | some envelope ↦ inbound.publish_event (device_telemetry_received house device envelope) w
  ]

  abbrev pub by_kind : TopicKind → String → String → Fields → Bool → Exec W (Unit {0})
  by_kind state house device raw retained = on_state house device raw retained
  by_kind status house device raw retained = on_status house device raw
  by_kind ack house device raw retained = on_ack house device raw retained
  by_kind _ house device raw retained = on_telemetry house device raw

  module _ {Request Delivery : Type 0} (handlers : Handlers W Request Delivery) where
    -- `_route`
    unfoldable pub route : ParsedTopic → Fields → Bool → Exec W (Unit {0})
    route parsed raw retained = do
      handlers.identity parsed.house_id parsed.device_id
      by_kind parsed.kind parsed.house_id parsed.device_id raw retained

    -- The rest of `handle_message`, behind the topic; `tick` is the reading that a control request takes.
    unfoldable pub handle_parsed : ParsedTopic → Message → ℕ → Exec (Gateway W) (Unit {0})
    unfolding route
    handle_parsed parsed message tick g =
        if is_outbound parsed.kind
        then (err value_error, g)
        else if is_control_request parsed.kind
        then Limiter.control_request handlers parsed message.retained message.payload tick g
        else elim (read_payload inbound.loads parsed.kind message.payload) [
          | err e ↦ (err e, g)
          | ok raw ↦
              (let (result, w) = route parsed raw message.retained g.world in
                (result, record g { world = w }))
        ]

    -- `handle_message`
    unfoldable pub handle_message : Message → ℕ → Exec (Gateway W) (Unit {0})
    unfolding handle_parsed
    handle_message message tick g = elim (parse_topic message.topic) [
      | err e ↦ (err e, g)
      | ok parsed ↦ handle_parsed parsed message tick g
    ]
