-- ===== src/Topics.antt =====
-- app/transports/mqtt_topics.py: the topics of the device protocol. Texts are walked by their
-- characters; `split` and `join` are the string methods with "/".
pub mod RoundTrip
mod Tests
use Prim.Native.String.{◌++◌ as ◌<>◌}
use Prim.Native.Char.{Char, code}
use kz_home_core.Common.{
  ℕ, String, Bool, true, false, not, ◌&&◌, ◌||◌, Option, none, some, List, [], ◌∷◌, str_eq, ◌==◌,
  length, codes, if◌then◌else◌, Result, ok, err, value_error,
}
use kz_home_core.Identifiers.{is_identifier}

pub data TopicKind : Type 0 where
  state set ack telemetry status control_command control_request control_reply : TopicKind

-- The values of the enumeration.
abbrev pub value : TopicKind → String
value state = "state"
value set = "set"
value ack = "ack"
value telemetry = "telemetry"
value status = "status"
value control_command = "control/command"
value control_request = "control/request"
value control_reply = "control/reply"

pub record TopicPolicy : Type 0 where
  pub qos : ℕ
  pub retain : Bool

-- `TOPIC_POLICY`
unfoldable pub policy : TopicKind → TopicPolicy
policy state = record { qos = 1; retain = true }
policy set = record { qos = 1; retain = false }
policy ack = record { qos = 1; retain = false }
policy telemetry = record { qos = 0; retain = false }
policy status = record { qos = 1; retain = true }
policy control_command = record { qos = 1; retain = false }
policy control_request = record { qos = 1; retain = false }
policy control_reply = record { qos = 1; retain = false }

pub record ParsedTopic : Type 0 where
  pub house_id : String
  pub device_id : String
  pub kind : TopicKind

abbrev pub topic_root : String
topic_root = "kzhome/v1"

-- `_IDENTIFIER`: up to 128 characters.
unfoldable pub is_topic_identifier : String → Bool
is_topic_identifier s = is_identifier 127 (codes s)

-- The first part grows by a character.
abbrev pub prepend : Char → List String → List String
prepend c [] = String.◌∷◌ c "" ∷ []
prepend c (part ∷ parts) = String.◌∷◌ c part ∷ parts

-- `topic.split("/")`
unfoldable pub split : String → List String
split String.[] = "" ∷ []
split (String.◌∷◌ c s) =
    let parts = split s in if code c == b'/' then "" ∷ parts else prepend c parts

-- `"/".join(parts)`
unfoldable pub join : List String → String
join [] = ""
join (part ∷ []) = part
join (part ∷ next ∷ parts) = part <> ("/" <> join (next ∷ parts))

-- `build_topic`
unfoldable pub build_topic : String → String → TopicKind → Result String
build_topic house device kind =
    if not (is_topic_identifier house)
    then err value_error
    else if not (is_topic_identifier device)
    then err value_error
    else ok (topic_root <> ("/" <> (house <> ("/" <> (device <> ("/" <> value kind))))))

-- `TopicKind(raw_kind)`; none is the `ValueError`.
unfoldable pub kind_of : String → Option TopicKind
kind_of raw =
    if str_eq raw "state"
    then some state
    else if str_eq raw "set"
    then some set
    else if str_eq raw "ack"
    then some ack
    else if str_eq raw "telemetry"
    then some telemetry
    else if str_eq raw "status"
    then some status
    else if str_eq raw "control/command"
    then some control_command
    else if str_eq raw "control/request"
    then some control_request
    else if str_eq raw "control/reply"
    then some control_reply
    else none

-- The parts of a topic, once there are four of them at least.
unfoldable pub read_parts : String → String → String → String → List String → Result ParsedTopic
read_parts root version house device kind_parts =
    if not (length kind_parts == 1 || length kind_parts == 2)
      || not (str_eq root "kzhome" && str_eq version "v1")
    then err value_error
    else if not (is_topic_identifier house)
    then err value_error
    else if not (is_topic_identifier device)
    then err value_error
    else elim (kind_of (join kind_parts)) [
      | none ↦ err value_error
      | some kind ↦ ok (record { house_id = house; device_id = device; kind = kind })
    ]

abbrev pub parse_parts : List String → Result ParsedTopic
parse_parts (root ∷ version ∷ house ∷ device ∷ kind_parts) =
    read_parts root version house device kind_parts
parse_parts _ = err value_error

-- `parse_topic`
unfoldable pub parse_topic : String → Result ParsedTopic
parse_topic topic = parse_parts (split topic)

abbrev pub inbound : List TopicKind
inbound = state ∷ ack ∷ telemetry ∷ status ∷ control_request ∷ []

abbrev pub subscriptions : List TopicKind → List (String × ℕ)
subscriptions [] = []
subscriptions (kind ∷ kinds) =
    (topic_root <> ("/+/+/" <> value kind), (policy kind).qos) ∷ subscriptions kinds

-- `subscription_topics`
unfoldable pub subscription_topics : List (String × ℕ)
subscription_topics = subscriptions inbound
