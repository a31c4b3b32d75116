-- ===== src/Gateway/Tests.antt =====
-- Three control requests of two devices, a gateway whose world lists what is published, and the theorems at them.
use kz_home_core.Common.{
  String, true, false, none, some, ok, ◌⊎◌, ℕ, ◌≤◌, List, [], ◌∷◌, ◌≡◌, refl, arith,
}
use kz_home_core.Gateway.Limiter.{new_limiter, max_count, recent, count_at, admit}
use kz_home_core.Gateway.Rates.{Passed, accepted, in_second}
use kz_home_core.Gateway.Spacing.{IsSpaced, accepted_sparse}
use kz_home_core.Topics.{ParsedTopic, parse_topic, build_topic, is_topic_identifier}
use kz_home_core.Identifiers.{is_identifier, is_identifier_char, is_alnum}
use kz_home_core.Json.{dict, end}
use kz_home_core.Clocks.CommandClock.{now}
use kz_home_core.Samples.{dispatch_clock, utc_at}
use kz_home_core.Gateway.Limiter.{Gateway, Handlers}
use kz_home_core.Gateway.Messages.{Inbound, Message, handle_message}
use kz_home_core.Gateway.Checks.{IsChecked, handle_message-IsChecked}
use kz_home_core.Gateway.Senders.{
  Outbound, Sender, send_command, send_control_command, authorize_command, emit,
}
use kz_home_core.Gateway.Loop.{Turn, Link, run}
use kz_home_core.Gateway.Paces.{IsResting, run-IsResting}
use kz_home_core.Gateway.Deadlines.{IsSent, commands_timely}
use kz_home_core.Gateway.Deliveries.{IsDelivered}

abbrev requests : List Passed
requests =
    (("h", "a"), 5_000_000)
    ∷ (("h", "a"), 5_400_000)
    ∷ (("h", "b"), 5_500_000)
    ∷ (("h", "a"), 6_100_000)
    ∷ []

-- The second request of a device within a second is dropped.
accepted-requests :
    accepted requests new_limiter
    ≡ (("h", "a"), 5_000_000) ∷ (("h", "b"), 5_500_000) ∷ (("h", "a"), 6_100_000) ∷ []
unfolding admit recent count_at
accepted-requests = refl

accepted_sparse_example :
    IsSpaced (accepted requests new_limiter)
    × ((k : ℕ) → in_second k (accepted requests new_limiter) ≤ max_count)
accepted_sparse_example =
    accepted_sparse requests (omega arith, (omega arith, (omega arith, (omega arith, tt))))

-- The world is the list of what was published.
abbrev log_handlers : Handlers (List String) String String
log_handlers = record {
  decode = λ text. ok text;
  identity = λ house device w. (ok tt, w);
  request = none;
  validate = λ delivery w. (ok tt, w);
  payload = λ delivery. delivery;
  denial = λ request. request;
  publish = λ topic text qos retain w. (ok tt, topic ∷ w);
}

abbrev log_inbound : Inbound (List String) String String
log_inbound = record {
  loads = λ text. some (dict end);
  to_state = λ raw. none;
  to_status = λ raw. none;
  to_ack = λ raw. none;
  to_telemetry = λ raw. some (record { timestamp = 0; correlation_id = ""; metrics = end });
  state_handler = λ house device envelope w. (ok tt, w);
  command_state_handler = none;
  status_handler = λ house device online seen w. (ok online, w);
  command_ack_handler = none;
  publish_event = λ notice w. (ok tt, "event" ∷ w);
}

abbrev quiet : Gateway (List String)
quiet = record { limiter = new_limiter; connected = true; control_subscribed = true; world = [] }

abbrev metrics : Message
metrics = record { topic = "kzhome/v1/home/lamp-1/telemetry"; payload = "{}"; retained = false }

handle_message-IsChecked_example :
    ((handle_message log_inbound log_handlers metrics 5 quiet).1.world ≡ [])
    ⊎ ((parsed : ParsedTopic) × (parse_topic "kzhome/v1/home/lamp-1/telemetry" ≡ ok parsed)
        × IsChecked log_inbound log_handlers parsed metrics 5 quiet
            (handle_message log_inbound log_handlers metrics 5 quiet).1.world)
handle_message-IsChecked_example = handle_message-IsChecked log_inbound log_handlers metrics 5 quiet

abbrev log_outbound : Outbound (List String) String String
log_outbound = record {
  command_guard = some (λ house device w. (ok tt, w));
  control_stage_handler = some (λ house device command w. (ok "permit", w));
  validate_delivery = λ delivery w. (ok tt, w);
  delivery_payload = λ delivery. delivery;
  to_text = λ envelope. some envelope.state;
  publish = λ topic text qos retain w. (ok tt, topic ∷ w);
}

abbrev sender : Sender (List String)
sender = record { gateway = quiet; clock = dispatch_clock }

command_published :
    (send_command log_outbound "home" "lamp-1" "on" "" ""
      (some (utc_at 5_000_000))
      (some (utc_at 9_000_000))
      "f"
      "g"
      sender).1.gateway.world
    ≡ "kzhome/v1/home/lamp-1/set" ∷ []
unfolding send_command authorize_command emit now build_topic is_topic_identifier is_identifier
    is_identifier_char is_alnum
command_published = refl

commands_timely_example :
    IsSent log_outbound "home" "lamp-1" "on" "f" "c"
      (some (utc_at 5_000_000))
      (some (utc_at 9_000_000))
      dispatch_clock
      []
      (send_command log_outbound "home" "lamp-1" "on" "" "c"
        (some (utc_at 5_000_000))
        (some (utc_at 9_000_000))
        "f"
        "g"
        sender).1.gateway.world
    × IsDelivered log_outbound "home" "lamp-1" "c" quiet
        (send_control_command log_outbound "home" "lamp-1" "c" sender).1.gateway.world
commands_timely_example =
    commands_timely log_outbound "home" "lamp-1" "on" "" "c" (some (utc_at 5_000_000))
      (some (utc_at 9_000_000)) "f" "g" sender

-- The broker refuses once, then grants everything and delivers a message, then the gateway stops.
abbrev turns : List Turn
turns =
    record { connects = false; grants = λ topic qos. true; messages = []; stops = false }
    ∷ record {
      connects = true;
      grants = λ topic qos. true;
      messages = (metrics, 5) ∷ [];
      stops = false;
    }
    ∷ record { connects = false; grants = λ topic qos. false; messages = []; stops = true }
    ∷ []

abbrev fresh_link : Link (List String)
fresh_link = record {
  gateway = record quiet { connected = false; control_subscribed = false };
  backoff = 1;
  delays = [];
  events = [];
}

run-IsResting_example :
    IsResting log_inbound log_handlers 1 30 (run log_inbound log_handlers 1 30 turns fresh_link)
run-IsResting_example =
    run-IsResting log_inbound log_handlers 1 30 turns fresh_link (omega arith)
      (refl, (omega arith, omega arith), tt, tt)
