-- ===== src/Topics/Tests.antt =====
-- A topic of each number of parts, and the theorems at them.
use kz_home_core.Common.{String, ◌≡◌, ◌↔◌, refl, ok, err, value_error}
use kz_home_core.Identifiers.{is_identifier, is_identifier_char, is_alnum}
use kz_home_core.Topics.{
  control_request, ParsedTopic, is_topic_identifier, split, join, build_topic, kind_of, read_parts,
  parse_topic,
}
use kz_home_core.Topics.RoundTrip.{topics_exact}

abbrev request_topic : String
request_topic = "kzhome/v1/home/lamp-1/control/request"

abbrev parsed : ParsedTopic
parsed = record { house_id = "home"; device_id = "lamp-1"; kind = control_request }

builds : build_topic "home" "lamp-1" control_request ≡ ok request_topic
unfolding build_topic is_topic_identifier is_identifier is_identifier_char is_alnum
builds = refl

parses : parse_topic request_topic ≡ ok parsed
unfolding parse_topic split join read_parts kind_of is_topic_identifier is_identifier
    is_identifier_char is_alnum
parses = refl

seven_parts : parse_topic "kzhome/v1/home/lamp/control/request/x" ≡ err value_error
unfolding parse_topic split join read_parts kind_of is_topic_identifier is_identifier
    is_identifier_char is_alnum
seven_parts = refl

topics_exact_example :
    (parse_topic request_topic ≡ ok parsed)
    ↔ (build_topic "home" "lamp-1" control_request ≡ ok request_topic)
topics_exact_example = topics_exact request_topic parsed
