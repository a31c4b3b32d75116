-- ===== src/Gateway/Conditions.antt =====
-- What a message and the limiter must be for the gateway to take the message (`handle_message` and
-- `_control_request` of app/transports/mqtt.py), written out.
use Prim.Native.String.{len}
use kz_home_core.Common.{
  ℕ, ◌+◌, ◌/◌, ◌≤◌, ◌<◌, String, Bool, true, false, Option, none, some, List, [], ◌∷◌, ◌≡◌, ◌≢◌,
  refl, ap, ◌⊎◌, inl, inr, str_eq, eq_iff, ltb, any, keep, length, All, Bool-cases, Option-cases,
  ok, arith,
}
use kz_home_core.Topics.{
  TopicKind, state, ack, telemetry, status, set, control_command, control_request, control_reply,
}
use kz_home_core.Json.{Json, Fields, null, boolean, integer, negative, str, list, dict, end, field}
use kz_home_core.Json.Bounds.{height, is_short, validate_json_bounds-is_short}
use kz_home_core.Gateway.Limiter.{Limiter, same_key, is_second, recent, count_at, admit}
use kz_home_core.Gateway.Messages.{
  payload_limit, get_field, is_version, is_outbound, is_control_request, read_payload,
}

-- The first field for the protocol's version, if there is one, is the text "v1".
pub data IsCurrent : Fields → Type 0 where
  unversioned : IsCurrent end
  versioned : (fs : Fields) → IsCurrent (field "protocol_version" (str "v1") fs)
  beside :
      (name : String) (v : Json) (fs : Fields)
      → name ≢ "protocol_version"
      → IsCurrent fs
      → IsCurrent (field name v fs)

-- The largest payloads, in bytes.
abbrev pub largest : TopicKind → ℕ
largest telemetry = 32768
largest _ = 16384

-- A payload that keeps the limit of its topic and is a JSON object of the protocol's version, in which containers
-- are nested at most seven deep and every text has at most 1024 bytes.
pub record IsReadable (loads : String → Option Json) (kind : TopicKind) (payload : String)
    (raw : Fields) : Type 0 where
  pub sized : len payload ≤ largest kind
  pub object : loads payload ≡ some (dict raw)
  pub shallow : height (dict raw) ≤ 7
  pub short : is_short (dict raw) ≡ true
  pub current : IsCurrent raw

-- A device whose entries are all at least a second old, with room for it, and less than a hundred requests in
-- this second.
pub record IsAdmitted (key : String × String) (tick : ℕ) (l : Limiter) : Type 0 where
  pub apart : All (λ e. (e.0 ≢ key) ⊎ (e.1 + 1_000_000 ≤ tick)) l.devices
  pub room : length (keep (λ e. ltb tick (e.1 + 1_000_000)) l.devices) < 4096
  pub few : (l.second ≢ some (tick / 1_000_000)) ⊎ (l.count < 100)

str-version : (v : Json) → is_version (some v) ≡ true → v ≡ str "v1"
str-version (str v) h = ap str ((eq_iff v "v1").0 h)
str-version null h = absurd (ground arith)
str-version (boolean _) h = absurd (ground arith)
str-version (integer _) h = absurd (ground arith)
str-version (negative _) h = absurd (ground arith)
str-version (list _) h = absurd (ground arith)
str-version (dict _) h = absurd (ground arith)

first_field-IsCurrent :
    (name : String) (v : Json) (fs : Fields)
    → name ≡ "protocol_version"
    → v ≡ str "v1"
    → IsCurrent (field name v fs)
first_field-IsCurrent name v fs e f = rw (e, f) (versioned fs)

is_version-IsCurrent :
    (fs : Fields) → is_version (get_field "protocol_version" fs) ≡ true → IsCurrent fs
is_version-IsCurrent end h = unversioned
is_version-IsCurrent (field name v fs) h = elim (Bool-cases (str_eq name "protocol_version")) [
  | inl same ↦
      first_field-IsCurrent name v fs ((eq_iff name "protocol_version").0 same)
        (str-version v (rw same at h))
  | inr other ↦
      beside name v fs (λ e. ground (arith, (eq_iff name "protocol_version").1 e))
        (is_version-IsCurrent fs (rw other at h))
]

payload_limit-largest : (kind : TopicKind) → payload_limit kind ≡ largest kind
payload_limit-largest telemetry = refl
payload_limit-largest state = refl
payload_limit-largest set = refl
payload_limit-largest ack = refl
payload_limit-largest status = refl
payload_limit-largest control_command = refl
payload_limit-largest control_request = refl
payload_limit-largest control_reply = refl

loaded-IsReadable :
    (loads : String → Option Json) (kind : TopicKind) (payload : String) (raw : Fields) (v : Json)
    → loads payload ≡ some v
    → read_payload loads kind payload ≡ ok raw
    → IsReadable loads kind payload raw
unfolding read_payload
loaded-IsReadable loads kind payload raw (dict fs) e h =
    let bounds = validate_json_bounds-is_short (dict fs) in
    let limit = payload_limit-largest kind in
    let same : fs ≡ raw = ground arith in
    record {
      sized = ground arith;
      object = ground arith;
      shallow = rw (← same) (ground arith);
      short = rw (← same) (ground arith);
      current = rw (← same) (is_version-IsCurrent fs (ground arith));
    }
loaded-IsReadable loads kind payload raw null e h = absurd (ground arith)
loaded-IsReadable loads kind payload raw (boolean _) e h = absurd (ground arith)
loaded-IsReadable loads kind payload raw (integer _) e h = absurd (ground arith)
loaded-IsReadable loads kind payload raw (negative _) e h = absurd (ground arith)
loaded-IsReadable loads kind payload raw (str _) e h = absurd (ground arith)
loaded-IsReadable loads kind payload raw (list _) e h = absurd (ground arith)

pub read_payload-IsReadable :
    (loads : String → Option Json) (kind : TopicKind) (payload : String) (raw : Fields)
    → read_payload loads kind payload ≡ ok raw
    → IsReadable loads kind payload raw
unfolding read_payload
read_payload-IsReadable loads kind payload raw h = elim (Option-cases (loads payload)) [
  | inl nothing ↦ absurd (ground arith)
  | inr (v, e) ↦ loaded-IsReadable loads kind payload raw v e h
]

same_key-false :
    (key : String × String) (e : (String × String) × ℕ) → same_key key e ≡ false → e.0 ≢ key
same_key-false (house, device) ((h, d), t) miss e = ground (
  arith,
  (eq_iff h house).1 (ap (λ (p : String × String). p.0) e),
  (eq_iff d device).1 (ap (λ (p : String × String). p.1) e),
)

recent-apart :
    (key : String × String) (tick : ℕ) (devices : List ((String × String) × ℕ))
    → any (same_key key) (recent tick devices) ≡ false
    → All (λ e. (e.0 ≢ key) ⊎ (e.1 + 1_000_000 ≤ tick)) devices
unfolding recent
recent-apart key tick [] h = tt
recent-apart key tick (e ∷ es) h = elim (Bool-cases (ltb tick (e.1 + 1_000_000))) [
  | inl late ↦ (inl (same_key-false key e (ground arith)), recent-apart key tick es (ground arith))
  | inr old ↦ (inr (ground arith), recent-apart key tick es (ground arith))
]

is_second-eq : (second : ℕ) (o : Option ℕ) → is_second second o ≡ false → o ≢ some second
is_second-eq second none h e = ground arith
is_second-eq second (some s) h e = ground arith

pub admit-IsAdmitted :
    (key : String × String) (tick : ℕ) (l : Limiter)
    → (admit key tick l).0 ≡ true
    → IsAdmitted key tick l
unfolding admit count_at recent
admit-IsAdmitted key tick l h = record {
  apart = recent-apart key tick l.devices (ground arith);
  room = ground arith;
  few = elim (Bool-cases (is_second (tick / 1_000_000) l.second)) [
    | inl now ↦ inr (ground arith)
    | inr other ↦ inl (is_second-eq (tick / 1_000_000) l.second other)
  ];
}

pub is_control_request-eq :
    (kind : TopicKind) → is_control_request kind ≡ true → kind ≡ control_request
is_control_request-eq control_request h = refl
is_control_request-eq state h = absurd (ground arith)
is_control_request-eq set h = absurd (ground arith)
is_control_request-eq ack h = absurd (ground arith)
is_control_request-eq telemetry h = absurd (ground arith)
is_control_request-eq status h = absurd (ground arith)
is_control_request-eq control_command h = absurd (ground arith)
is_control_request-eq control_reply h = absurd (ground arith)

-- The kinds of topics on which devices write what is read as JSON.
abbrev pub is_report : TopicKind → Bool
is_report state = true
is_report ack = true
is_report telemetry = true
is_report status = true
is_report _ = false

pub is_report-inbound :
    (kind : TopicKind)
    → is_outbound kind ≡ false
    → is_control_request kind ≡ false
    → is_report kind ≡ true
is_report-inbound state h k = refl
is_report-inbound ack h k = refl
is_report-inbound telemetry h k = refl
is_report-inbound status h k = refl
is_report-inbound set h k = absurd (ground arith)
is_report-inbound control_command h k = absurd (ground arith)
is_report-inbound control_request h k = absurd (ground arith)
is_report-inbound control_reply h k = absurd (ground arith)
