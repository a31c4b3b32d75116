-- ===== src/Gateway/Checks.antt =====
-- What a message must have passed before anything outside the gateway changes (`handle_message` of
-- app/transports/mqtt.py).
use kz_home_core.Common.{
  ℕ, String, Bool, true, false, ◌≡◌, refl, sym, ap, subst, ◌⊎◌, inl, inr, Result-cases,
  if◌then◌else◌, Exec, Result, ok, err, value_error, continue, pure, ◌>>=◌,
}
use kz_home_core.Topics.{control_request, ParsedTopic, parse_topic}
use kz_home_core.Json.{Fields}
use kz_home_core.Gateway.Conditions.{
  IsReadable, IsAdmitted, read_payload-IsReadable, admit-IsAdmitted, is_control_request-eq,
  is_report, is_report-inbound,
}
use kz_home_core.Gateway.Limiter
use kz_home_core.Gateway.Limiter.{Gateway, Handlers, admit, limit_request, reply}
use kz_home_core.Gateway.Messages.{
  Inbound, Message, is_outbound, is_control_request, read_payload, by_kind, route, handle_parsed,
  handle_message,
}

module _ {W State Ack Request Delivery : Type 0} (inbound : Inbound W State Ack)
    (handlers : Handlers W Request Delivery) where
  -- The identity check of the device has been run last, or has passed.
  abbrev pub IsIdentified : ParsedTopic → W → W → Type 0
  IsIdentified parsed before after =
      (after ≡ (handlers.identity parsed.house_id parsed.device_id before).1)
      ⊎ ((handlers.identity parsed.house_id parsed.device_id before).0 ≡ ok tt)

  -- A control request is not retained, is decoded and is admitted by the limiter.
  abbrev pub IsRequested : ParsedTopic → Message → ℕ → Gateway W → Type 0
  IsRequested parsed message tick g =
      (message.retained ≡ false)
      × ((request : Request) × (handlers.decode message.payload ≡ ok request))
      × IsAdmitted (parsed.house_id, parsed.device_id) tick g.limiter

  -- A message is such a request, or on a topic of reports and readable.
  abbrev pub IsTaken : ParsedTopic → Message → ℕ → Gateway W → Type 0
  IsTaken parsed message tick g =
      ((parsed.kind ≡ control_request) × IsRequested parsed message tick g)
      ⊎ ((is_report parsed.kind ≡ true)
          × ((raw : Fields) × IsReadable inbound.loads parsed.kind message.payload raw))

  first :
      {S B : Type 0} (r : Result (Unit {0})) (f : Unit {0} → Exec S B) (s : S)
      → ((continue r f s).1 ≡ s) ⊎ (r ≡ ok tt)
  first (ok tt) f s = inr refl
  first (err e) f s = inl refl

  route-IsIdentified :
      (parsed : ParsedTopic) (raw : Fields) (retained : Bool) (w : W)
      → IsIdentified parsed w (route inbound handlers parsed raw retained w).1
  unfolding route
  route-IsIdentified parsed raw retained w =
      let (r, after) = handlers.identity parsed.house_id parsed.device_id w in
      first r (λ _. by_kind inbound parsed.kind parsed.house_id parsed.device_id raw retained) after

  reply-IsIdentified :
      (parsed : ParsedTopic) (request : Request) (g : Gateway W)
      → IsIdentified parsed g.world (reply handlers parsed request g).1.world
  unfolding reply
  reply-IsIdentified parsed request g =
      elim (first {S = Gateway W} {B = Unit {0}}
        (handlers.identity parsed.house_id parsed.device_id g.world).0 _
        (record g { world = (handlers.identity parsed.house_id parsed.device_id g.world).1 })) [
          | inl stopped ↦ inl (ap (λ h. h.world) stopped)
          | inr passed ↦ inr passed
        ]

  -- Nothing outside has changed, or the message was taken.
  abbrev pub IsChecked : ParsedTopic → Message → ℕ → Gateway W → W → Type 0
  IsChecked parsed message tick g after =
      (after ≡ g.world) ⊎ (IsTaken parsed message tick g × IsIdentified parsed g.world after)

  limited-IsIdentified :
      (parsed : ParsedTopic) (request : Request) (g : Gateway W) (passes : Bool)
      → (((if passes then reply handlers parsed request else pure tt) g).1.world ≡ g.world)
        ⊎ ((passes ≡ true)
            × IsIdentified parsed g.world
                ((if passes then reply handlers parsed request else pure tt) g).1.world)
  limited-IsIdentified parsed request g true = inr (refl, reply-IsIdentified parsed request g)
  limited-IsIdentified parsed request g false = inl refl

  control_request-IsIdentified :
      (parsed : ParsedTopic) (retained : Bool) (payload : String) (tick : ℕ) (g : Gateway W)
      → ((Limiter.control_request handlers parsed retained payload tick g).1.world ≡ g.world)
        ⊎ ((retained ≡ false)
            × ((request : Request) × (handlers.decode payload ≡ ok request))
            × ((admit (parsed.house_id, parsed.device_id) tick g.limiter).0 ≡ true)
            × IsIdentified parsed g.world
                (Limiter.control_request handlers parsed retained payload tick g).1.world)
  unfolding Limiter.control_request limit_request
  control_request-IsIdentified parsed true payload tick g = inl refl
  control_request-IsIdentified parsed false payload tick g = decoded (handlers.decode payload) refl
    where
      decoded :
          (d : Result Request)
          → handlers.decode payload ≡ d
          → let after : Gateway W =
              (continue d
                (λ request.
                  limit_request handlers (parsed.house_id, parsed.device_id) tick
                  >>= (λ passes. if passes then reply handlers parsed request else pure tt))
                g).1 in
            ((after.world ≡ g.world)
              ⊎ ((false ≡ false)
                  × ((request : Request) × (handlers.decode payload ≡ ok request))
                  × ((admit (parsed.house_id, parsed.device_id) tick g.limiter).0 ≡ true)
                  × IsIdentified parsed g.world after.world))
      decoded (err e) same = inl refl
      decoded (ok request) same =
          let (passes, l) = admit (parsed.house_id, parsed.device_id) tick g.limiter in
          elim (limited-IsIdentified parsed request (record g { limiter = l }) passes) [
            | inl still ↦ inl still
            | inr (admitted, identified) ↦ inr (refl, (request, same), admitted, identified)
          ]

  parsed-IsChecked :
      (parsed : ParsedTopic) (message : Message) (tick : ℕ) (g : Gateway W)
      → IsChecked parsed message tick g
          (handle_parsed inbound handlers parsed message tick g).1.world
  unfolding handle_parsed
  parsed-IsChecked parsed message tick g =
      settled (is_outbound parsed.kind) (is_control_request parsed.kind)
        (read_payload inbound.loads parsed.kind message.payload) refl refl refl
    where
      controlled : Result (Unit {0}) × Gateway W
      controlled = Limiter.control_request handlers parsed message.retained message.payload tick g

      settled :
          (out control : Bool) (readable : Result Fields)
          → is_outbound parsed.kind ≡ out
          → is_control_request parsed.kind ≡ control
          → read_payload inbound.loads parsed.kind message.payload ≡ readable
          → let after : Result (Unit {0}) × Gateway W =
              if out then (err value_error, g) else if control then controlled else elim readable [
                | err e ↦ (err e, g)
                | ok raw ↦ (
                  (route inbound handlers parsed raw message.retained g.world).0,
                  record g {
                    world = (route inbound handlers parsed raw message.retained g.world).1;
                  },
                )
              ] in
            IsChecked parsed message tick g after.1.world
      settled true control readable o c r = inl refl
      settled false true readable o c r =
          elim (control_request-IsIdentified parsed message.retained message.payload tick g) [
            | inl same ↦ inl same
            | inr (fresh, decoded, admitted, identified) ↦ inr (
              inl (
                is_control_request-eq parsed.kind c,
                (
                  fresh,
                  decoded,
                  admit-IsAdmitted (parsed.house_id, parsed.device_id) tick g.limiter admitted,
                ),
              ),
              identified,
            )
          ]
      settled false false (err e) o c r = inl refl
      settled false false (ok raw) o c r = inr (
        inr (
          is_report-inbound parsed.kind o c,
          (raw, read_payload-IsReadable inbound.loads parsed.kind message.payload raw r),
        ),
        route-IsIdentified parsed raw message.retained g.world,
      )

  -- Whatever a message does outside the gateway, to the database or the events: its topic is one of the device
  -- protocol, and it is of one of two kinds. A control request is decoded and not retained, the limiter's entries
  -- of its device are at least a second old, fewer than 4096 devices have entries of the last second, and fewer
  -- than 100 requests were let through in this second. A state, ACK, telemetry or status has at most 16384 bytes
  -- (telemetry: 32768) and is a JSON object of the protocol's version "v1", which it may leave out, nested at most
  -- seven deep and with no text of more than 1024 bytes. And the identity of the device has been checked: either the
  -- check passed, or it is what was done last.
  pub handle_message-IsChecked :
      (message : Message) (tick : ℕ) (g : Gateway W)
      → ((handle_message inbound handlers message tick g).1.world ≡ g.world)
        ⊎ ((parsed : ParsedTopic) × (parse_topic message.topic ≡ ok parsed)
            × IsChecked parsed message tick g
                (handle_message inbound handlers message tick g).1.world)
  unfolding handle_message
  handle_message-IsChecked message tick g = elim (Result-cases (parse_topic message.topic)) [
    | inr (e, refused) ↦ inl (
        ap
          (λ r.
            (elim r as (λ _. Result (Unit {0}) × Gateway W) [
              | err e ↦ (err e, g)
              | ok parsed ↦ handle_parsed inbound handlers parsed message tick g
            ]).1.world)
          refused)
    | inl (parsed, found) ↦ inr (
      parsed,
      found,
      subst
          (λ r.
            IsChecked parsed message tick g
              (elim r as (λ _. Result (Unit {0}) × Gateway W) [
                | err e ↦ (err e, g)
                | ok parsed ↦ handle_parsed inbound handlers parsed message tick g
              ]).1.world)
          (sym found) (parsed-IsChecked parsed message tick g),
    )
  ]
