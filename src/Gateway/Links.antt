-- ===== src/Gateway/Links.antt =====
-- What `handle_message` and the subscriptions (app/transports/mqtt.py) leave to the loop: the connection flag.
use kz_home_core.Common.{
  Exec, none, some, pure, conflict, unavailable, not_found, invalid_reference, value_error,
  provisioning_conflict, provisioning_expired, forbidden, key_error, attribute_error, cancelled, ℕ,
  String, Bool, true, false, not, ◌||◌, List, [], ◌∷◌, ◌≡◌, refl, ◌∙◌, if◌then◌else◌, Result, ok,
  err, Bool-cases, Result-cases, inl, inr,
}
use kz_home_core.Topics.{ParsedTopic, parse_topic, build_topic, control_reply}
use kz_home_core.Gateway.Limiter.{Gateway, Handlers, control_request}
use kz_home_core.Gateway.Messages.{
  Inbound, Message, is_outbound, is_control_request, read_payload, handle_parsed, handle_message,
}
use kz_home_core.Gateway.Limiter
use kz_home_core.Gateway.Deliveries.{step}
use kz_home_core.Gateway.Loop.{is_control_topic, subscribe_all}

module _ {W State Ack Request Delivery : Type 0} (inbound : Inbound W State Ack)
    (handlers : Handlers W Request Delivery) where
  -- The connection flag is the loop's alone.
  abbrev pub KeepsLink : Gateway W → Gateway W → Type 0
  KeepsLink g h = h.connected ≡ g.connected

  pub subscribe_all-KeepsLink :
      (grants : String → ℕ → Bool) (topics : List (String × ℕ)) (g : Gateway W)
      → KeepsLink g (subscribe_all grants topics g).1
  subscribe_all-KeepsLink grants [] g = refl
  subscribe_all-KeepsLink grants ((topic, qos) ∷ rest) g =
      elim (Bool-cases (is_control_topic topic)) [
        | inl control ↦ elim (Bool-cases (grants topic qos)) [
          | inl granted ↦
              rw (granted, control)
                (subscribe_all-KeepsLink grants rest (record g { control_subscribed = true }))
          | inr refused ↦ rw (refused, control) (subscribe_all-KeepsLink grants rest g)
        ]
        | inr other ↦ elim (Bool-cases (grants topic qos)) [
          | inl granted ↦ rw (granted, other) (subscribe_all-KeepsLink grants rest g)
          | inr refused ↦ rw (refused, other) refl
        ]
      ]

  or_denied-KeepsLink :
      (request : Request) (r : Result String) (g : Gateway W)
      → KeepsLink g (Limiter.or_denied handlers request (r, g)).1
  or_denied-KeepsLink request (ok text) g = refl
  or_denied-KeepsLink request (err conflict) g = refl
  or_denied-KeepsLink request (err unavailable) g = refl
  or_denied-KeepsLink request (err not_found) g = refl
  or_denied-KeepsLink request (err invalid_reference) g = refl
  or_denied-KeepsLink request (err value_error) g = refl
  or_denied-KeepsLink request (err provisioning_conflict) g = refl
  or_denied-KeepsLink request (err provisioning_expired) g = refl
  or_denied-KeepsLink request (err forbidden) g = refl
  or_denied-KeepsLink request (err key_error) g = refl
  or_denied-KeepsLink request (err attribute_error) g = refl
  or_denied-KeepsLink request (err cancelled) g = refl

  deliver-KeepsLink :
      (handler : String → String → Request → Exec W Delivery) (house device : String)
      (request : Request) (g : Gateway W)
      → KeepsLink g (Limiter.deliver handlers handler house device request g).1
  unfolding Limiter.deliver
  deliver-KeepsLink handler house device request g =
      step {B = String} (KeepsLink g) (handler house device request g.world).0 _
        (record g { world = (handler house device request g.world).1 }) refl
        (λ delivery given.
          step {B = String} (KeepsLink g)
            (if not g.connected || not g.control_subscribed then err unavailable else ok tt) _
            (record g { world = (handler house device request g.world).1 }) refl
            (λ (_ : Unit {0}) linked.
              let checked : Result (Unit {0}) × W =
                handlers.validate delivery (handler house device request g.world).1 in
              step {B = String} (KeepsLink g) checked.0 _ (record g { world = checked.1 }) refl
                (λ (_ : Unit {0}) valid. refl)))

  reply-KeepsLink :
      (parsed : ParsedTopic) (request : Request) (g : Gateway W)
      → KeepsLink g (Limiter.reply handlers parsed request g).1
  unfolding Limiter.reply
  reply-KeepsLink parsed request g =
      let known : Gateway W = record g {
        world = (handlers.identity parsed.house_id parsed.device_id g.world).1;
      } in
      step {B = Unit {0}} (KeepsLink g)
        (handlers.identity parsed.house_id parsed.device_id g.world).0 _ known refl
        (λ (_ : Unit {0}) identified.
          step {B = Unit {0}} (KeepsLink g)
            (elim handlers.request [ none ↦ err conflict | some handler ↦ ok handler ]) _ known refl
            (λ handler there.
              let answered : Result String × Gateway W =
                Limiter.or_denied handlers request (
                  Limiter.deliver handlers handler parsed.house_id parsed.device_id request
                    known) in
              let kept : KeepsLink g answered.1 =
                or_denied-KeepsLink request
                  (Limiter.deliver handlers handler parsed.house_id parsed.device_id request
                    known).0
                  (Limiter.deliver handlers handler parsed.house_id parsed.device_id request
                    known).1
                ∙ deliver-KeepsLink handler parsed.house_id parsed.device_id request known in
              step {B = Unit {0}} (KeepsLink g) answered.0 _ answered.1 kept (λ text said.
                step {B = Unit {0}} (KeepsLink g)
                  (build_topic parsed.house_id parsed.device_id control_reply) _ answered.1 kept
                  (λ topic built. kept))))

  control_request-KeepsLink :
      (parsed : ParsedTopic) (retained : Bool) (payload : String) (tick : ℕ) (g : Gateway W)
      → KeepsLink g (control_request handlers parsed retained payload tick g).1
  unfolding control_request Limiter.limit_request
  control_request-KeepsLink parsed true payload tick g = refl
  control_request-KeepsLink parsed false payload tick g =
      step {B = Unit {0}} (KeepsLink g) (handlers.decode payload) _ g refl (λ request decoded.
        passed request (Limiter.admit (parsed.house_id, parsed.device_id) tick g.limiter).0
          (record g {
            limiter = (Limiter.admit (parsed.house_id, parsed.device_id) tick g.limiter).1;
          }))
    where
      passed :
          (request : Request) (passes : Bool) (h : Gateway W)
          → KeepsLink h ((if passes then Limiter.reply handlers parsed request else pure tt) h).1
      passed request true h = reply-KeepsLink parsed request h
      passed request false h = refl

  parsed-KeepsLink :
      (parsed : ParsedTopic) (message : Message) (tick : ℕ) (g : Gateway W)
      → KeepsLink g (handle_parsed inbound handlers parsed message tick g).1
  unfolding handle_parsed
  parsed-KeepsLink parsed message tick g = elim (Bool-cases (is_outbound parsed.kind)) [
    | inl refused ↦ rw (refused, handle_parsed) refl
    | inr inward ↦ elim (Bool-cases (is_control_request parsed.kind)) [
      | inl control ↦
          rw (inward, control, handle_parsed)
            (control_request-KeepsLink parsed message.retained message.payload tick g)
      | inr other ↦ elim (Result-cases (read_payload inbound.loads parsed.kind message.payload)) [
        | inl (raw, readable) ↦ rw (inward, other, readable, handle_parsed) refl
        | inr (e, broken) ↦ rw (inward, other, broken, handle_parsed) refl
      ]
    ]
  ]

  pub handle_message-KeepsLink :
      (message : Message) (tick : ℕ) (g : Gateway W)
      → KeepsLink g (handle_message inbound handlers message tick g).1
  unfolding handle_message
  handle_message-KeepsLink message tick g = elim (Result-cases (parse_topic message.topic)) [
    | inl (parsed, found) ↦ rw (found, handle_message) (parsed-KeepsLink parsed message tick g)
    | inr (e, refused) ↦ rw (refused, handle_message) refl
  ]
