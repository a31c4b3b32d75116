-- ===== src/Gateway/Loop.antt =====
-- `MQTTGateway.run` and `_disconnect` (app/transports/mqtt.py). What the broker does in each turn of the loop is an
-- argument: whether it connects, which subscriptions it grants, the messages until the stream ends, and
-- whether the gateway is stopped by then. Delays are microseconds; errors are logged and go no further.
use kz_home_core.Common.{
  ℕ, ◌*◌, String, Bool, true, false, not, List, [], ◌∷◌, codes, ◌==◌, ◌&&◌, ◌||◌, leb,
  if◌then◌else◌, Result, ok, err, unavailable, cancelled,
}
use kz_home_core.Topics.{subscription_topics}
use kz_home_core.Gateway.Limiter.{Gateway, Handlers}
use kz_home_core.Gateway.Messages.{Inbound, Message, handle_message}

-- One turn; a message comes with the reading that the limiter takes.
pub record Turn : Type 0 where
  pub connects : Bool
  pub grants : String → ℕ → Bool
  pub messages : List (Message × ℕ)
  pub stops : Bool

-- The gateway, the current backoff, the delays so far and the events so far, the newest first: `true` for
-- "mqtt_connected".
pub record Link (W : Type 0) : Type 0 where
  pub gateway : Gateway W
  pub backoff : ℕ
  pub delays : List ℕ
  pub events : List Bool

abbrev pub same_codes : List ℕ → List ℕ → Bool
same_codes [] [] = true
same_codes (c ∷ cs) (d ∷ ds) = (c == d) && same_codes cs ds
same_codes _ _ = false

-- `text.endswith(suffix)`
abbrev pub ends_with : List ℕ → List ℕ → Bool
ends_with suffix [] = same_codes suffix []
ends_with suffix (c ∷ cs) = same_codes suffix (c ∷ cs) || ends_with suffix cs

abbrev pub is_control_topic : String → Bool
is_control_topic topic = ends_with (codes "/control/request") (codes topic)

abbrev pub subscribed : {W : Type 0} → String → Gateway W → Gateway W
subscribed topic g = if is_control_topic topic then record g { control_subscribed = true } else g

-- The loop over the subscriptions; that of the control requests may fail.
abbrev pub subscribe_all :
    {W : Type 0}
    → (String → ℕ → Bool)
    → List (String × ℕ)
    → Gateway W
    → Result (Unit {0}) × Gateway W
subscribe_all grants [] g = (ok tt, g)
subscribe_all grants ((topic, qos) ∷ rest) g =
    let granted = subscribe_all grants rest (subscribed topic g) in
    let skipped = subscribe_all grants rest g in
    if grants topic qos
    then granted
    else if is_control_topic topic
    then skipped
    else (err unavailable, g)

-- `_disconnect`; an error of the client is logged, and publishing "mqtt_disconnected" is taken to succeed.
unfoldable pub disconnect : {W : Type 0} → Link W → Link W
disconnect l = record l {
  gateway = record (l.gateway) { connected = false; control_subscribed = false };
  events = if l.gateway.connected then false ∷ l.events else l.events;
}

abbrev pub is_cancelled : Result (Unit {0}) → Bool
is_cancelled (err cancelled) = true
is_cancelled _ = false

module _ {W State Ack Request Delivery : Type 0} (inbound : Inbound W State Ack)
    (handlers : Handlers W Request Delivery) (initial maximum : ℕ) where
  -- `async for message in self.client.messages()`: an error is logged, a cancellation ends the loop.
  abbrev pub listen : List (Message × ℕ) → Link W → Bool × Link W
  listen [] l = (false, l)
  listen ((message, tick) ∷ rest) l =
      let (result, g) = handle_message inbound handlers message tick l.gateway in
      let heard : Link W = record l { gateway = g; backoff = initial } in
      let later = listen rest heard in if is_cancelled result then (true, heard) else later

  -- What is left when `run` sets `connected`.
  abbrev pub opened : Gateway W → Link W → Link W
  opened g l = record l { gateway = record g { connected = true }; events = true ∷ l.events }

  -- The block under `try`, and whether it was cancelled.
  unfoldable pub serve_link : Turn → Link W → Bool × Link W
  serve_link turn l =
      if not turn.connects
      then (false, l)
      else (let (result, g) =
            subscribe_all turn.grants subscription_topics
              (record (l.gateway) { control_subscribed = false }) in
          elim result [
            | err _ ↦ (false, record l { gateway = g })
            | ok _ ↦ listen turn.messages (opened g l)
          ])

  -- `await self.sleep(backoff)` and the next backoff.
  abbrev pub pause : Link W → Link W
  pause l = record l {
    delays = l.backoff ∷ l.delays;
    backoff = if leb (l.backoff * 2) maximum then l.backoff * 2 else maximum;
  }

  -- `run`, for the turns that the broker offers.
  unfoldable pub run : List Turn → Link W → Link W
  unfolding serve_link disconnect
  run [] l = l
  run (turn ∷ turns) l =
      let (is_over, served) = serve_link turn l in
      let after = disconnect served in
      let next = run turns (pause after) in if is_over || turn.stops then after else next
