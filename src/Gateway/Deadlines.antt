-- ===== src/Gateway/Deadlines.antt =====
-- Under which conditions the gateway publishes a command (app/transports/mqtt.py).
use kz_home_core.Common.{
  ℕ, ◌+◌, ◌≤◌, ◌<◌, String, true, false, ◌&&◌, Option, none, some, ◌≡◌, refl, ◌⊎◌, inl, inr, leb,
  ltb, arith, if◌then◌else◌, Result, ok, err, conflict, value_error,
}
use kz_home_core.Topics.{set, build_topic}
use kz_home_core.Clocks.Wall.{Wall}
use kz_home_core.Clocks.CommandClock.{CommandClock, now}
use kz_home_core.Gateway.Deliveries.{step, IsDelivered, send_control_command-IsDelivered}
use kz_home_core.Gateway.Senders.{
  Outbound, Sender, deadline, or_fresh, authorize_command, emit, send_command, send_control_command,
}

module _ {W State Delivery : Type 0} (outbound : Outbound W State Delivery) where
  -- A command with these times is published once, in time.
  abbrev IsEmitted :
      String → String → State → String → String → ℕ × ℕ → CommandClock → W → W → Type 0
  IsEmitted house device values correlation_id command_id (timestamp, expires_at) clock before
        after =
      (topic : String) × (text : String) × (time : ℕ) × (build_topic house device set ≡ ok topic)
      × (outbound.to_text (record {
        command_id = command_id;
        correlation_id = correlation_id;
        timestamp = timestamp;
        expires_at = expires_at;
        state = values;
      })
          ≡ some text)
      × ((now clock).0 ≡ ok time)
      × (timestamp ≤ time)
      × (time < expires_at)
      × (after ≡ (outbound.publish topic text 1 false before).1)

  or_error :
      {A : Type 0} (o : Option A) (a : A)
      → elim o as (λ _. Result A) [ none ↦ err value_error | some b ↦ ok b ] ≡ ok a
      → o ≡ some a
  or_error none a e = absurd (ground arith)
  or_error (some b) a e = ground arith

  in_time :
      (t time e : ℕ) (r : Result (Unit {0}))
      → r ≡ (if leb t time && ltb time e then ok tt else err conflict)
      → r ≡ ok tt
      → (t ≤ time) × (time < e)
  in_time t time e r same h = (ground arith, ground arith)

  emit-IsEmitted :
      (house device : String) (values : State) (correlation_id command_id : String) (times : ℕ × ℕ)
      (s : Sender W)
      → ((emit outbound house device values correlation_id command_id times s).1.gateway.world
          ≡ s.gateway.world)
        ⊎ IsEmitted house device values correlation_id command_id times s.clock s.gateway.world
            (emit outbound house device values correlation_id command_id times s).1.gateway.world
  unfolding emit
  emit-IsEmitted house device values correlation_id command_id (timestamp, expires_at) s =
      let P : Sender W → Type 0 = λ t.
        (t.gateway.world ≡ s.gateway.world)
        ⊎ IsEmitted house device values correlation_id command_id (timestamp, expires_at) s.clock
            s.gateway.world t.gateway.world in
      let ticked : Sender W = record s { clock = (now s.clock).1 } in
      let text_of : Option String = outbound.to_text (record {
        command_id = command_id;
        correlation_id = correlation_id;
        timestamp = timestamp;
        expires_at = expires_at;
        state = values;
      }) in
      step {B = String} P (elim text_of [ none ↦ err value_error | some text ↦ ok text ]) _ s
        (inl refl)
        (λ text valid. step {B = String} P (now s.clock).0 _ ticked (inl refl) (λ time told.
          step {B = String} P
            (if leb timestamp time && ltb time expires_at then ok tt else err conflict) _ ticked
            (inl refl)
            (λ (_ : Unit {0}) between.
              step {B = String} P (build_topic house device set) _ ticked (inl refl) (λ topic built.
                let sent : Result (Unit {0}) × W =
                  outbound.publish topic text 1 false s.gateway.world in
                let (from, until) = in_time timestamp time expires_at _ refl between in
                let done : IsEmitted house device values correlation_id command_id
                    (timestamp, expires_at) s.clock s.gateway.world sent.1 =
                  (
                    topic,
                    text,
                    time,
                    built,
                    or_error text_of text valid,
                    told,
                    from,
                    until,
                    refl,
                  ) in
                step {B = String} P sent.0 _
                  (record s {
                    gateway = record (s.gateway) { world = sent.1 };
                    clock = (now s.clock).1;
                  })
                  (inr done) (λ (_ : Unit {0}) published. inr done)))))

  -- The time that was given, in UTC.
  abbrev pub IsUtc : Option Wall → ℕ → Type 0
  IsUtc given time =
      (wall : Wall) × (given ≡ some wall) × (wall.is_utc ≡ true) × (wall.micros ≡ time)

  -- Two times that make a deadline.
  deadline-ok :
      (timestamp expires_at : Option Wall) (from until : ℕ)
      → deadline timestamp expires_at ≡ ok (from, until)
      → IsUtc timestamp from × IsUtc expires_at until × (from < until) × (until ≤ from + 30_000_000)
  deadline-ok (some t) (some e) from until h = (
    (t, refl, ground arith, ground arith),
    (e, refl, ground arith, ground arith),
    ground arith,
    ground arith,
  )
  deadline-ok none e from until h = absurd (ground arith)
  deadline-ok (some t) none from until h = absurd (ground arith)

  -- The command was published, as the text of its envelope: its two times are given in UTC, the deadline is
  -- at most 30 seconds after the original time, and the reading of the clock lies between the two.
  abbrev pub IsTimely :
      String
      → String
      → State
      → String
      → String
      → Option Wall
      → Option Wall
      → CommandClock
      → W
      → W
      → Type 0
  IsTimely house device values correlation_id command_id timestamp expires_at clock before after =
      (from : ℕ) × (until : ℕ) × (time : ℕ) × (topic : String) × (text : String) × IsUtc timestamp
        from
      × IsUtc expires_at until
      × (until ≤ from + 30_000_000)
      × ((now clock).0 ≡ ok time)
      × (from ≤ time)
      × (time < until)
      × (build_topic house device set ≡ ok topic)
      × (outbound.to_text (record {
        command_id = command_id;
        correlation_id = correlation_id;
        timestamp = from;
        expires_at = until;
        state = values;
      })
          ≡ some text)
      × (after ≡ (outbound.publish topic text 1 false before).1)

  -- A command that has been stopped behind its authorization, or was authorized and published in time.
  abbrev pub IsSent :
      String
      → String
      → State
      → String
      → String
      → Option Wall
      → Option Wall
      → CommandClock
      → W
      → W
      → Type 0
  IsSent house device values correlation_id command_id timestamp expires_at clock before after =
      let authorized : Result (Unit {0}) × W = authorize_command outbound house device before in
      ((after ≡ authorized.1)
        ⊎ ((authorized.0 ≡ ok tt)
            × IsTimely house device values correlation_id command_id timestamp expires_at clock
                authorized.1 after))

  send_command-IsSent :
      (house device : String) (values : State) (correlation_id command_id : String)
      (timestamp expires_at : Option Wall) (fresh_correlation fresh_command : String) (s : Sender W)
      → IsSent house device values
          (or_fresh correlation_id fresh_correlation)
          (or_fresh command_id fresh_command)
          timestamp
          expires_at
          s.clock
          s.gateway.world
          (send_command outbound house device values correlation_id command_id timestamp expires_at
            fresh_correlation fresh_command s).1.gateway.world
  unfolding send_command
  send_command-IsSent house device values correlation_id command_id timestamp expires_at
        fresh_correlation fresh_command s =
      let authorized : Result (Unit {0}) × W =
        authorize_command outbound house device s.gateway.world in
      let behind : Sender W = record s { gateway = record (s.gateway) { world = authorized.1 } } in
      let P : Sender W → Type 0 = λ t.
        IsSent house device values (or_fresh correlation_id fresh_correlation)
          (or_fresh command_id fresh_command) timestamp expires_at s.clock s.gateway.world
          t.gateway.world in
      step {B = String} P authorized.0 _ behind (inl refl) (λ (_ : Unit {0}) passed.
        step {B = String} P (deadline timestamp expires_at) _ behind (inl refl) (λ times valid.
          elim (emit-IsEmitted house device values (or_fresh correlation_id fresh_correlation)
            (or_fresh command_id fresh_command) times behind) [
              | inl same ↦ inl same
              | inr (topic, text, time, built, written, told, after, before, sent) ↦
                  (let (given, ended, _, short) =
                      deadline-ok timestamp expires_at times.0 times.1 valid in
                    inr (
                      passed,
                      (
                        times.0, times.1, time, topic, text, given, ended, short, told, after,
                        before, built, written, sent,
                      ),
                    ))
            ]))

  -- However a call of `send_command` ends, at most one message is published, the text of the command's envelope on
  -- the "set" topic of the device, and only when the destination is authorized, both times are given in UTC, the
  -- deadline is at most 30 seconds after the original time, and the time that the command clock reads in this call
  -- is not before the original time and before the deadline. A call of `send_control_command` publishes only what
  -- the stage handler has delivered, while the gateway is connected and subscribed, and once the delivery is checked.
  pub commands_timely :
      (house device : String) (values : State) (correlation_id command_id : String)
      (timestamp expires_at : Option Wall) (fresh_correlation fresh_command : String) (s : Sender W)
      → IsSent house device values
          (or_fresh correlation_id fresh_correlation)
          (or_fresh command_id fresh_command)
          timestamp
          expires_at
          s.clock
          s.gateway.world
          (send_command outbound house device values correlation_id command_id timestamp expires_at
            fresh_correlation fresh_command s).1.gateway.world
        × IsDelivered outbound house device command_id s.gateway
            (send_control_command outbound house device command_id s).1.gateway.world
  commands_timely house device values correlation_id command_id timestamp expires_at
        fresh_correlation fresh_command s =
      (
        send_command-IsSent house device values correlation_id command_id timestamp expires_at
            fresh_correlation fresh_command s,
        send_control_command-IsDelivered outbound house device command_id s,
      )
