-- ===== src/Gateway/Paces.antt =====
-- The reconnections of `MQTTGateway.run` (app/transports/mqtt.py).
use kz_home_core.Common.{
  ℕ, ◌≤◌, Bool, true, false, ◌||◌, List, [], ◌∷◌, ◌≡◌, refl, sym, subst, ◌∙◌, if◌then◌else◌, Result,
  ok, err, All, Bool-cases, inl, inr, arith,
}
use kz_home_core.Topics.{subscription_topics}
use kz_home_core.Gateway.Limiter.{Gateway, Handlers}
use kz_home_core.Gateway.Messages.{Inbound, Message, handle_message}
use kz_home_core.Gateway.Links.{KeepsLink, subscribe_all-KeepsLink, handle_message-KeepsLink}
use kz_home_core.Gateway.Loop.{
  is_cancelled, Turn, Link, subscribe_all, disconnect, listen, opened, serve_link, pause, run,
}

-- Each "mqtt_connected" is followed by one "mqtt_disconnected", the newest first.
abbrev pub IsPaired : List Bool → Type 0
IsPaired [] = Unit
IsPaired (false ∷ true ∷ rest) = IsPaired rest
IsPaired _ = ⊥

module _ {W State Ack Request Delivery : Type 0} (inbound : Inbound W State Ack)
    (handlers : Handlers W Request Delivery) (initial maximum : ℕ) where
  abbrev IsBounded : ℕ → Type 0
  IsBounded d = (initial ≤ d) × (d ≤ maximum)

  -- Between two turns.
  abbrev pub IsResting : Link W → Type 0
  IsResting l =
      (l.gateway.connected ≡ false)
      × IsBounded l.backoff
      × All IsBounded l.delays
      × IsPaired l.events

  abbrev PairedFrom : Bool → List Bool → Type 0
  PairedFrom true events = IsPaired (false ∷ events)
  PairedFrom false events = IsPaired events

  -- In a turn: connected with an open pair, or not.
  abbrev IsOpen : Link W → Type 0
  IsOpen l = IsBounded l.backoff × All IsBounded l.delays × PairedFrom l.gateway.connected l.events

  closed_pair :
      (b : Bool) (events : List Bool)
      → PairedFrom b events
      → IsPaired (if b then false ∷ events else events)
  closed_pair true events h = h
  closed_pair false events h = h

  rests : (l : Link W) → IsOpen l → IsResting (disconnect l)
  unfolding disconnect
  rests l (backoff, delays, events) =
      (refl, backoff, delays, closed_pair l.gateway.connected l.events events)

  module _ (bounded : IsBounded initial) where
    listen-IsOpen :
        (messages : List (Message × ℕ)) (l : Link W)
        → IsOpen l
        → IsOpen (listen inbound handlers initial maximum messages l).1
    listen-IsOpen [] l o = o
    listen-IsOpen ((message, tick) ∷ rest) l (backoff, delays, events) =
        let heard : Link W = record l {
          gateway = (handle_message inbound handlers message tick l.gateway).1;
          backoff = initial;
        } in
        let still : IsOpen heard = (
          bounded,
          delays,
          subst (λ b. PairedFrom b l.events)
              (sym (handle_message-KeepsLink inbound handlers message tick l.gateway)) events,
        ) in
        elim (Bool-cases
          (is_cancelled (handle_message inbound handlers message tick l.gateway).0)) [
            | inl over ↦ rw over still
            | inr goes_on ↦ rw goes_on (listen-IsOpen rest heard still)
          ]

    serve_link-IsOpen :
        (turn : Turn) (l : Link W)
        → IsResting l
        → IsOpen (serve_link inbound handlers initial maximum turn l).1
    unfolding serve_link
    serve_link-IsOpen turn l (off, backoff, delays, events) = elim (Bool-cases turn.connects) [
      | inr refused ↦ rw (refused, serve_link) (backoff, delays, idle l.gateway.connected off)
      | inl connects ↦
          (let before : Gateway W = record (l.gateway) { control_subscribed = false } in
            let kept : KeepsLink inbound handlers before
                (subscribe_all turn.grants subscription_topics before).1 =
              subscribe_all-KeepsLink inbound handlers turn.grants subscription_topics before in
            rw (connects, serve_link)
              (listens (subscribe_all turn.grants subscription_topics before).0
                (subscribe_all turn.grants subscription_topics before).1 (kept ∙ off)))
    ]
      where
        idle : (b : Bool) → b ≡ false → PairedFrom b l.events
        idle b e = rw e events

        listens :
            (r : Result (Unit {0})) (g : Gateway W)
            → g.connected ≡ false
            → IsOpen
                (elim r as (λ _. Bool × Link W) [
                  | err _ ↦ (false, record l { gateway = g })
                  | ok _ ↦
                      listen inbound handlers initial maximum turn.messages
                        (opened inbound handlers initial maximum g l)
                ]).1
        listens (err e) g closed = (backoff, delays, idle g.connected closed)
        listens (ok _) g closed =
            listen-IsOpen turn.messages (opened inbound handlers initial maximum g l)
              (backoff, delays, events)

    pause-IsResting :
        (l : Link W) → IsResting l → IsResting (pause inbound handlers initial maximum l)
    pause-IsResting l (off, backoff, delays, events) =
        (off, (ground arith, ground arith), (backoff, delays), events)

  -- Whatever the broker does in any number of turns, and whatever messages come, each delay before another attempt is
  -- between the initial and the largest backoff, and at the end the gateway is not connected and has announced
  -- one "mqtt_disconnected" after each "mqtt_connected", if that is so at the start.
  pub run-IsResting :
      (turns : List Turn) (l : Link W)
      → initial ≤ maximum
      → IsResting l
      → IsResting (run inbound handlers initial maximum turns l)
  unfolding run
  run-IsResting [] l order rest = rest
  run-IsResting (turn ∷ turns) l order rest =
      let bounded : IsBounded initial = (omega arith, order) in
      let after : IsResting (disconnect (serve_link inbound handlers initial maximum turn l).1) =
        rests (serve_link inbound handlers initial maximum turn l).1
          (serve_link-IsOpen bounded turn l rest) in
      elim (Bool-cases ((serve_link inbound handlers initial maximum turn l).0 || turn.stops)) [
        | inl stops ↦ rw stops after
        | inr goes_on ↦ rw goes_on (
            run-IsResting turns
              (pause inbound handlers initial maximum
                (disconnect (serve_link inbound handlers initial maximum turn l).1))
              order
              (pause-IsResting bounded
                (disconnect (serve_link inbound handlers initial maximum turn l).1) after))
      ]
