-- ===== src/Gateway/Deliveries.antt =====
-- Under which conditions the gateway publishes a control command (`send_control_command` of
-- app/transports/mqtt.py).
use kz_home_core.Common.{
  String, Bool, true, false, not, ◌||◌, Option, none, some, ◌≡◌, refl, ◌⊎◌, inl, inr, arith,
  if◌then◌else◌, Exec, Result, ok, err, conflict, unavailable, continue,
}
use kz_home_core.Topics.{control_command, build_topic}
use kz_home_core.Gateway.Limiter.{Gateway}
use kz_home_core.Gateway.Senders.{Outbound, Sender, send_control_command}

-- A predicate along a block, step by step.
pub step :
    {S A B : Type 0} (P : S → Type 0) (r : Result A) (f : A → Exec S B) (s : S)
    → P s
    → ((a : A) → r ≡ ok a → P (f a s).1)
    → P (continue r f s).1
step P (ok a) f s p k = k a refl
step P (err e) f s p k = p

module _ {W State Delivery : Type 0} (outbound : Outbound W State Delivery) where
  -- A control command that has been stopped, or published after its staging and the check of the delivery.
  abbrev pub IsDelivered : String → String → String → Gateway W → W → Type 0
  IsDelivered house device command_id g after =
      (after ≡ g.world)
      ⊎ ((handler : String → String → String → Exec W Delivery) × (outbound.control_stage_handler
            ≡ some handler)
          × ((after ≡ (handler house device command_id g.world).1)
              ⊎ ((delivery : Delivery) × ((handler house device command_id g.world).0 ≡ ok delivery)
                  × (g.connected ≡ true)
                  × (g.control_subscribed ≡ true)
                  × ((after
                        ≡ (outbound.validate_delivery delivery
                            (handler house device command_id g.world).1).1)
                      ⊎ ((topic : String) × ((outbound.validate_delivery delivery
                              (handler house device command_id g.world).1).0
                            ≡ ok tt)
                          × (build_topic house device control_command ≡ ok topic)
                          × (after
                              ≡ (outbound.publish topic (outbound.delivery_payload delivery) 1 false
                                  (outbound.validate_delivery delivery
                                    (handler house device command_id g.world).1).1).1))))))

  or_conflict :
      {A : Type 0} (o : Option A) (a : A)
      → elim o as (λ _. Result A) [ none ↦ err conflict | some b ↦ ok b ] ≡ ok a
      → o ≡ some a
  or_conflict none a e = absurd (ground arith)
  or_conflict (some b) a e = ground arith

  linked :
      (c k : Bool) (r : Result (Unit {0}))
      → r ≡ (if not c || not k then err unavailable else ok tt)
      → r ≡ ok tt
      → (c ≡ true) × (k ≡ true)
  linked c k r same h = (ground arith, ground arith)

  pub send_control_command-IsDelivered :
      (house device command_id : String) (s : Sender W)
      → IsDelivered house device command_id s.gateway
          (send_control_command outbound house device command_id s).1.gateway.world
  unfolding send_control_command
  send_control_command-IsDelivered house device command_id s =
      let P : Sender W → Type 0 =
        λ t. IsDelivered house device command_id s.gateway t.gateway.world in
      step {B = Unit {0}} P
        (elim outbound.control_stage_handler [ none ↦ err conflict | some handler ↦ ok handler ]) _
        s (inl refl)
        (λ handler there.
          let named : outbound.control_stage_handler ≡ some handler =
            or_conflict outbound.control_stage_handler handler there in
          let staged : Result Delivery × W = handler house device command_id s.gateway.world in
          let behind : Sender W = record s { gateway = record (s.gateway) { world = staged.1 } } in
          step {B = Unit {0}} P staged.0 _ behind (inr (handler, named, inl refl))
            (λ delivery given.
              step {B = Unit {0}} P
                (if not s.gateway.connected || not s.gateway.control_subscribed
                  then err unavailable
                  else ok tt)
                _ behind (inr (handler, named, inl refl))
                (λ (_ : Unit {0}) is_linked.
                  let (connected, subscribed) =
                    linked s.gateway.connected s.gateway.control_subscribed _ refl is_linked in
                  let checked : Result (Unit {0}) × W =
                    outbound.validate_delivery delivery staged.1 in
                  let later : Sender W = record s {
                    gateway = record (s.gateway) { world = checked.1 };
                  } in
                  let still : IsDelivered house device command_id s.gateway checked.1 =
                    inr (handler, named, inr (delivery, given, connected, subscribed, inl refl)) in
                  step {B = Unit {0}} P checked.0 _ later still (λ (_ : Unit {0}) valid.
                    step {B = Unit {0}} P (build_topic house device control_command) _ later still
                      (λ topic built. inr (
                        handler,
                        named,
                        inr (
                          delivery,
                          given,
                          connected,
                          subscribed,
                          inr (topic, valid, built, refl),
                        ),
                      ))))))
