-- ===== src/Gateway/Limiter.antt =====
-- `MQTTGateway._control_request` (app/transports/mqtt.py). Readings of `monotonic` are microseconds; the
-- handlers, the delivery check and the broker client are arguments, on a world of their own.
use kz_home_core.Common.{
  ℕ, suc, ◌+◌, ◌/◌, String, Bool, true, false, not, ◌&&◌, ◌||◌, Option, none, some, List, [], ◌∷◌,
  str_eq, leb, ltb, ◌==◌, any, keep, length, if◌then◌else◌, Exec, Result, ok, err, value_error,
  conflict, unavailable, pure, raise, ◌>>=◌, ◌>>◌,
}
use kz_home_core.Topics.{ParsedTopic, control_reply, build_topic}

-- `_control_devices`, in no order, `_control_second`, none for -1, and `_control_count`.
pub record Limiter : Type 0 where
  pub devices : List ((String × String) × ℕ)
  pub second : Option ℕ
  pub count : ℕ

abbrev pub new_limiter : Limiter
new_limiter = record { devices = []; second = none; count = 0 }

abbrev pub one_second : ℕ
one_second = 1_000_000

abbrev pub max_devices : ℕ
max_devices = 4096

abbrev pub max_count : ℕ
max_count = 100

-- The entries of the last second.
unfoldable pub recent : ℕ → List ((String × String) × ℕ) → List ((String × String) × ℕ)
recent tick devices = keep (λ e. ltb tick (e.1 + one_second)) devices

abbrev pub same_key : String × String → (String × String) × ℕ → Bool
same_key (house, device) ((h, d), _) = str_eq h house && str_eq d device

abbrev pub is_second : ℕ → Option ℕ → Bool
is_second second none = false
is_second second (some s) = s == second

-- The requests that were let through in the second of the reading.
unfoldable pub count_at : ℕ → Limiter → ℕ
count_at tick l = if is_second (tick / one_second) l.second then l.count else 0

-- Whether a request of a device passes at a reading, and the limiter after it.
unfoldable pub admit : String × String → ℕ → Limiter → Bool × Limiter
unfolding recent count_at
admit key tick l =
    if any (same_key key) (recent tick l.devices)
      || (leb max_devices (length (recent tick l.devices)) || leb max_count (count_at tick l))
    then (
      false,
      record {
        devices = recent tick l.devices;
        second = some (tick / one_second);
        count = count_at tick l;
      },
    )
    else (
      true,
      record {
        devices = (key, tick) ∷ recent tick l.devices;
        second = some (tick / one_second);
        count = suc (count_at tick l);
      },
    )

-- The gateway, and the world that its handlers change.
pub record Gateway (W : Type 0) : Type 0 where
  pub limiter : Limiter
  pub connected : Bool
  pub control_subscribed : Bool
  pub world : W

-- The decoder, the handlers of identities and requests, the delivery check, the texts of replies and
-- denials, and the client's `publish` of a topic and a payload with a quality of service and a flag.
pub record Handlers (W Request Delivery : Type 0) : Type 0 where
  pub decode : String → Result Request
  pub identity : String → String → Exec W (Unit {0})
  pub request : Option (String → String → Request → Exec W Delivery)
  pub validate : Delivery → Exec W (Unit {0})
  pub payload : Delivery → String
  pub denial : Request → String
  pub publish : String → String → ℕ → Bool → Exec W (Unit {0})

module _ {W Request Delivery : Type 0} (handlers : Handlers W Request Delivery) where
  abbrev in_world : {A : Type 0} → Exec W A → Exec (Gateway W) A
  in_world m g = let (result, w) = m g.world in (result, record g { world = w })

  abbrev lift : {A : Type 0} → Result A → Exec (Gateway W) A
  lift result g = (result, g)

  unfoldable pub limit_request : String × String → ℕ → Exec (Gateway W) Bool
  unfolding admit
  limit_request key tick g =
      let (passes, l) = admit key tick g.limiter in (ok passes, record g { limiter = l })

  -- The block under `try`.
  unfoldable pub deliver :
      (String → String → Request → Exec W Delivery)
      → String
      → String
      → Request
      → Exec (Gateway W) String
  deliver handler house device request = do
    delivery ← in_world (handler house device request)
    (λ g. (if not g.connected || not g.control_subscribed then err unavailable else ok tt, g))
    in_world (handlers.validate delivery)
    pure (handlers.payload delivery)

  -- `except (ConflictError, UnavailableError)`
  abbrev pub or_denied : Request → Result String × Gateway W → Result String × Gateway W
  or_denied request (err conflict, g) = (ok (handlers.denial request), g)
  or_denied request (err unavailable, g) = (ok (handlers.denial request), g)
  or_denied request (result, g) = (result, g)

  -- The reply to a request that the limiter lets through.
  unfoldable pub reply : ParsedTopic → Request → Exec (Gateway W) (Unit {0})
  unfolding deliver
  reply parsed request = do
    in_world (handlers.identity parsed.house_id parsed.device_id)
    handler ← lift (elim handlers.request [ none ↦ err conflict | some handler ↦ ok handler ])
    text ← (λ g. or_denied request (deliver handler parsed.house_id parsed.device_id request g))
    topic ← lift (build_topic parsed.house_id parsed.device_id control_reply)
    in_world (handlers.publish topic text 1 false)

  -- `_control_request`
  unfoldable pub control_request : ParsedTopic → Bool → String → ℕ → Exec (Gateway W) (Unit {0})
  unfolding limit_request reply
  control_request parsed retained payload tick = if retained then raise value_error else (do
    request ← lift (handlers.decode payload)
    passes ← limit_request (parsed.house_id, parsed.device_id) tick
    if passes then reply parsed request else pure tt)
