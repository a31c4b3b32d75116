-- ===== src/Authority/Later.antt =====
-- The requests that may come after a staging, in any order, and that they leave a staged command staged
-- (app/services/control_authority.py, app/services/command_service.py).
use kz_home_core.Common.{
  ℕ, String, Bool, not, Option, none, some, List, [], ◌∷◌, refl, Bool-cases, Option-cases, inl, inr,
  leb, Result, conflict, raise_if, arith, lookup, length, ◌==◌, keep,
}
use kz_home_core.Clocks.CommandClock.{CommandClock}
use kz_home_core.Clocks.ControlClock.{sample}
use kz_home_core.Database.{Database, DeviceCommand, ControlCommand, Wire, control_by_id}
use kz_home_core.System.{Window, PermitRequest, Authority, System, on_authority, on_control_clock}
use kz_home_core.Commands.Defs.{AckEnvelope, StateEnvelope, ack, state, get}
use kz_home_core.Commands.Submit.{Intent, Transport, Fresh, Delivery, reserve, conclude}
use kz_home_core.Authority.Defs.{bound_command, physical, prepare, stage}
use kz_home_core.Authority.Grant.{
  make_room, remaining_us, binding_taken, is_unbound, bind_permit, binding_of, grant_permit, answer,
  request_at, request,
}
use kz_home_core.Authority.Staged.{
  IsDurable, Holds, Anything, Holds-bind, Holds-same, Holds-raise_if,
}
use kz_home_core.Authority.Evidence.{Holds-ack, Holds-state, Holds-get}
use kz_home_core.Authority.Keeping.{Holds-physical, Holds-sample, Holds-stage, Holds-prepare}
use kz_home_core.Authority.Reserving.{Holds-reserve}
use kz_home_core.Authority.Concluding.{Holds-conclude}

-- A request to the authority or to the command service, with its arguments; `elsewhere` is whatever else happens to
-- the memory of the process, its clocks included, such as a restart, which loses what is not committed.
pub data Request : Type 0 where
  stages : String → String → String → Request
  prepares : Bool → DeviceCommand → Request
  asks : String → String → PermitRequest → Request
  acknowledges : String → String → AckEnvelope → Bool → Request
  reports : String → String → StateEnvelope → Bool → Request
  gets_row : String → String → Request
  reserves : Transport → Intent → Fresh → Request
  concludes : Delivery → String → Request
  elsewhere : Authority → CommandClock → Request

module _ (digest : Wire → String) (binding_digest : List String → String)
    (gate : Database → String → String → Result (Unit {0})) where
  abbrev pub serve : Request → System → System
  serve (stages house device id) s = (stage digest gate house device id s).1
  serve (prepares transient row) s = (prepare digest gate transient row s).1
  serve (asks house device r) s = (request digest binding_digest gate house device r s).1
  serve (acknowledges house device envelope retained) s = (ack house device envelope retained s).1
  serve (reports house device envelope retained) s = (state house device envelope retained s).1
  serve (gets_row house id) s = (get house id s).1
  serve (reserves transport intent fresh) s = (reserve transport intent fresh s).1
  serve (concludes delivery id) s = (conclude delivery id s).1
  serve (elsewhere authority clock) s = record s {
    db = s.saved;
    clock = clock;
    authority = authority;
  }

  abbrev pub serve_all : List Request → System → System
  serve_all [] s = s
  serve_all (r ∷ rs) s = serve_all rs (serve r s)

  module _ (id : String) where
    Holds-bind_permit :
        (command_id binding : String) → Holds id Anything (bind_permit command_id binding)
    unfolding bind_permit
    Holds-bind_permit command_id binding = record {
      at = λ s d. (
        elim (Bool-cases (binding_taken binding s.db)) [
          | inl taken ↦ rw taken (d.1, d.1)
          | inr free ↦
              elim (Bool-cases (not (length (keep (is_unbound command_id) s.db.controls) == 1))) [
                | inl none_left ↦ rw (free, none_left) (d.1, d.1)
                | inr unbound ↦
                    rw (free, unbound)
                      (
                        record { started = d.0.started; present = d.0.present },
                        record { started = d.0.started; present = d.0.present },
                      )
              ]
        ],
        λ a e. tt,
      );
    }

    Holds-grant_permit :
        (house device : String) (r : PermitRequest) (now tick : ℕ) (row : DeviceCommand)
        (window : Window) (binding : String)
        → Holds id Anything (grant_permit house device r now tick row window binding)
    unfolding grant_permit
    Holds-grant_permit house device r now tick row window binding =
        Holds-bind id (on_authority (make_room house device tick)) _
          (Holds-same id _ (λ s. (refl, refl)))
          (λ _ _.
            Holds-bind id (raise_if (leb (remaining_us window.deadline tick) 0) conflict) _
              (Holds-raise_if id _ conflict)
              (λ _ _.
                Holds-bind id (bind_permit row.command_id binding) _
                  (Holds-bind_permit row.command_id binding)
                  (λ _ _. Holds-same id _ (λ s. (refl, refl)))))

    answer-IsDurable :
        (house device : String) (r : PermitRequest) (now tick : ℕ) (row : Option DeviceCommand)
        (control : Option ControlCommand) (window : Option Window) (s : System)
        → IsDurable id s
        → IsDurable id
            (answer digest binding_digest gate house device r now tick row control window s).1
    unfolding answer
    answer-IsDurable house device r now tick (some row) (some control) (some window) s d =
        elim (Option-cases control.permit_binding_sha256) [
          | inl unbound ↦ ground (
            arith,
            ((Holds-grant_permit house device r now tick row window
                  (binding_of digest binding_digest gate house device r)).at
                s d).0,
            d,
          )
          | inr (bound, e) ↦ ground (arith, d)
        ]
    answer-IsDurable house device r now tick none control window s d = d
    answer-IsDurable house device r now tick (some row) none window s d = d
    answer-IsDurable house device r now tick (some row) (some control) none s d = d

    Holds-request :
        (house device : String) (r : PermitRequest)
        → Holds id Anything (request digest binding_digest gate house device r)
    unfolding request request_at
    Holds-request house device r =
        Holds-bind id (physical digest gate house device) _
          (Holds-physical digest gate id house device)
          (λ _ _.
            Holds-bind id (on_control_clock sample) _ (Holds-sample digest gate id) (λ sampled _.
              record {
                at = λ s d. (
                  answer-IsDurable house device r sampled.0 sampled.1
                      (bound_command house device r.command_id s.db)
                      (control_by_id r.command_id s.db) (lookup r.command_id s.authority.windows) s
                      d,
                  λ a e. tt,
                );
              }))

    serve-IsDurable : (r : Request) (s : System) → IsDurable id s → IsDurable id (serve r s)
    serve-IsDurable (stages house device c) s d =
        ((Holds-stage digest gate id house device c).at s d).0
    serve-IsDurable (prepares transient row) s d =
        ((Holds-prepare digest gate id transient row).at s d).0
    serve-IsDurable (asks house device r) s d = ((Holds-request house device r).at s d).0
    serve-IsDurable (acknowledges house device envelope retained) s d =
        ((Holds-ack id house device envelope retained).at s d).0
    serve-IsDurable (reports house device envelope retained) s d =
        ((Holds-state id house device envelope retained).at s d).0
    serve-IsDurable (gets_row house c) s d = ((Holds-get id house c).at s d).0
    serve-IsDurable (reserves transport intent fresh) s d =
        ((Holds-reserve id transport intent fresh).at s d).0
    serve-IsDurable (concludes delivery c) s d = ((Holds-conclude id delivery c).at s d).0
    serve-IsDurable (elsewhere authority clock) s d = (d.1, d.1)

    pub serve_all-IsDurable :
        (rs : List Request) (s : System) → IsDurable id s → IsDurable id (serve_all rs s)
    serve_all-IsDurable [] s d = d
    serve_all-IsDurable (r ∷ rs) s d = serve_all-IsDurable rs (serve r s) (serve-IsDurable r s d)
