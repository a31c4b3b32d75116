-- ===== src/Authority/Permit.antt =====
-- At most one permit binding is ever answered for a command (app/services/control_authority.py).
use mathlib.Core.Path.{subst₂}
use kz_home_core.Common.{
  ℕ, String, false, ◌&&◌, Option, none, some, List, ◌≡◌, ◌≢◌, refl, sym, ap, subst, ◌∙◌, str_eq,
  eq_iff, Result, ok, err, returns, find-test, find-update, arith, lookup, Option-cases, inl, inr,
}
use kz_home_core.Database.{Database, DeviceCommand, ControlCommand, Wire, control_by_id}
use kz_home_core.System.{System, Window, PermitRequest, ControlDelivery}
use kz_home_core.Authority.Defs.{bound_command}
use kz_home_core.Authority.Grant.{
  answer, request, request_at, grant_permit, bind_permit, binding_of, make_room, is_unbound,
}
use kz_home_core.Authority.Single.{behind_sample}

-- The durable permit binding of a command.
abbrev pub permit_of : String → Database → Option String
permit_of command_id db = elim (control_by_id command_id db) [
  | none ↦ none
  | some control ↦ control.permit_binding_sha256
]

bind_permit-permit_of :
    (command_id binding : String) (s : System) (c : ControlCommand)
    → control_by_id command_id s.db ≡ some c
    → c.permit_binding_sha256 ≡ none
    → (bind_permit command_id binding s).0 ≡ ok tt
    → permit_of command_id (bind_permit command_id binding s).1.db ≡ some binding
unfolding bind_permit control_by_id
bind_permit-permit_of command_id binding s c found unbound h = ground (
  arith,
  find-test (λ (x : ControlCommand). str_eq x.command_id command_id) s.db.controls c found,
  find-update (λ x. str_eq x.command_id command_id) (is_unbound command_id)
      (λ x. record x { permit_binding_sha256 = some binding }) s.db.controls c (λ y. refl) found,
)

grant_permit-permit_of :
    (house device : String) (r : PermitRequest) (now at : ℕ) (row : DeviceCommand) (window : Window)
    (binding : String) (s : System) (c : ControlCommand) (d : ControlDelivery)
    → control_by_id row.command_id s.db ≡ some c
    → c.permit_binding_sha256 ≡ none
    → (grant_permit house device r now at row window binding s).0 ≡ ok d
    → permit_of row.command_id (grant_permit house device r now at row window binding s).1.db
      ≡ some binding
unfolding grant_permit
grant_permit-permit_of house device r now at row window binding s c d found unbound h =
    let s1 = record s { authority = (make_room house device at s.authority).1 } in
    ground (arith, bind_permit-permit_of row.command_id binding s1 c found unbound)

module _ (digest : Wire → String) (binding_digest : List String → String)
    (gate : Database → String → String → Result (Unit {0})) where
  bound_command_id :
      (house device command_id : String) (db : Database) (row : DeviceCommand)
      → bound_command house device command_id db ≡ some row
      → row.command_id ≡ command_id
  unfolding bound_command
  bound_command_id house device command_id db row e = ground (
    arith,
    find-test
        (λ (x : DeviceCommand).
          str_eq x.command_id command_id && (str_eq x.house_id house && str_eq x.device_id device))
        db.commands row e,
    eq_iff row.command_id command_id,
  )

  -- An answer leaves its own binding on the command.
  answer-permit_of :
      (house device : String) (r : PermitRequest) (now at : ℕ) (row : Option DeviceCommand)
      (control : Option ControlCommand) (window : Option Window) (s : System) (d : ControlDelivery)
      → ((x : DeviceCommand) → row ≡ some x → x.command_id ≡ r.command_id)
      → control_by_id r.command_id s.db ≡ control
      → (answer digest binding_digest gate house device r now at row control window s).0 ≡ ok d
      → permit_of r.command_id
          (answer digest binding_digest gate house device r now at row control window s).1.db
        ≡ some (binding_of digest binding_digest gate house device r)
  unfolding answer
  answer-permit_of house device r now at (some row) (some control) (some window) s d own found h =
      let b = binding_of digest binding_digest gate house device r in
      elim (Option-cases control.permit_binding_sha256) [
        | inl unbound ↦ ground (
          arith,
          own row refl,
          grant_permit-permit_of house device r now at row window b s control d
              (subst (λ (i : String). control_by_id i s.db ≡ some control) (sym (own row refl))
                found)
              unbound,
        )
        | inr (bound, e) ↦ ground (arith, eq_iff bound b)
      ]
  answer-permit_of house device r now at _ _ _ s d own found h = absurd (ground arith)

  -- A bound command gives no answer to another binding.
  answer_other :
      (house device : String) (r : PermitRequest) (now at : ℕ) (row : Option DeviceCommand)
      (control : Option ControlCommand) (window : Option Window) (s : System) (bound : String)
      → control_by_id r.command_id s.db ≡ control
      → permit_of r.command_id s.db ≡ some bound
      → bound ≢ binding_of digest binding_digest gate house device r
      → returns (answer digest binding_digest gate house device r now at row control window s).0
        ≡ false
  unfolding answer
  answer_other house device r now at (some row) (some control) (some window) s bound found h ne =
      ground (arith, eq_iff bound (binding_of digest binding_digest gate house device r))
  answer_other house device r now at _ _ _ s bound found h ne = refl

  request_at-permit_of :
      (house device : String) (r : PermitRequest) (sampled : ℕ × ℕ) (s : System)
      (d : ControlDelivery)
      → (request_at digest binding_digest gate house device r sampled s).0 ≡ ok d
      → permit_of r.command_id (request_at digest binding_digest gate house device r sampled s).1.db
        ≡ some (binding_of digest binding_digest gate house device r)
  unfolding request_at
  request_at-permit_of house device r (now, at) s d h =
      answer-permit_of house device r now at (bound_command house device r.command_id s.db) _ _ s d
        (bound_command_id house device r.command_id s.db) refl h

  request_at_other :
      (house device : String) (r : PermitRequest) (sampled : ℕ × ℕ) (s : System)
      (d : ControlDelivery) (bound : String)
      → permit_of r.command_id s.db ≡ some bound
      → bound ≢ binding_of digest binding_digest gate house device r
      → ¬ ((request_at digest binding_digest gate house device r sampled s).0 ≡ ok d)
  unfolding request_at
  request_at_other house device r (now, at) s d bound h ne k =
      let refused =
        answer_other house device r now at (bound_command house device r.command_id s.db)
          (control_by_id r.command_id s.db) (lookup r.command_id s.authority.windows) s bound refl h
          ne in
      cc

  -- Once a permit request has been answered, no request for the same command with another binding
  -- (another house, device, epoch, boot, session or nonce, so far as the digest tells them apart) is
  -- answered on that database: at most one permit attempt exists for a command.
  pub single_permit :
      (house device house' device' : String) (r r' : PermitRequest) (s t : System)
      (d : ControlDelivery)
      → (request digest binding_digest gate house device r s).0 ≡ ok d
      → t.db ≡ (request digest binding_digest gate house device r s).1.db
      → r'.command_id ≡ r.command_id
      → binding_of digest binding_digest gate house device r
        ≢ binding_of digest binding_digest gate house' device' r'
      → returns (request digest binding_digest gate house' device' r' t).0 ≡ false
  unfolding request
  single_permit house device house' device' r r' s t d h same command ne =
      go (request digest binding_digest gate house' device' r' t).0 refl
    where
      go :
          (q : Result ControlDelivery)
          → (request digest binding_digest gate house' device' r' t).0 ≡ q
          → returns q ≡ false
      go (err e) k = refl
      go (ok d') k =
          let (x, s', es, e) =
            behind_sample digest gate (request_at digest binding_digest gate house device r) house
              device s d h in
          let (y, t', et, f) =
            behind_sample digest gate (request_at digest binding_digest gate house' device' r')
              house' device' t d' k in
          let bound =
            request_at-permit_of house device r x s' d
              (subst (λ (q : Result ControlDelivery × System). q.0 ≡ ok d) e h) in
          absurd (
            request_at_other house' device' r' y t' d'
              (binding_of digest binding_digest gate house device r)
              (subst₂
                (λ (db : Database) (i : String).
                  permit_of i db ≡ some (binding_of digest binding_digest gate house device r))
                (sym (et ∙ same ∙ ap (λ (q : Result ControlDelivery × System). q.1.db) e))
                (sym command) bound)
              ne (subst (λ (q : Result ControlDelivery × System). q.0 ≡ ok d') f k))
