-- ===== src/Authority/Tests.antt =====
-- The control authority on one staged command, and its theorems at those inputs.
use kz_home_core.Common.{
  List, ◌+◌, ◌≤◌, ◌<◌, true, false, some, [], ◌∷◌, ◌≡◌, ◌≢◌, refl, ap, ◌⊎◌, str_eq, ok, returns,
  arith, lookup, contains,
}
use kz_home_core.Clocks.ControlClock.{
  permit_us, tick, recovered, sample, sample_at, check_wall, read_wall, read_health, require_health,
  accept_tick,
}
use kz_home_core.Database.{
  ControlCommand, physical_by_device, device_by_id, bound_house, located_house, house_of_device,
  is_in_house, control_by_id,
}
use kz_home_core.System.{ControlDelivery, Window, command, grant}
use kz_home_core.Authority.Defs.{
  closed_gate, prepare, stage, stage_at, dispatch, stageable, physical, for_house, bound_command,
  identity, identity_eq, expired,
}
use kz_home_core.Authority.Grant.{
  request, request_at, answer, is_candidate, repeat_reply, grant_permit, make_room, limit,
  is_recent, is_rate_of, count_in_second, is_valid_at, bind_permit, binding_taken, is_unbound,
  reply_of, binding_of,
}
use kz_home_core.Authority.Closed.{closed_refuses}
use kz_home_core.Authority.Later.{Request, gets_row, prepares, elsewhere, serve_all}
use kz_home_core.Authority.Single.{stage_once}
use kz_home_core.Authority.Permit.{single_permit}
use kz_home_core.Authority.Limits.{limits, limit_spacing, grant_deadline, expired_sound}
use kz_home_core.Samples.{
  fresh_row, started_row, wire, control, window, authority, system, digest, last_of, open_gate,
  permit_request,
}

closed_refuses_example :
    (returns (prepare digest closed_gate true fresh_row (system started_row control)).0 ≡ false)
    × ((prepare digest closed_gate true fresh_row (system started_row control)).1
        ≡ system started_row control)
    × (returns (stage digest closed_gate "h" "d" "c" (system started_row control)).0 ≡ false)
    × ((stage digest closed_gate "h" "d" "c" (system started_row control)).1
        ≡ system started_row control)
    × (returns
          (request digest last_of closed_gate "h" "d"
            (permit_request "n")
            (system started_row control)).0
        ≡ false)
    × ((request digest last_of closed_gate "h" "d"
          (permit_request "n")
          (system started_row control)).1
        ≡ system started_row control)
closed_refuses_example =
    closed_refuses digest last_of (system started_row control) true fresh_row "h" "d" "c"
      (permit_request "n")

abbrev staged : ControlDelivery
staged = record {
  payload = command wire;
  command_id = "c";
  epoch = "epoch";
  deadline_tick = 70_000_000;
  valid_until_tick = 70_000_000;
  is_grant = false;
}

stage_returns : (stage digest open_gate "h" "d" "c" (system fresh_row control)).0 ≡ ok staged
unfolding stage stage_at dispatch stageable physical for_house bound_command identity identity_eq
    physical_by_device device_by_id bound_house located_house house_of_device is_in_house
    control_by_id sample sample_at check_wall read_wall read_health require_health accept_tick tick
    recovered
stage_returns = refl

-- A read of the row, another candidate, a restart.
abbrev meanwhile : List Request
meanwhile =
    gets_row "h" "c"
    ∷ prepares true (record fresh_row { command_id = "e" })
    ∷ elsewhere (system fresh_row control).authority (system fresh_row control).clock
    ∷ []

stage_once_example :
    returns
      (stage digest open_gate "k" "e" "c" (
        serve_all digest last_of open_gate meanwhile
          (stage digest open_gate "h" "d" "c" (system fresh_row control)).1)).0
    ≡ false
stage_once_example =
    stage_once digest open_gate last_of "h" "d" "c" (system fresh_row control) staged meanwhile "k"
      "e" stage_returns

abbrev granted : ControlDelivery
granted = record {
  payload = grant (permit_request "n") 90_000_000 110_000_000 1_999_999;
  command_id = "c";
  epoch = "epoch";
  deadline_tick = 70_000_000;
  valid_until_tick = 41_999_999;
  is_grant = true;
}

grant_returns :
    (grant_permit "h" "d"
      (permit_request "n")
      90_000_000
      40_000_000
      started_row
      window
      "n"
      (system started_row control)).0
    ≡ ok granted
unfolding grant_permit make_room limit is_recent is_rate_of count_in_second is_valid_at bind_permit
    binding_taken is_unbound reply_of
grant_returns = refl

grant_deadline_example :
    (granted.is_grant ≡ true)
    × (granted.command_id ≡ "c")
    × (granted.deadline_tick ≡ 70_000_000)
    × (40_000_000 < granted.valid_until_tick)
    × (granted.valid_until_tick < 70_000_000)
    × (granted.valid_until_tick < 40_000_000 + permit_us)
grant_deadline_example =
    grant_deadline "h" "d" (permit_request "n") 90_000_000 40_000_000 started_row window "n"
      (system started_row control) granted grant_returns

request_returns :
    (request digest last_of open_gate "h" "d" (permit_request "n") (system started_row control)).0
    ≡ ok granted
unfolding request request_at answer is_candidate repeat_reply binding_of grant_permit make_room
    limit is_recent is_rate_of count_in_second is_valid_at bind_permit binding_taken is_unbound
    reply_of physical for_house bound_command identity identity_eq physical_by_device device_by_id
    bound_house located_house house_of_device is_in_house control_by_id sample sample_at check_wall
    read_wall read_health require_health accept_tick tick recovered
request_returns = refl

other_binding :
    binding_of digest last_of open_gate "h" "d" (permit_request "n")
    ≢ binding_of digest last_of open_gate "h" "d" (permit_request "m")
unfolding binding_of
other_binding e = absurd (ground (arith, ap (λ x. str_eq "n" x) e))

single_permit_example :
    returns
      (request digest last_of open_gate "h" "d"
        (permit_request "m")
        (request digest last_of open_gate "h" "d"
          (permit_request "n")
          (system started_row control)).1).0
    ≡ false
single_permit_example =
    single_permit digest last_of open_gate "h" "d" "h" "d" (permit_request "n") (permit_request "m")
      (system started_row control)
      (request digest last_of open_gate "h" "d" (permit_request "n") (system started_row control)).1
      granted request_returns refl refl other_binding

limit_passes : returns (limit "h" "d" 5 authority).0 ≡ true
unfolding limit is_recent is_rate_of count_in_second
limit_passes = refl

limit_spacing_example :
    returns
      (limit "h" "d" 900_000 (limits (("h", "e", 700_000) ∷ []) (limit "h" "d" 5 authority).1)).0
    ≡ false
limit_spacing_example =
    limit_spacing "h" "d" 5 900_000 (("h", "e", 700_000) ∷ []) authority limit_passes
      (omega arith, tt) (omega arith)

abbrev old_control : ControlCommand
old_control = record control { command_id = "old"; authority_epoch = "before" }

old_expired : (expired old_control authority).0 ≡ ok true
unfolding expired tick recovered accept_tick
old_expired = refl

expired_sound_example :
    ((str_eq "before" "epoch" ≡ true)
      × ((w : Window) × (lookup "old" authority.windows ≡ some w)
          × (w.deadline ≤ (expired old_control authority).1.clock.last)))
    ⊎ ((str_eq "before" "epoch" ≡ false)
        × (contains "old" ("old" ∷ []) ≡ true)
        × (0 + 30_000_000 ≤ (expired old_control authority).1.clock.last))
expired_sound_example = expired_sound old_control authority old_expired
