-- ===== src/Lib.antt =====
-- KZ Home Core, a smart-home backend: the part that decides whether a device may be switched and what
-- counts as proof that it was.
--
-- Parts and files:
-- - Provisioning: the attempt state machine of app/services/provisioning_state.py (State), `transition`
--   being `transition`, and `ProvisioningService` of app/services/provisioning_service.py over the table of
--   attempts (Sessions has _authorize, _state, _apply, _expire and _load, Service has create, get and
--   cancel). SHA-256, the digest of a request and the drawn identifiers and secrets are arguments.
-- - Clocks: app/services/command_clock.py (`CommandClock.now`) and app/services/control_clock.py
--   (`ControlClock`: tick, recovered, logical_now, sample). A clock's sources are functions of the number
--   of calls so far; times are microseconds. An object's fields are a record, a method that may raise is
--   a function of the record that returns the result and the new record, so that what was written before
--   a raise stays written.
-- - Database and System: the tables that the command path reads and writes (app/models), a session's
--   view of them and what is committed, and the one `ControlAuthority`.
-- - Authority: app/services/control_authority.py. Defs has initialize, prepare, stage, validate_delivery
--   and expired, Grant has _limit and request; the gate and the digests are arguments. Later has the requests
--   that may follow a staging, those to the command service among them.
-- - StateValidator: app/services/state_validator.py.
-- - Commands: app/services/command_service.py. Defs has expire, get, ack and state, Submit the three
--   stretches of submit: the reservation up to the commit in front of the network call, an argument for
--   what other requests do meanwhile, and the conclusion; with them the guards of
--   app/services/onboarding_service.py.
-- - Access: app/security.py (Roles), app/services/auth_service.py with app/repositories/auth_repository.py
--   (Members for authorization and memberships, Sessions for login, refresh and logout). The JWT library,
--   Argon2, SHA-256 and the random identifiers are arguments.
-- - Onboarding: `OnboardingService` of app/services/onboarding_service.py with
--   app/repositories/physical_device_repository.py (Service); every method is one transaction.
-- - Topics: app/transports/mqtt_topics.py, topics as text. Json: the JSON values of messages, the bounds of
--   app/transports/mqtt_models.py and `sanitized` of app/services/event_log_service.py (Redaction).
-- - Automation: app/services/automation_service.py. Rules has the rules, compare and time_matches, Devices
--   the state updates of app/services/device_service.py and the event bus, Engine handle_event, _execute
--   and manual_run as tasks of one event loop. A step of a task is at most what runs between two
--   suspensions; a schedule says which task is resumed, so every interleaving is one. Inputs adds the
--   reports of devices and app/services/scene_service.py.
-- - Gateway: app/transports/mqtt.py. Limiter has `_control_request`, Messages handle_message and _route, Senders
--   send_command, authorize_command and send_control_command, Loop run and _disconnect, for the turns that the
--   broker offers. The handlers and the broker client act on a world that is an argument.
-- - Structure: houses, floors, rooms, devices, scenes, rules and memberships as tables (Tables, with the
--   binding guard), app/services/crud_service.py over the repositories (Crud), the CRUD of the device, scene
--   and automation services (Contents), the routes of app/api/routes.py that create, change and delete
--   (Routes, Requests), and those that read, with the queries of the event log (Reads). What rows of other
--   tables refer to is an argument; a refused commit is rolled back.
-- - Identifiers: the patterns of identifiers and tokens. Samples: a small installation for the tests.
--
-- The command service asks the authority whether a control command has expired and takes its event time
-- from the control clock; commands of virtual devices use the dispatch clock. The authority reads the
-- tables that the service writes.
--
-- Bounds: every loop is over a list, except the stack of `validate_json_bounds`, which runs on fuel: the
-- number of values in the message, which is enough. Integers are unbounded, as in Python. Where the
-- source subtracts times, the model compares sums, or the guard in front of it makes the difference
-- non-negative.
--
-- Not modelled: the rest of the HTTP interface, the start and stop of the gateway's task, and the simulator;
-- fractional numbers in JSON; the length of a delay; JSON texts (a record of the fields stands for its text);
-- cryptographic digests and identifiers, which are arguments. A scene runs in one step, the transport of the
-- automation part answers equal calls alike, and the JWT library's own check of a token's expiry is left out.
pub mod Common
pub mod Identifiers
pub mod Provisioning
pub mod Clocks
pub mod Database
pub mod System
pub mod Authority
pub mod StateValidator
pub mod Commands
pub mod Topics
pub mod Json
pub mod Samples
pub mod Access
pub mod Onboarding
pub mod Automation
pub mod Gateway
pub mod Structure
