-- ===== src/Automation/Isolation.antt =====
-- Automations of one house and the devices of the others (app/services/automation_service.py).
use kz_home_core.Common.{
  ok, ℕ, suc, eq_iff, find, str_eq, length, ◌%◌, String, Option, some, List, [], ◌∷◌, ◌≡◌, ◌≢◌,
  refl, sym, subst, All, inl, inr, Option-cases, Result-cases, arith,
}
use kz_home_core.Automation.Rules.{Scene, Rule}
use kz_home_core.Automation.Devices.{
  report_state, require_house, Home, publish, SendCommand, update_state,
}
use kz_home_core.Automation.Engine.{manual_run, validate, action_devices}
use kz_home_core.Automation.Inputs.{
  check_scene_actions, validate_scene, run_actions, run_scene, Input, resumed, reported, rule_run,
  scene_run, take, take_all,
}
use kz_home_core.StateValidator.{validate_report, State}
use kz_home_core.Database.{Database, Device, device_by_id, house_of_device}
use kz_home_core.Automation.Places.{
  in_house_lem, AllIn, AllIn-kept, IsFor, Keeps, Keeps-refl, Keeps-trans, validate-AllIn,
}
use kz_home_core.Automation.Steps.{
  Stays, Stays-refl, Stays-trans, persist_state-Stays, resume-Stays, update_state-Stays,
}

abbrev scene_devices : List (String × State) → List String
scene_devices [] = []
scene_devices ((device_id, state) ∷ more) = device_id ∷ scene_devices more

require_house-inside :
    (house device_id : String) (db : Database) (entity : Device)
    → require_house house device_id db ≡ ok entity
    → house_of_device device_id db ≡ some house
unfolding require_house
require_house-inside house device_id db entity h = in_house_lem device_id house db (ground arith)

check_scene_actions-AllIn :
    (actions : List (String × State)) (house : String) (s : Home)
    → check_scene_actions actions house s ≡ ok tt
    → AllIn house s.db (scene_devices actions)
unfolding check_scene_actions
check_scene_actions-AllIn [] house s h = tt
check_scene_actions-AllIn ((device_id, state) ∷ more) house s h =
    elim (Option-cases (house_of_device device_id s.db)) [
      | inl lost ↦ absurd (ground arith)
      | inr (found, e) ↦ (
        ground (arith, eq_iff found house),
        check_scene_actions-AllIn more house s (ground arith),
      )
    ]

validate_scene-AllIn :
    (x : Scene) (s : Home)
    → validate_scene x s ≡ ok tt
    → AllIn x.house_id s.db (scene_devices x.actions)
unfolding validate_scene
validate_scene-AllIn x s h = check_scene_actions-AllIn x.actions x.house_id s (ground arith)

module _ (send : Option SendCommand) (house : String) where
  -- A report of a device of the house.
  report_state-Stays :
      (device_id : String) (patch : State) (correlation : String) (s : Home)
      → Stays house s (report_state house device_id patch correlation s).1
  unfolding report_state
  report_state-Stays device_id patch correlation s =
      elim (Result-cases (require_house house device_id s.db)) [
        | inr (e, raised) ↦ rw (raised, report_state) (Stays-refl house s)
        | inl (entity, there) ↦ elim (Result-cases (validate_report entity.capabilities patch)) [
          | inr (e, raised) ↦ rw (there, raised, report_state) (Stays-refl house s)
          | inl (tt, valid) ↦
              rw (there, valid, report_state)
                (persist_state-Stays house device_id s
                  (require_house-inside house device_id s.db entity there) entity patch correlation
                  0)
        ]
      ]

  manual_run-Stays :
      (rule_id correlation : String) (s : Home)
      → ((r : Rule) → find (λ r. str_eq r.id rule_id) s.rules ≡ some r → r.house_id ≡ house)
      → Stays house s (manual_run send rule_id correlation s).1
  unfolding manual_run
  manual_run-Stays rule_id correlation s mine =
      elim (Option-cases (find (λ r. str_eq r.id rule_id) s.rules)) [
        | inl missing ↦ rw (missing, manual_run) (Stays-refl house s)
        | inr (r, found) ↦ elim (Result-cases (validate r s)) [
          | inr (e, raised) ↦ rw (found, raised, manual_run) (Stays-refl house s)
          | inl (tt, valid) ↦
              rw (found, valid, manual_run)
                (
                  Keeps-refl house s.db,
                  λ a. (
                    (
                      tt,
                      subst (λ h. AllIn h s.db (action_devices r.actions)) (mine r found)
                          (validate-AllIn r s valid),
                    ),
                    a,
                  ),
                  (refl, refl),
                )
        ]
      ]

  run_actions-Stays :
      (actions : List (String × State)) (drawn : ℕ → String) (s : Home)
      → AllIn house s.db (scene_devices actions)
      → Stays house s (run_actions send actions drawn s).1
  unfolding run_actions
  run_actions-Stays [] drawn s inside = Stays-refl house s
  run_actions-Stays ((device_id, state) ∷ more) drawn s (first, inside) =
      let step = update_state-Stays house device_id s first send state (drawn 0) 0 in
      elim (Result-cases (update_state send device_id state (drawn 0) 0 s).0) [
        | inr (e, raised) ↦ rw (raised, run_actions) step
        | inl (tt, done) ↦
            rw (done, run_actions)
              (Stays-trans house s (update_state send device_id state (drawn 0) 0 s).1
                (run_actions send more (λ k. drawn (suc k))
                  (update_state send device_id state (drawn 0) 0 s).1).1
                step
                (run_actions-Stays more (λ k. drawn (suc k))
                  (update_state send device_id state (drawn 0) 0 s).1
                  (AllIn-kept house step.0 (scene_devices more) inside)))
      ]

  run_scene-Stays :
      (scene_id : String) (drawn : ℕ → String) (s : Home)
      → ((x : Scene) → find (λ r. str_eq r.id scene_id) s.scenes ≡ some x → x.house_id ≡ house)
      → Stays house s (run_scene send scene_id drawn s).1
  unfolding run_scene publish
  run_scene-Stays scene_id drawn s mine =
      elim (Option-cases (find (λ r. str_eq r.id scene_id) s.scenes)) [
        | inl missing ↦ rw (missing, run_scene) (Stays-refl house s)
        | inr (x, found) ↦ elim (Result-cases (validate_scene x s)) [
          | inr (e, raised) ↦ rw (found, raised, run_scene) (Stays-refl house s)
          | inl (tt, valid) ↦
              (let inside =
                  subst (λ h. AllIn h s.db (scene_devices x.actions)) (mine x found)
                    (validate_scene-AllIn x s valid) in
                let step = run_actions-Stays x.actions drawn s inside in
                elim (Result-cases (run_actions send x.actions drawn s).0) [
                  | inr (e, raised) ↦ rw (found, valid, raised, run_scene) step
                  | inl (tt, done) ↦ rw (found, valid, done, run_scene) step
                ])
        ]
      ]

  -- An input that concerns the house: any step of the event loop, a report on the topics of the house, and
  -- a run of a rule or a scene of the house.
  abbrev pub Concerns : List Rule → List Scene → Input send → Type 0
  Concerns rules scenes (resumed n now) = Unit
  Concerns rules scenes (reported h device_id patch correlation) = h ≡ house
  Concerns rules scenes (rule_run rule_id correlation) =
      (r : Rule) → find (λ r. str_eq r.id rule_id) rules ≡ some r → r.house_id ≡ house
  Concerns rules scenes (scene_run scene_id drawn) =
      (x : Scene) → find (λ r. str_eq r.id scene_id) scenes ≡ some x → x.house_id ≡ house

  take-Stays :
      (i : Input send) (s : Home)
      → Concerns s.rules s.scenes i
      → All (IsFor house s.db) s.tasks
      → Stays house s (take send i s)
  take-Stays (resumed n now) s mine tasks = resume-Stays send house (n % length s.tasks) now s tasks
  take-Stays (reported h device_id patch correlation) s mine tasks =
      subst (λ h. Stays house s (report_state h device_id patch correlation s).1) (sym mine)
        (report_state-Stays device_id patch correlation s)
  take-Stays (rule_run rule_id correlation) s mine tasks =
      manual_run-Stays rule_id correlation s mine
  take-Stays (scene_run scene_id drawn) s mine tasks = run_scene-Stays scene_id drawn s mine

  -- However the reports of one house's devices, the runs of its rules and scenes, and the steps of the tasks
  -- for its events follow one another, with every change that comes of them, no device of another house is
  -- touched: its row is the one that stood there.
  pub take_all-rows :
      (is : List (Input send)) (s : Home)
      → All (Concerns s.rules s.scenes) is
      → All (IsFor house s.db) s.tasks
      → (d : String) → house_of_device d s.db ≢ some house
      → device_by_id d (take_all send is s).db ≡ device_by_id d s.db
  take_all-rows is s mine tasks d outside = (go is s mine tasks).rows d outside
    where
      go :
          (is : List (Input send)) (s : Home)
          → All (Concerns s.rules s.scenes) is
          → All (IsFor house s.db) s.tasks
          → Keeps house s.db (take_all send is s).db
      go [] s mine tasks = Keeps-refl house s.db
      go (i ∷ is) s (first, mine) tasks =
          let next = take send i s in
          let (kept, on, fixed) = take-Stays i s first tasks in
          Keeps-trans house s.db next.db (take_all send is next).db kept
            (go is next (rw (fixed.0, fixed.1) mine) (on tasks))
