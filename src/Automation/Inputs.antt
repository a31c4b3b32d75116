-- ===== src/Automation/Inputs.antt =====
-- What the automation engine is given: the event loop's choices, the reports of devices, and the requests to
-- run a rule or a scene (app/services/scene_service.py).
use kz_home_core.Common.{
  ℕ, suc, ◌%◌, String, not, Option, none, some, List, [], ◌∷◌, str_eq, contains, find, length,
  if◌then◌else◌, Exec, Result, ok, err, not_found, invalid_reference, ◌>>◌, pure,
}
use kz_home_core.Database.{house_of_device}
use kz_home_core.StateValidator.{State}
use kz_home_core.Automation.Rules.{Scene}
use kz_home_core.Automation.Devices.{
  scene_started, Home, publish, SendCommand, update_state, report_state,
}
use kz_home_core.Automation.Engine.{manual_run, resume}

-- The loop of `_validate`.
unfoldable pub check_scene_actions : List (String × State) → String → Home → Result (Unit {0})
check_scene_actions [] house s = ok tt
check_scene_actions ((device_id, state) ∷ more) house s =
    let rest = check_scene_actions more house s in
    elim (house_of_device device_id s.db) [
      | none ↦ err not_found
      | some h ↦ if not (str_eq h house) then err invalid_reference else rest
    ]

-- `_validate`
unfoldable pub validate_scene : Scene → Home → Result (Unit {0})
unfolding check_scene_actions
validate_scene scene s =
    if not (contains scene.house_id s.houses)
    then err invalid_reference
    else check_scene_actions scene.actions scene.house_id s

module _ (send : Option SendCommand) where
  -- The loop of `run`; every event has a correlation of its own, drawn when it is made.
  unfoldable pub run_actions : List (String × State) → (ℕ → String) → Exec Home (Unit {0})
  run_actions [] drawn = pure tt
  run_actions ((device_id, state) ∷ more) drawn =
      update_state send device_id state (drawn 0) 0 >> run_actions more (λ k. drawn (suc k))

  -- `run`, as one step: nothing else comes between its actions here, where the source awaits each of them.
  unfoldable pub run_scene : String → (ℕ → String) → Exec Home (Unit {0})
  unfolding validate_scene run_actions publish
  run_scene scene_id drawn s = elim (find (λ r. str_eq r.id scene_id) s.scenes) [
    | none ↦ (err not_found, s)
    | some scene ↦ elim (validate_scene scene s) [
      | err e ↦ (err e, s)
      | ok _ ↦
          (run_actions scene.actions drawn
              >> (λ s'. (ok tt, publish (scene_started scene (drawn (length scene.actions))) s')))
            s
    ]
  ]

  pub data Input : Type 0 where
    resumed : ℕ → ℕ → Input
    reported : String → String → State → String → Input
    rule_run : String → String → Input
    scene_run : String → (ℕ → String) → Input

  -- What is left of the installation when an input has been taken, whether it returned or raised.
  abbrev pub take : Input → Home → Home
  take (resumed n now) s = resume send (n % length s.tasks) now s
  take (reported house device_id patch correlation) s =
      (report_state house device_id patch correlation s).1
  take (rule_run rule_id correlation) s = (manual_run send rule_id correlation s).1
  take (scene_run scene_id drawn) s = (run_scene scene_id drawn s).1

  abbrev pub take_all : List Input → Home → Home
  take_all [] s = s
  take_all (i ∷ is) s = take_all is (take i s)
