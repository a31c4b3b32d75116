-- ===== src/Automation/Tests.antt =====
-- Two lamps of house "h" whose rules switch each other, a lamp of another house, and the theorems there.
use kz_home_core.Common.{
  find, str_eq, ℕ, String, true, false, none, some, List, [], ◌∷◌, ◌≡◌, ◌≢◌, refl, eq_iff, arith,
}
use kz_home_core.Database.{Device, device_by_id, bound_house, located_house, house_of_device}
use kz_home_core.StateValidator.{boolean}
use kz_home_core.Automation.Rules.{Scene, eq, set_state, delay, Rule}
use kz_home_core.Automation.Devices.{scheduled, Home}
use kz_home_core.Automation.Engine.{run}
use kz_home_core.Automation.Draining.{run-total}
use kz_home_core.Automation.Isolation.{take_all-rows}
use kz_home_core.Automation.Inputs.{Input, resumed, reported, rule_run, scene_run, take_all}

abbrev lamp : String → String → Device
lamp id house = record {
  id = id;
  house_id = house;
  type = "relay";
  capabilities = "on_off" ∷ [];
  online = true;
  state = ("on", boolean false) ∷ [];
}

-- When `from` is switched, `to` is switched the same way a second later.
abbrev follow : String → String → Rule
follow from to = record {
  id = from;
  house_id = "h";
  enabled = true;
  trigger = record { device_id = from; field = "on"; operator = eq; value = boolean true };
  conditions = [];
  actions = delay 1 ∷ set_state to (("on", boolean true) ∷ []) ∷ [];
}

abbrev home : Home
home = record {
  db = record {
    commands = [];
    controls = [];
    physical_devices = [];
    devices = lamp "a" "h" ∷ lamp "b" "h" ∷ lamp "c" "g" ∷ [];
  };
  houses = "h" ∷ "g" ∷ [];
  rules = follow "a" "b" ∷ follow "b" "a" ∷ [];
  scenes =
      record { id = "evening"; house_id = "h"; actions = ("b", ("on", boolean true) ∷ []) ∷ [] }
      ∷ [];
  published = [];
  tasks =
      scheduled (record {
        device_id = "a";
        house_id = "h";
        state = ("on", boolean true) ∷ [];
        correlation_id = "k";
        depth = 5;
      })
      ∷ [];
}

abbrev turns : ℕ → List (ℕ × ℕ)
turns ℕ.zero = []
turns (ℕ.suc n) = (n, 0) ∷ turns n

run-total_example : (run none (turns 274) home).tasks ≡ []
run-total_example = run-total none (turns 274) home (omega arith)

outside : house_of_device "c" home.db ≢ some "h"
unfolding house_of_device bound_house located_house device_by_id
outside h = ground (arith, eq_iff "g" "h")

-- A report, a run of a rule and of a scene, and the steps that follow.
abbrev inputs : List (Input none)
inputs =
    reported "h" "b" (("on", boolean true) ∷ []) "k2"
    ∷ resumed 0 0
    ∷ scene_run "evening" (λ _. "k3")
    ∷ rule_run "a" "k4"
    ∷ resumed 1 0
    ∷ resumed 0 0
    ∷ []

rule_of_house : (r : Rule) → find (λ r. str_eq r.id "a") home.rules ≡ some r → r.house_id ≡ "h"
rule_of_house r h = ground arith

scene_of_house :
    (x : Scene) → find (λ r. str_eq r.id "evening") home.scenes ≡ some x → x.house_id ≡ "h"
scene_of_house x h = ground arith

take_all-rows_example : device_by_id "c" (take_all none inputs home).db ≡ device_by_id "c" home.db
take_all-rows_example =
    take_all-rows none "h" inputs home
      (refl, (tt, (scene_of_house, (rule_of_house, (tt, (tt, tt)))))) (refl, tt) "c" outside
