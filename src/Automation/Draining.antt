-- ===== src/Automation/Draining.antt =====
-- Every schedule of the automation tasks comes to an end (app/services/automation_service.py), by the depth
-- that events carry.
use native.Mathlib.Nat.{mod-lt}
use kz_home_core.Common.{
  ℕ, zero, suc, ◌+◌, ◌-◌, ◌%◌, ◌≤◌, ◌<◌, String, Bool, true, false, ◌&&◌, ◌||◌, str_eq, Option,
  none, some, List, [], ◌∷◌, ◌≡◌, ◌⊎◌, refl, sym, subst, leb, keep, length, inl, inr, Bool-cases,
  Option-cases, Result-cases, ok, arith,
}
use kz_home_core.Database.{Device, house_of_device}
use kz_home_core.StateValidator.{State, validate_capabilities}
use kz_home_core.Automation.Rules.{Action, set_state, delay, Rule}
use kz_home_core.Automation.Devices.{
  Change, Task, scheduled, working, Home, publish, admission, changes, write_state, persist_state,
  SendCommand, update_state,
}
use kz_home_core.Automation.Engine.{
  max_automation_depth, enabled_for_house, begin, choose, perform, advance, take_task, put, resume,
  run,
}

abbrev pub actions_cost : ℕ → List Action → ℕ
actions_cost c [] = 0
actions_cost c (a ∷ rest) = suc c + actions_cost c rest

-- The steps that a loop over rules takes at most, where each change it makes takes c.
abbrev pub rules_cost : ℕ → List Rule → ℕ
rules_cost c [] = 0
rules_cost c (r ∷ rs) = (2 + actions_cost c r.actions) + rules_cost c rs

-- The steps that a change takes at most, with those that follow from it; n is how much deeper it may go.
abbrev pub cost : List Rule → ℕ → ℕ
cost rules zero = 1
cost rules (suc n) = 2 + rules_cost (cost rules n) rules

abbrev pub current_cost : ℕ → Option (Rule × List Action) → ℕ
current_cost c none = 0
current_cost c (some (r, actions)) = 1 + actions_cost c actions

abbrev pub task_cost : List Rule → Task → ℕ
task_cost rules (scheduled c) = cost rules (max_automation_depth - c.depth)
task_cost rules (working c rs current) =
    let k = cost rules (max_automation_depth - suc c.depth) in
    (1 + rules_cost k rs) + current_cost k current

abbrev pub total : List Rule → List Task → ℕ
total rules [] = 0
total rules (t ∷ ts) = task_cost rules t + total rules ts

rules_cost-keep :
    (c : ℕ) (p : Rule → Bool) (rs : List Rule) → rules_cost c (keep p rs) ≤ rules_cost c rs
rules_cost-keep c p [] = omega arith
rules_cost-keep c p (r ∷ rs) = ground (arith, rules_cost-keep c p rs)

cost_positive : (rules : List Rule) (n : ℕ) → 1 ≤ cost rules n
cost_positive rules zero = omega arith
cost_positive rules (suc n) = omega arith

shallow :
    (depth : ℕ) (other : Bool)
    → (leb max_automation_depth depth || other) ≡ false
    → max_automation_depth - depth ≡ suc (max_automation_depth - suc depth)
shallow depth other h = ground arith

-- `update_state` changes nothing, or writes the state of the row.
pub update_state_effect :
    (send : Option SendCommand) (device_id : String) (patch : State) (correlation : String)
    (depth : ℕ) (s : Home)
    → ((update_state send device_id patch correlation depth s).1 ≡ s)
      ⊎ ((entity : Device) × ((update_state send device_id patch correlation depth s).1
            ≡ (persist_state entity device_id patch correlation depth s).1))
unfolding update_state persist_state
update_state_effect send device_id patch correlation depth s =
    elim (Result-cases (admission device_id s.db)) [
      | inr (e, refused) ↦ inl (ground (arith, update_state))
      | inl (entity, admitted) ↦ go send entity admitted
    ]
  where
    go :
        (send : Option SendCommand) (entity : Device)
        → admission device_id s.db ≡ ok entity
        → ((update_state send device_id patch correlation depth s).1 ≡ s)
          ⊎ ((entity : Device) × ((update_state send device_id patch correlation depth s).1
                ≡ (persist_state entity device_id patch correlation depth s).1))
    go none entity admitted =
        elim (Result-cases (validate_capabilities entity.capabilities patch)) [
          | inr (e, refused) ↦ inl (ground (arith, update_state))
          | inl (u, valid) ↦ inr (entity, rw (admitted, valid, update_state) refl)
        ]
    go (some deliver) entity admitted = inl (ground (arith, update_state))

take_task-total :
    (rules : List Rule) (n : ℕ) (ts : List Task) (t : Task) (us : List Task)
    → take_task n ts ≡ some (t, us)
    → total rules ts ≡ task_cost rules t + total rules us
take_task-total rules n [] t us h = absurd (ground arith)
take_task-total rules zero (u ∷ ts) t us h = ground arith
take_task-total rules (suc n) (u ∷ ts) t us h = elim (Option-cases (take_task n ts)) [
  | inl missing ↦ absurd (ground arith)
  | inr ((v, vs), found) ↦ ground (arith, take_task-total rules n ts v vs found)
]

take_task-some :
    (n : ℕ) (ts : List Task)
    → n < length ts
    → (t : Task) × (us : List Task) × (take_task n ts ≡ some (t, us))
take_task-some n [] h = absurd (ground arith)
take_task-some zero (t ∷ ts) h = (t, ts, refl)
take_task-some (suc n) (t ∷ ts) h =
    let (u, us, found) = take_task-some n ts (ground arith) in (u, t ∷ us, rw found refl)

total_empty : (rules : List Rule) (ts : List Task) → total rules ts ≤ 0 → ts ≡ []
total_empty rules [] h = refl
total_empty rules (scheduled c ∷ ts) h =
    absurd (omega (arith, cost_positive rules (max_automation_depth - c.depth)))
total_empty rules (working c rs current ∷ ts) h = absurd (ground arith)

-- A block that starts at most one task, for a change at the depth given.
abbrev Adds : ℕ → Home → Home → Type 0
Adds depth s t =
    (t.rules ≡ s.rules)
    × (total s.rules t.tasks ≤ cost s.rules (max_automation_depth - depth) + total s.rules s.tasks)

Adds-refl : (depth : ℕ) (s : Home) → Adds depth s s
Adds-refl depth s = (refl, omega arith)

write_state-Adds :
    (entity : Device) (device_id : String) (fields : State) (correlation : String) (depth : ℕ)
    (s : Home)
    → Adds depth s (write_state entity device_id fields correlation depth s).1
unfolding write_state publish
write_state-Adds entity device_id fields correlation depth s =
    elim (Option-cases (house_of_device device_id s.db)) [
      | inl lost ↦ rw (lost, write_state) (Adds-refl depth s)
      | inr (house, found) ↦ rw (found, write_state) (refl, omega arith)
    ]

persist_state-Adds :
    (entity : Device) (device_id : String) (patch : State) (correlation : String) (depth : ℕ)
    (s : Home)
    → Adds depth s (persist_state entity device_id patch correlation depth s).1
unfolding persist_state
persist_state-Adds entity device_id patch correlation depth s = go (changes patch entity.state) refl
  where
    go :
        (fields : State)
        → changes patch entity.state ≡ fields
        → Adds depth s (persist_state entity device_id patch correlation depth s).1
    go [] e = rw (e, persist_state) (Adds-refl depth s)
    go (f ∷ fs) e =
        rw (e, persist_state) (write_state-Adds entity device_id (f ∷ fs) correlation depth s)

update_state-Adds :
    (send : Option SendCommand) (device_id : String) (patch : State) (correlation : String)
    (depth : ℕ) (s : Home)
    → Adds depth s (update_state send device_id patch correlation depth s).1
update_state-Adds send device_id patch correlation depth s =
    elim (update_state_effect send device_id patch correlation depth s) [
      | inl same ↦ subst (Adds depth s) (sym same) (Adds-refl depth s)
      | inr (entity, written) ↦
          subst (Adds depth s) (sym written)
            (persist_state-Adds entity device_id patch correlation depth s)
    ]

module _ (send : Option SendCommand) where
  perform-Adds : (a : Action) (c : Change) (s : Home) → Adds (suc c.depth) s (perform send a c s).1
  unfolding perform
  perform-Adds (delay seconds) c s = Adds-refl (suc c.depth) s
  perform-Adds (set_state device_id state) c s =
      update_state-Adds send device_id state c.correlation_id (suc c.depth) s

  -- A step of a task costs one at least.
  abbrev Spends : Task → Home → Option Task × Home → Type 0
  Spends t s (left, s') =
      (s'.rules ≡ s.rules)
      × (total s.rules (put left s'.tasks) < task_cost s.rules t + total s.rules s.tasks)

  begin-Spends : (c : Change) (s : Home) → Spends (scheduled c) s (begin c s, s)
  unfolding begin enabled_for_house
  begin-Spends c s = elim (Bool-cases (leb max_automation_depth c.depth || str_eq c.house_id "")) [
    | inl over ↦
        rw (over, begin)
          (refl, omega (arith, cost_positive s.rules (max_automation_depth - c.depth)))
    | inr goes ↦
        let k = cost s.rules (max_automation_depth - suc c.depth) in
        let deeper : max_automation_depth - c.depth ≡ suc (max_automation_depth - suc c.depth) =
          shallow c.depth (str_eq c.house_id "") goes in
        rw (goes, begin)
          (
            refl,
            rw deeper (
                omega (
                  arith,
                  rules_cost-keep k (λ r. str_eq r.house_id c.house_id && r.enabled) s.rules,
                )),
          )
  ]

  advance-Spends : (now : ℕ) (t : Task) (s : Home) → Spends t s (advance send now t s)
  unfolding advance publish
  advance-Spends now (scheduled c) s = begin-Spends c s
  advance-Spends now (working c [] none) s = (refl, omega arith)
  advance-Spends now (working c (r ∷ rs) none) s = elim (Result-cases (choose r c now s)) [
    | inr (e, raised) ↦ rw (raised, advance) (refl, omega arith)
    | inl (false, skipped) ↦ rw (skipped, advance) (refl, omega arith)
    | inl (true, chosen) ↦ rw (chosen, advance) (refl, omega arith)
  ]
  advance-Spends now (working c rs (some (r, []))) s = (refl, omega arith)
  advance-Spends now (working c rs (some (r, a ∷ more))) s =
      elim (Result-cases (perform send a c s).0) [
        | inr (e, raised) ↦
            rw (raised, advance) ((perform-Adds a c s).0, omega (arith, (perform-Adds a c s).1))
        | inl (u, done) ↦
            rw (done, advance) ((perform-Adds a c s).0, omega (arith, (perform-Adds a c s).1))
      ]

  resume-Spends :
      (n now : ℕ) (s : Home) (t : Task) (ts : List Task)
      → take_task n s.tasks ≡ some (t, ts)
      → ((resume send n now s).rules ≡ s.rules)
        × (total s.rules (resume send n now s).tasks < total s.rules s.tasks)
  unfolding resume
  resume-Spends n now s t ts taken =
      let (same, less) = advance-Spends now t (record s { tasks = ts }) in
      let split = take_task-total s.rules n s.tasks t ts taken in
      rw (taken, resume) (same, omega (arith, less, split))

  resume-empty : (n now : ℕ) (s : Home) → s.tasks ≡ [] → resume send n now s ≡ s
  unfolding resume
  resume-empty n now s e = ground (arith, resume)

  -- The event loop runs out of automation tasks, in whatever order it resumes them and whatever the times
  -- and the transport answer: once it has taken as many steps as the tasks cost at most, none is left.
  pub run-total :
      (turns : List (ℕ × ℕ)) (s : Home)
      → total s.rules s.tasks ≤ length turns
      → (run send turns s).tasks ≡ []
  unfolding resume
  run-total turns s h = go turns s s.tasks refl h
    where
      go :
          (turns : List (ℕ × ℕ)) (s : Home) (ts : List Task)
          → s.tasks ≡ ts
          → total s.rules s.tasks ≤ length turns
          → (run send turns s).tasks ≡ []
      go [] s ts e h = total_empty s.rules s.tasks h
      go (turn ∷ turns) s [] e h =
          subst (λ x. (run send turns x).tasks ≡ [])
            (sym (resume-empty (turn.0 % length s.tasks) turn.1 s e))
            (go turns s [] e (rw e (omega arith)))
      go ((n, now) ∷ turns) s (t ∷ ts) e h =
          let (u, us, found) =
            take_task-some (n % length s.tasks) s.tasks (mod-lt n (ground arith)) in
          let (same, less) = resume-Spends (n % length s.tasks) now s u us found in
          let next = resume send (n % length s.tasks) now s in
          go turns next next.tasks refl (rw same (omega (arith, less, h)))
