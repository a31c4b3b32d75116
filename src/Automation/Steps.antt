-- ===== src/Automation/Steps.antt =====
-- A step of the tasks for one house, and the devices of the others (app/services/automation_service.py).
use kz_home_core.Common.{
  str_eq, ◌∙◌, ℕ, zero, suc, String, true, false, ◌||◌, leb, Option, none, some, List, [], ◌∷◌, ◌≡◌,
  refl, sym, subst, All, inl, inr, Bool-cases, Option-cases, Result-cases, arith,
}
use kz_home_core.Database.{Device, house_of_device}
use kz_home_core.StateValidator.{State}
use kz_home_core.Automation.Rules.{Action, set_state, delay}
use kz_home_core.Automation.Devices.{
  Change, Task, scheduled, working, Home, publish, changes, merged, write_state, persist_state,
  SendCommand, update_state,
}
use kz_home_core.Automation.Engine.{
  max_automation_depth, action_devices, enabled_for_house, begin, choose, perform, advance,
  take_task, put, resume,
}
use kz_home_core.Automation.Draining.{update_state_effect}
use kz_home_core.Automation.Places.{
  AllIn, AllIn-kept, IsFor, Keeps, Keeps-refl, Keeps-set, Keeps-trans, choose-validated,
  enabled_for_house-mine, tasks-kept, validate-AllIn,
}

-- A block that keeps the other houses and starts tasks for this one only.
abbrev pub Stays : String → Home → Home → Type 0
Stays house s t =
    Keeps house s.db t.db
    × (All (IsFor house s.db) s.tasks → All (IsFor house t.db) t.tasks)
    × ((t.rules ≡ s.rules) × (t.scenes ≡ s.scenes))

pub Stays-refl : (house : String) (s : Home) → Stays house s s
Stays-refl house s = (Keeps-refl house s.db, λ a. a, (refl, refl))

pub Stays-trans :
    (house : String) (s t u : Home) → Stays house s t → Stays house t u → Stays house s u
Stays-trans house s t u (kept, on, (r, x)) (kept', on', (r', x')) =
    (Keeps-trans house s.db t.db u.db kept kept', λ a. on' (on a), (r' ∙ r, x' ∙ x))

module _ (house device_id : String) (s : Home)
    (inside : house_of_device device_id s.db ≡ some house) where
  pub write_state-Stays :
      (entity : Device) (fields : State) (correlation : String) (depth : ℕ)
      → Stays house s (write_state entity device_id fields correlation depth s).1
  unfolding write_state publish
  write_state-Stays entity fields correlation depth =
      let kept = Keeps-set house device_id (merged entity.state fields) s.db inside in
      rw (inside, write_state) (kept, λ a. (refl, tasks-kept house kept s.tasks a), (refl, refl))

  pub persist_state-Stays :
      (entity : Device) (patch : State) (correlation : String) (depth : ℕ)
      → Stays house s (persist_state entity device_id patch correlation depth s).1
  unfolding persist_state
  persist_state-Stays entity patch correlation depth = go (changes patch entity.state) refl
    where
      go :
          (fields : State)
          → changes patch entity.state ≡ fields
          → Stays house s (persist_state entity device_id patch correlation depth s).1
      go [] e = rw (e, persist_state) (Stays-refl house s)
      go (f ∷ fs) e = rw (e, persist_state) (write_state-Stays entity (f ∷ fs) correlation depth)

  pub update_state-Stays :
      (send : Option SendCommand) (patch : State) (correlation : String) (depth : ℕ)
      → Stays house s (update_state send device_id patch correlation depth s).1
  update_state-Stays send patch correlation depth =
      elim (update_state_effect send device_id patch correlation depth s) [
        | inl same ↦ subst (Stays house s) (sym same) (Stays-refl house s)
        | inr (entity, written) ↦
            subst (Stays house s) (sym written) (persist_state-Stays entity patch correlation depth)
      ]

pub take_task-All :
    (P : Task → Type 0) (n : ℕ) (ts : List Task) (t : Task) (us : List Task)
    → take_task n ts ≡ some (t, us)
    → All P ts
    → P t × All P us
take_task-All P n [] t us h a = absurd (ground arith)
take_task-All P zero (u ∷ ts) t us h (mine, a) =
    (subst P {x = u} (ground arith) mine, subst (All P) {x = ts} (ground arith) a)
take_task-All P (suc n) (u ∷ ts) t us h (mine, a) = elim (Option-cases (take_task n ts)) [
  | inl missing ↦ absurd (ground arith)
  | inr ((v, vs), found) ↦
      (let (first, others) = take_task-All P n ts v vs found a in
        (
          subst P {x = v} (ground arith) first,
          subst (All P) {x = u ∷ vs} (ground arith) (mine, others),
        ))
]

module _ (send : Option SendCommand) (house : String) where
  pub perform-Stays :
      (a : Action) (c : Change) (s : Home) (rest : List Action)
      → AllIn house s.db (action_devices (a ∷ rest))
      → Stays house s (perform send a c s).1 × AllIn house s.db (action_devices rest)
  unfolding perform
  perform-Stays (delay seconds) c s rest inside = (Stays-refl house s, inside)
  perform-Stays (set_state device_id state) c s rest (first, inside) =
      (update_state-Stays house device_id s first send state c.correlation_id (suc c.depth), inside)

  -- A step of a task for the house.
  abbrev pub Advances : Home → Option Task × Home → Type 0
  Advances s (left, s') =
      Keeps house s.db s'.db
      × (All (IsFor house s.db) s.tasks → All (IsFor house s'.db) (put left s'.tasks))
      × ((s'.rules ≡ s.rules) × (s'.scenes ≡ s.scenes))

  pub advance-Advances :
      (now : ℕ) (t : Task) (s : Home) → IsFor house s.db t → Advances s (advance send now t s)
  unfolding advance publish begin
  advance-Advances now (scheduled c) s mine =
      elim (Bool-cases (leb max_automation_depth c.depth || str_eq c.house_id "")) [
        | inl over ↦ rw (over, begin) (Keeps-refl house s.db, λ a. a, (refl, refl))
        | inr goes ↦
            rw (goes, begin)
              (
                Keeps-refl house s.db,
                λ a. (
                  (
                    subst (λ h. All (λ r. r.house_id ≡ h) (enabled_for_house c.house_id s.rules))
                        mine (enabled_for_house-mine c.house_id s.rules),
                    tt,
                  ),
                  a,
                ),
                (refl, refl),
              )
      ]
  advance-Advances now (working c [] none) s mine = Stays-refl house s
  advance-Advances now (working c (r ∷ rs) none) s ((mine, theirs), _) =
      elim (Result-cases (choose r c now s)) [
        | inr (e, raised) ↦
            rw (raised, advance) (Keeps-refl house s.db, λ a. ((theirs, tt), a), (refl, refl))
        | inl (false, skipped) ↦
            rw (skipped, advance) (Keeps-refl house s.db, λ a. ((theirs, tt), a), (refl, refl))
        | inl (true, chosen) ↦
            rw (chosen, advance)
              (
                Keeps-refl house s.db,
                λ a. (
                  (
                    theirs,
                    subst (λ h. AllIn h s.db (action_devices r.actions)) mine
                        (validate-AllIn r s (choose-validated r c now s chosen)),
                  ),
                  a,
                ),
                (refl, refl),
              )
      ]
  advance-Advances now (working c rs (some (r, []))) s (theirs, _) =
      (Keeps-refl house s.db, λ a. ((theirs, tt), a), (refl, refl))
  advance-Advances now (working c rs (some (r, act ∷ more))) s (theirs, inside) =
      let ((kept, tasks, fixed), rest) = perform-Stays act c s more inside in
      elim (Result-cases (perform send act c s).0) [
        | inr (e, raised) ↦ rw (raised, advance) (kept, λ a. ((theirs, tt), tasks a), fixed)
        | inl (u, done) ↦
            rw (done, advance)
              (
                kept,
                λ a. ((theirs, AllIn-kept house kept (action_devices more) rest), tasks a),
                fixed,
              )
      ]

  pub resume-Stays :
      (n now : ℕ) (s : Home) → All (IsFor house s.db) s.tasks → Stays house s (resume send n now s)
  unfolding resume
  resume-Stays n now s all_mine = elim (Option-cases (take_task n s.tasks)) [
    | inl missing ↦ rw (missing, resume) (Stays-refl house s)
    | inr ((t, ts), taken) ↦
        (let (mine, theirs) = take_task-All (IsFor house s.db) n s.tasks t ts taken all_mine in
          let (kept, tasks, fixed) = advance-Advances now t (record s { tasks = ts }) mine in
          rw (taken, resume) (kept, λ _. tasks theirs, fixed))
  ]
