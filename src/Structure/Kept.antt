-- ===== src/Structure/Kept.antt =====
-- What the operations on scenes, rules and memberships (app/services/scene_service.py,
-- app/services/automation_service.py, app/services/auth_service.py) keep.
use kz_home_core.Common.{String, Bool, not, List, ◌∷◌, refl, str_eq, inl, inr, Option-cases}
use kz_home_core.Access.Members.{Membership}
use kz_home_core.Automation.Rules.{Rule, Scene}
use kz_home_core.Automation.Engine.{validate}
use kz_home_core.Automation.Inputs.{validate_scene}
use kz_home_core.Structure.Tables.{Site, scene_row, rule_row}
use kz_home_core.Structure.Contents.{
  SceneUpdate, RuleUpdate, set_scene, set_rule, home, create_scene, update_scene, delete_scene,
  create_rule, update_rule, set_enabled, delete_rule,
}
use kz_home_core.Structure.Keys.{IsKeyed, IsKeyed-keep, IsKeyed-update}
use kz_home_core.Structure.Drops.{IsStored, KeepsBound-refl, KeepsBound-along}
use kz_home_core.Structure.Guarded.{with_ok-P, commit-P}
use kz_home_core.Structure.Safety.{IsGood, unchanged}

module _ (s : Site) (stored : IsStored s) where
  -- A write to scenes, rules or memberships.
  pub elsewhere :
      (scenes : List Scene) (rules : List Rule) (memberships : List Membership)
      → IsKeyed (λ r. r.id) scenes
      → IsKeyed (λ r. r.id) rules
      → IsKeyed (λ r. r.id) memberships
      → IsGood s (record s { scenes = scenes; rules = rules; memberships = memberships })
  elsewhere scenes rules memberships sc ru mb = (
    KeepsBound-along s s _ refl refl refl refl (KeepsBound-refl s),
    (stored.0, stored.1, stored.2, sc, ru, mb),
  )

  pub create_scene-IsGood : (row : Scene) → IsGood s (create_scene row s).1
  unfolding create_scene
  create_scene-IsGood row = with_ok-P (IsGood s) _ s _ (unchanged s stored) (λ _ passed.
      commit-P (IsGood s) _ s _ (unchanged s stored) (λ free.
        elsewhere (row ∷ s.scenes) s.rules s.memberships (free, stored.3) stored.4 stored.5))

  pub update_scene-IsGood :
      (x : String) (values : SceneUpdate) → IsGood s (update_scene x values s).1
  unfolding update_scene
  update_scene-IsGood x values = elim (Option-cases (scene_row x s)) [
    | inl missing ↦ rw (missing, update_scene) (unchanged s stored)
    | inr (current, found) ↦
        rw (found, update_scene)
          (with_ok-P (IsGood s) (validate_scene (set_scene values current) (home s)) s _
            (unchanged s stored)
            (λ _ passed.
              elsewhere _ s.rules s.memberships
                (IsKeyed-update (λ r. r.id) x (set_scene values) s.scenes (λ r. refl) stored.3)
                stored.4 stored.5))
  ]

  pub delete_scene-IsGood : (x : String) → IsGood s (delete_scene x s).1
  unfolding delete_scene
  delete_scene-IsGood x = elim (Option-cases (scene_row x s)) [
    | inl missing ↦ rw (missing, delete_scene) (unchanged s stored)
    | inr (current, found) ↦
        rw (found, delete_scene)
          (elsewhere _ s.rules s.memberships
            (IsKeyed-keep (λ r. r.id) (λ r. not (str_eq r.id x)) s.scenes stored.3) stored.4
            stored.5)
  ]

  pub create_rule-IsGood : (row : Rule) → IsGood s (create_rule row s).1
  unfolding create_rule
  create_rule-IsGood row = with_ok-P (IsGood s) _ s _ (unchanged s stored) (λ _ passed.
      commit-P (IsGood s) _ s _ (unchanged s stored) (λ free.
        elsewhere s.scenes (row ∷ s.rules) s.memberships stored.3 (free, stored.4) stored.5))

  pub update_rule-IsGood : (x : String) (values : RuleUpdate) → IsGood s (update_rule x values s).1
  unfolding update_rule
  update_rule-IsGood x values = elim (Option-cases (rule_row x s)) [
    | inl missing ↦ rw (missing, update_rule) (unchanged s stored)
    | inr (current, found) ↦
        rw (found, update_rule)
          (with_ok-P (IsGood s) (validate (set_rule values current) (home s)) s _
            (unchanged s stored)
            (λ _ passed.
              elsewhere s.scenes _ s.memberships stored.3
                (IsKeyed-update (λ r. r.id) x (set_rule values) s.rules (λ r. refl) stored.4)
                stored.5))
  ]

  pub set_enabled-IsGood : (x : String) (enabled : Bool) → IsGood s (set_enabled x enabled s).1
  unfolding set_enabled
  set_enabled-IsGood x enabled = elim (Option-cases (rule_row x s)) [
    | inl missing ↦ rw (missing, set_enabled) (unchanged s stored)
    | inr (current, found) ↦
        rw (found, set_enabled)
          (elsewhere s.scenes _ s.memberships stored.3
            (IsKeyed-update (λ r. r.id) x (λ r. record r { enabled = enabled }) s.rules (λ r. refl)
              stored.4)
            stored.5)
  ]

  pub delete_rule-IsGood : (x : String) → IsGood s (delete_rule x s).1
  unfolding delete_rule
  delete_rule-IsGood x = elim (Option-cases (rule_row x s)) [
    | inl missing ↦ rw (missing, delete_rule) (unchanged s stored)
    | inr (current, found) ↦
        rw (found, delete_rule)
          (elsewhere s.scenes _ s.memberships stored.3
            (IsKeyed-keep (λ r. r.id) (λ r. not (str_eq r.id x)) s.rules stored.4) stored.5)
  ]
