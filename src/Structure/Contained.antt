-- ===== src/Structure/Contained.antt =====
-- The operations on the scenes, rules and memberships of one house (app/services/scene_service.py,
-- app/services/automation_service.py, app/services/auth_service.py) leave another as it is.
use kz_home_core.Common.{
  String, Bool, true, false, not, Option, none, some, List, ◌∷◌, ◌≡◌, refl, sym, ◌∙◌, subst, str_eq,
  eq_iff, find, keep, update, or_else, inl, inr, Bool-cases, Option-cases, arith, Exec,
}
use kz_home_core.Access.Members.{Membership, Members, membership_for, is_of}
use kz_home_core.Automation.Rules.{Rule, Scene}
use kz_home_core.Automation.Engine.{validate}
use kz_home_core.Automation.Inputs.{validate_scene}
use kz_home_core.Structure.Tables.{Site, by_id, scene_row, rule_row}
use kz_home_core.Structure.Crud.{has_id}
use kz_home_core.Structure.Contents.{
  members, in_members, home, SceneUpdate, RuleUpdate, set_scene, set_rule, create_scene,
  update_scene, delete_scene, create_rule, update_rule, set_enabled, delete_rule,
}
use kz_home_core.Structure.Keys.{only, by_id-key}
use kz_home_core.Structure.Drops.{IsStored}
use kz_home_core.Structure.Memberships.{Touches, Touches-others}
use kz_home_core.Structure.Guarded.{with_ok-P, commit-P}
use kz_home_core.Structure.Views.{
  scene_in, rule_in, Same, Same-refl, Same-contents, only_new, only-update, only-keep,
}
use kz_home_core.Structure.Untouched.{IsElsewhere}

-- A row that passes a test is not the one with an identifier, where that one fails it.
is_another :
    {A : Type 0} (key : A → String) (q : A → Bool) (x y : String) (rows : List A) (r : A)
    → ((z : A) → by_id key x rows ≡ some z → q z ≡ false)
    → by_id key y rows ≡ some r
    → q r ≡ true
    → not (str_eq (key r) x) ≡ true
is_another key q x y rows r from found mine = elim (Bool-cases (str_eq (key r) x)) [
  | inr other ↦ ground arith
  | inl same ↦ absurd (
      ground (
        arith,
        from r (
            subst (λ z. by_id key z rows ≡ some r)
              (sym (by_id-key key y rows r found) ∙ (eq_iff (key r) x).0 same) found),
      ))
]

module _ (h : String) (s : Site) where
  scenes-Same :
      (rows : List Scene)
      → ((x : String) → only (λ r. str_eq r.house_id h) (by_id (λ r. r.id) x rows) ≡ scene_in h x s)
      → Same h s (record s { scenes = rows })
  scenes-Same rows same =
      Same-contents h s s s.houses rows s.rules s.memberships (Same-refl h s) refl same (λ x. refl)
        (λ u. refl)

  rules-Same :
      (rows : List Rule)
      → ((x : String) → only (λ r. str_eq r.house_id h) (by_id (λ r. r.id) x rows) ≡ rule_in h x s)
      → Same h s (record s { rules = rows })
  rules-Same rows same =
      Same-contents h s s s.houses s.scenes rows s.memberships (Same-refl h s) refl (λ x. refl) same
        (λ u. refl)

  pub members-Same :
      (rows : List Membership)
      → ((u : String) → find (is_of u h) rows ≡ find (is_of u h) s.memberships)
      → Same h s (record s { memberships = rows })
  unfolding membership_for
  members-Same rows same =
      Same-contents h s s s.houses s.scenes s.rules rows (Same-refl h s) refl (λ x. refl)
        (λ x. refl) same

  pub create_scene-apart :
      (row : Scene) → str_eq row.house_id h ≡ false → Same h s (create_scene row s).1
  unfolding create_scene
  create_scene-apart row out = with_ok-P (Same h s) _ s _ (Same-refl h s) (λ _ passed.
      commit-P (Same h s) _ s _ (Same-refl h s) (λ free.
        scenes-Same (row ∷ s.scenes)
          (λ x. only_new (λ r. r.id) (λ r. str_eq r.house_id h) x row s.scenes free out)))

  pub create_rule-apart :
      (row : Rule) → str_eq row.house_id h ≡ false → Same h s (create_rule row s).1
  unfolding create_rule
  create_rule-apart row out = with_ok-P (Same h s) _ s _ (Same-refl h s) (λ _ passed.
      commit-P (Same h s) _ s _ (Same-refl h s) (λ free.
        rules-Same (row ∷ s.rules)
          (λ x. only_new (λ r. r.id) (λ r. str_eq r.house_id h) x row s.rules free out)))

  -- Where a field names another house, or none, the row stays elsewhere.
  goes :
      (new : Option String) (old : String)
      → IsElsewhere h new
      → str_eq old h ≡ false
      → str_eq (or_else new old) h ≡ false
  goes none old to before = before
  goes (some g) old to before = to g refl

  pub update_scene-apart :
      (x : String) (values : SceneUpdate)
      → ((r : Scene) → scene_row x s ≡ some r → str_eq r.house_id h ≡ false)
      → IsElsewhere h values.house_id
      → Same h s (update_scene x values s).1
  unfolding update_scene
  update_scene-apart x values from to = elim (Option-cases (scene_row x s)) [
    | inl missing ↦ rw (missing, update_scene) (Same-refl h s)
    | inr (current, found) ↦
        rw (found, update_scene)
          (with_ok-P (Same h s) (validate_scene (set_scene values current) (home s)) s _
            (Same-refl h s)
            (λ _ passed.
              scenes-Same (update (has_id (λ r. r.id) x) (set_scene values) s.scenes) (λ y.
                only-update (λ r. r.id) (λ r. str_eq r.house_id h) y x (set_scene values) s.scenes
                  (λ r. refl)
                  (λ r there. (from r there, goes values.house_id r.house_id to (from r there))))))
  ]

  pub update_rule-apart :
      (x : String) (values : RuleUpdate)
      → ((r : Rule) → rule_row x s ≡ some r → str_eq r.house_id h ≡ false)
      → IsElsewhere h values.house_id
      → Same h s (update_rule x values s).1
  unfolding update_rule
  update_rule-apart x values from to = elim (Option-cases (rule_row x s)) [
    | inl missing ↦ rw (missing, update_rule) (Same-refl h s)
    | inr (current, found) ↦
        rw (found, update_rule)
          (with_ok-P (Same h s) (validate (set_rule values current) (home s)) s _ (Same-refl h s)
            (λ _ passed. rules-Same (update (has_id (λ r. r.id) x) (set_rule values) s.rules) (λ y.
              only-update (λ r. r.id) (λ r. str_eq r.house_id h) y x (set_rule values) s.rules
                (λ r. refl)
                (λ r there. (from r there, goes values.house_id r.house_id to (from r there))))))
  ]

  pub set_enabled-apart :
      (x : String) (enabled : Bool)
      → ((r : Rule) → rule_row x s ≡ some r → str_eq r.house_id h ≡ false)
      → Same h s (set_enabled x enabled s).1
  unfolding set_enabled
  set_enabled-apart x enabled from = elim (Option-cases (rule_row x s)) [
    | inl missing ↦ rw (missing, set_enabled) (Same-refl h s)
    | inr (current, found) ↦
        rw (found, set_enabled)
          (rules-Same (update (has_id (λ r. r.id) x) (λ r. record r { enabled = enabled }) s.rules)
            (λ y.
              only-update (λ r. r.id) (λ r. str_eq r.house_id h) y x
                (λ r. record r { enabled = enabled }) s.rules (λ r. refl)
                (λ r there. (from r there, from r there))))
  ]

  module _ (stored : IsStored s) where
    pub delete_scene-apart :
        (x : String)
        → ((r : Scene) → scene_row x s ≡ some r → str_eq r.house_id h ≡ false)
        → Same h s (delete_scene x s).1
    unfolding delete_scene
    delete_scene-apart x from = elim (Option-cases (scene_row x s)) [
      | inl missing ↦ rw (missing, delete_scene) (Same-refl h s)
      | inr (current, found) ↦
          rw (found, delete_scene)
            (scenes-Same (keep (λ r. not (str_eq r.id x)) s.scenes) (λ y.
              only-keep (λ r. r.id) (λ r. str_eq r.house_id h) y (λ r. not (str_eq r.id x)) s.scenes
                stored.3
                (λ r there mine.
                  is_another (λ r. r.id) (λ r. str_eq r.house_id h) x y s.scenes r from there
                    mine)))
    ]

    pub delete_rule-apart :
        (x : String)
        → ((r : Rule) → rule_row x s ≡ some r → str_eq r.house_id h ≡ false)
        → Same h s (delete_rule x s).1
    unfolding delete_rule
    delete_rule-apart x from = elim (Option-cases (rule_row x s)) [
      | inl missing ↦ rw (missing, delete_rule) (Same-refl h s)
      | inr (current, found) ↦
          rw (found, delete_rule)
            (rules-Same (keep (λ r. not (str_eq r.id x)) s.rules) (λ y.
              only-keep (λ r. r.id) (λ r. str_eq r.house_id h) y (λ r. not (str_eq r.id x)) s.rules
                stored.4
                (λ r there mine.
                  is_another (λ r. r.id) (λ r. str_eq r.house_id h) x y s.rules r from there mine)))
    ]

    pub in_members-apart :
        {A : Type 0} (at user : String) (m : Exec Members A)
        → str_eq at h ≡ false
        → Touches at user (members s) (m (members s)).1.memberships
        → Same h s (in_members m s).1
    in_members-apart at user m out touched =
        members-Same (m (members s)).1.memberships
          (Touches-others h at user (members s) (m (members s)).1.memberships out stored.5 touched)
