-- ===== src/Structure/Events.antt =====
-- Who is shown what of the event log (`list_events` of app/api/routes.py,
-- app/repositories/event_log_repository.py).
use kz_home_core.Common.{
  ℕ, suc, zero, String, Bool, true, false, ◌&&◌, Option, none, some, List, [], ◌∷◌, ◌≡◌, refl, sym,
  subst, str_eq, eq_iff, leb, any_mono, All, contains, if◌then◌else◌, inl, inr, Bool-cases, arith,
  ok,
}
use kz_home_core.Access.Roles.{
  Role, owner, installer, technician, resident, Permission, event_read, security_audit_read,
  is_granted,
}
use kz_home_core.Access.Members.{is_of}
use kz_home_core.Structure.Tables.{Site}
use kz_home_core.Structure.Reads.{
  allowed, is_any_of, LoggedEvent, security_types, insert_event, newest_first, limited, is_visible,
  events_for_houses, asks_security, event_permission, list_events,
}
use kz_home_core.Structure.Readers.{
  is_permitted, is_readable, require-ok, any_of-is_readable, All-keep-test, listed, listed-All,
}

-- The permission that a kind of event asks for.
abbrev pub needed : String → Permission
needed t = if contains t security_types then security_audit_read else event_read

audit-event_read :
    (r : Role) → is_granted r security_audit_read ≡ true → is_granted r event_read ≡ true
unfolding is_granted
audit-event_read owner e = refl
audit-event_read installer e = refl
audit-event_read technician e = refl
audit-event_read resident e = absurd (ground arith)

audit-is_readable :
    (u : String) (s : Site) (o : Option String)
    → is_readable u security_audit_read s o ≡ true
    → is_readable u event_read s o ≡ true
audit-is_readable u s none e = e
audit-is_readable u s (some h) e =
    any_mono (λ m. is_of u h m && is_granted m.role event_read)
      (λ m. is_of u h m && is_granted m.role security_audit_read) s.memberships
      (λ m mine. ground (arith, audit-event_read m.role)) e

-- A kind of security event that is asked for by name is recognised by its prefix.
security-asks : (t : String) → contains t security_types ≡ true → asks_security (some t) ≡ true
security-asks t e = elim (Bool-cases (str_eq t "auth_login_succeeded")) [
  | inl a ↦ at "auth_login_succeeded" a refl
  | inr na ↦ elim (Bool-cases (str_eq t "auth_login_failed")) [
    | inl b ↦ at "auth_login_failed" b refl
    | inr nb ↦ elim (Bool-cases (str_eq t "auth_refresh_succeeded")) [
      | inl c ↦ at "auth_refresh_succeeded" c refl
      | inr nc ↦ elim (Bool-cases (str_eq t "auth_refresh_failed")) [
        | inl d ↦ at "auth_refresh_failed" d refl
        | inr nd ↦ elim (Bool-cases (str_eq t "auth_logout")) [
          | inl f ↦ at "auth_logout" f refl
          | inr nf ↦ at "authorization_denied" (ground arith) refl
        ]
      ]
    ]
  ]
]
  where
    at :
        (w : String)
        → str_eq t w ≡ true
        → asks_security (some w) ≡ true
        → asks_security (some t) ≡ true
    at w same asks = subst (λ y. asks_security (some y) ≡ true) (sym ((eq_iff t w).0 same)) asks

module _ (Q : LoggedEvent → Type 0) where
  All-insert_event :
      (e : LoggedEvent) (es : List LoggedEvent) → Q e → All Q es → All Q (insert_event e es)
  All-insert_event e [] q a = (q, tt)
  All-insert_event e (f ∷ fs) q (b, a) = elim (Bool-cases (leb f.created_at e.created_at)) [
    | inl older ↦ rw older (q, (b, a))
    | inr newer ↦ rw newer (b, All-insert_event e fs q a)
  ]

  All-newest_first : (es : List LoggedEvent) → All Q es → All Q (newest_first es)
  All-newest_first [] a = tt
  All-newest_first (e ∷ es) (q, a) = All-insert_event e (newest_first es) q (All-newest_first es a)

  All-limited : (n : ℕ) (es : List LoggedEvent) → All Q es → All Q (limited n es)
  All-limited zero es a = tt
  All-limited (suc n) [] a = tt
  All-limited (suc n) (e ∷ es) (q, a) = (q, All-limited n es a)

module _ (u : String) (s : Site) where
  abbrev IsShown : LoggedEvent → Type 0
  IsShown e = is_readable u (needed e.event_type) s e.house_id ≡ true

  visible-IsShown :
      (ids : List String) (type : Option String) (e : LoggedEvent)
      → ((o : Option String)
          → is_any_of ids o ≡ true
          → is_readable u (event_permission type) s o ≡ true)
      → is_visible ids (allowed u security_audit_read s) type e ≡ true
      → IsShown e
  visible-IsShown ids none e own seen = elim (Bool-cases (contains e.event_type security_types)) [
    | inl security ↦
        rw security (any_of-is_readable u security_audit_read s e.house_id (ground arith))
    | inr other ↦ rw other (own e.house_id (ground arith))
  ]
  visible-IsShown ids (some t) e own seen =
      subst (λ y. is_readable u (needed y) s e.house_id ≡ true)
        (sym ((eq_iff e.event_type t).0 (ground arith)))
        (elim (Bool-cases (contains t security_types)) [
          | inl security ↦
              rw security (rw (security-asks t security) at (own e.house_id (ground arith)))
          | inr other ↦ rw other (by_prefix (asks_security (some t)) refl)
        ])
    where
      by_prefix :
          (b : Bool) → asks_security (some t) ≡ b → is_readable u event_read s e.house_id ≡ true
      by_prefix true asks =
          audit-is_readable u s e.house_id (rw asks at (own e.house_id (ground arith)))
      by_prefix false asks = rw asks at (own e.house_id (ground arith))

  shown :
      (ids : List String) (type : Option String) (limit : ℕ) (rows : List LoggedEvent)
      → ((o : Option String)
          → is_any_of ids o ≡ true
          → is_readable u (event_permission type) s o ≡ true)
      → All IsShown (events_for_houses ids type limit (allowed u security_audit_read s) rows)
  shown ids type limit rows own = All-limited IsShown limit _ (
      All-newest_first IsShown _
        (All-keep-test _ IsShown rows (λ e seen. visible-IsShown ids type e own seen)))

-- Every event that is shown belongs to a house in which a membership of the user gives the permission to read
-- events, and the audit permission where it is a security event: whichever house, kind and number of events
-- the user asks for, a kind with a security prefix or not.
pub list_events-IsShown :
    (u : String) (house type : Option String) (limit : ℕ) (rows : List LoggedEvent) (s : Site)
    → All
        (λ e. is_readable u (needed e.event_type) s e.house_id ≡ true)
        (listed (list_events u house type limit rows s))
list_events-IsShown u none type limit rows s =
    shown u s (allowed u (event_permission type) s) type limit rows
      (any_of-is_readable u (event_permission type) s)
list_events-IsShown u (some h) type limit rows s =
    listed-All (IsShown u s) (list_events u (some h) type limit rows s) (λ es e.
      let (permitted, same) =
        require-ok u (event_permission type) s h
          (ok (events_for_houses (h ∷ []) type limit (allowed u security_audit_read s) rows), s) es
          e in
      subst (All (IsShown u s)) (ground arith)
        (shown u s (h ∷ []) type limit rows (λ o within. only_that o within permitted)))
  where
    only_that :
        (o : Option String)
        → is_any_of (h ∷ []) o ≡ true
        → is_permitted u (event_permission type) h s ≡ true
        → is_readable u (event_permission type) s o ≡ true
    only_that none e k = absurd (ground arith)
    only_that (some g) e k =
        subst (λ w. is_permitted u (event_permission type) w s ≡ true)
          (sym ((eq_iff g h).0 (ground arith))) k
