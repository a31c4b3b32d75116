-- ===== src/Authority/Staged.antt =====
-- What stays true of the ledger once a command has been staged, and the steps that keep it so: every row of the
-- command is marked as started, and there is one (app/services/control_authority.py).
use kz_home_core.Common.{
  String, Bool, true, false, not, ◌||◌, some, List, [], ◌∷◌, ◌≡◌, refl, sym, ap, subst, ◌∙◌, inl,
  inr, str_eq, eq_iff, is_some, any, update, find, All, All-update, All-find, any_mono, Bool-cases,
  Result, ok, err, Exec, Error, raise_if, pure, continue, ◌>>=◌, arith,
}
use kz_home_core.Database.{Database, DeviceCommand, excludes, command_conflicts, set_command}
use kz_home_core.System.{System, commit}
use kz_home_core.Commands.Rows.{SameData, Keeps}
use kz_home_core.Commands.Defs.{store}

abbrev pub is_named : String → DeviceCommand → Bool
is_named id row = str_eq row.command_id id

-- A row of another command, or a started one.
abbrev pub is_other_or_started : String → DeviceCommand → Bool
is_other_or_started id row = not (is_named id row) || is_some row.dispatch_started_at

abbrev pub IsFair : String → DeviceCommand → Type 0
IsFair id row = is_other_or_started id row ≡ true

pub record IsStaged (id : String) (db : Database) : Type 0 where
  pub started : All (IsFair id) db.commands
  pub present : any (is_named id) db.commands ≡ true

-- Both for the session's data and for what is committed.
abbrev pub IsDurable : String → System → Type 0
IsDurable id s = IsStaged id s.db × IsStaged id s.saved

-- A call that keeps the command staged, and whose result, if it returns, is as `Q` says.
pub record Holds (id : String) {A : Type 0} (Q : A → Type 0) (m : Exec System A) : Type 0 where
  pub at : (s : System) → IsDurable id s → IsDurable id (m s).1 × ((a : A) → (m s).0 ≡ ok a → Q a)

abbrev pub Anything : {A : Type 0} → A → Type 0
Anything _ = Unit {0}

any-update :
    {A : Type 0} (p q : A → Bool) (f : A → A) (xs : List A)
    → ((x : A) → q x ≡ true → p (f x) ≡ p x)
    → any p (update q f xs) ≡ any p xs
any-update p q f [] same = refl
any-update p q f (x ∷ xs) same = elim (Bool-cases (q x)) [
  | inl hit ↦ rw hit (ground (arith, same x hit, any-update p q f xs same))
  | inr miss ↦ rw miss (ground (arith, any-update p q f xs same))
]

-- Writing to the rows of one command, which is then fair if it was.
set_command-any :
    (id : String) (row : DeviceCommand) (db : Database)
    → any (is_named id) (set_command row db).commands ≡ any (is_named id) db.commands
set_command-any id row db =
    any-update (is_named id) (λ r. str_eq r.command_id row.command_id) (λ _. row) db.commands
      (λ r hit. ap (λ i. str_eq i id) (sym ((eq_iff r.command_id row.command_id).0 hit)))

pub set_command-IsStaged :
    (id : String) (row : DeviceCommand) (db : Database)
    → IsFair id row
    → IsStaged id db
    → IsStaged id (set_command row db)
set_command-IsStaged id row db fair h = record {
  started =
      All-update (IsFair id) (λ r. str_eq r.command_id row.command_id) (λ _. row) db.commands
        (λ r hit old. fair) h.started;
  present = set_command-any id row db ∙ h.present;
}

overwritten :
    (id : String) (row : DeviceCommand) (rows : List DeviceCommand)
    → row.command_id ≡ id
    → IsFair id row
    → All (IsFair id) (update (λ r. str_eq r.command_id row.command_id) (λ _. row) rows)
overwritten id row [] e fair = tt
overwritten id row (r ∷ rows) e fair = elim (Bool-cases (str_eq r.command_id row.command_id)) [
  | inl hit ↦ rw hit (fair, overwritten id row rows e fair)
  | inr miss ↦ rw miss (
    ground (arith, subst (λ i. str_eq r.command_id i ≡ false) e miss),
    overwritten id row rows e fair,
  )
]

find-any :
    {A : Type 0} (p q : A → Bool) (xs : List A) (x : A)
    → ((y : A) → p y ≡ true → q y ≡ true)
    → find p xs ≡ some x
    → any q xs ≡ true
find-any p q [] x sub h = absurd (ground arith)
find-any p q (y ∷ ys) x sub h = elim (Bool-cases (p y)) [
  | inl hit ↦ ground (arith, sub y hit)
  | inr miss ↦ ground (arith, find-any p q ys x sub (rw miss at h))
]

-- Writing a started row of the command makes it staged, whatever the rows were.
pub started-IsStaged :
    (id : String) (row old : DeviceCommand) (p : DeviceCommand → Bool) (db : Database)
    → row.command_id ≡ id
    → IsFair id row
    → ((r : DeviceCommand) → p r ≡ true → is_named id r ≡ true)
    → find p db.commands ≡ some old
    → IsStaged id (set_command row db)
started-IsStaged id row old p db e fair sub found = record {
  started = overwritten id row db.commands e fair;
  present = set_command-any id row db ∙ find-any p (is_named id) db.commands old sub found;
}

excludes-named : (row r : DeviceCommand) → is_named row.command_id r ≡ true → excludes row r ≡ true
unfolding excludes
excludes-named row r h = ground arith

-- A new row that breaks no constraint is one of another command.
pub inserted-IsFair :
    (id : String) (row : DeviceCommand) (db : Database)
    → IsStaged id db
    → command_conflicts row db ≡ false
    → IsFair id row
unfolding command_conflicts
inserted-IsFair id row db h free = elim (Bool-cases (is_named id row)) [
  | inl same ↦ absurd (
      let clash : any (excludes row) db.commands ≡ true =
        any_mono (excludes row) (is_named row.command_id) db.commands (excludes-named row) (
          subst (λ i. any (is_named i) db.commands ≡ true) (sym ((eq_iff row.command_id id).0 same))
            h.present) in
      ground arith)
  | inr other ↦ ground arith
]

module _ (id : String) where
  pub Holds-bind :
      {A B : Type 0} {Q : A → Type 0} {R : B → Type 0} (m : Exec System A) (f : A → Exec System B)
      → Holds id Q m
      → ((a : A) → Q a → Holds id R (f a))
      → Holds id R (m >>= f)
  Holds-bind {A} {B} {Q} {R} m f h k = record {
    at = λ s p. go (m s).0 (m s).1 (h.at s p).0 (h.at s p).1;
  }
    where
      go :
          (r : Result A) (t : System)
          → IsDurable id t
          → ((a : A) → r ≡ ok a → Q a)
          → IsDurable id (continue r f t).1 × ((b : B) → (continue r f t).0 ≡ ok b → R b)
      go (ok a) t p q = (k a (q a refl)).at t p
      go (err e) t p q = (p, λ b e'. absurd (ground arith))

  pub Holds-pure : {A : Type 0} (Q : A → Type 0) (a : A) → Q a → Holds id Q (pure a)
  Holds-pure Q a q = record { at = λ s p. (p, λ b e. subst Q (ground arith) q) }

  -- A call that leaves the data alone.
  pub Holds-same :
      {A : Type 0} (m : Exec System A) → ((s : System) → SameData s (m s).1) → Holds id Anything m
  Holds-same m same = record {
    at = λ s p. (
      (subst (IsStaged id) (sym (same s).0) p.0, subst (IsStaged id) (sym (same s).1) p.1),
      λ a e. tt,
    );
  }

  pub Holds-Keeps : {A : Type 0} (m : Exec System A) → Keeps m → Holds id Anything m
  Holds-Keeps m k = Holds-same m k.at

  pub Holds-raise_if : (b : Bool) (e : Error) → Holds id Anything (raise_if b e)
  Holds-raise_if true e = record { at = λ s p. (p, λ a h. tt) }
  Holds-raise_if false e = record { at = λ s p. (p, λ a h. tt) }

  pub Holds-store : (row : DeviceCommand) → IsFair id row → Holds id Anything (store row)
  Holds-store row fair = record {
    at = λ s p. ((set_command-IsStaged id row s.db fair p.0, p.1), λ a e. tt);
  }

  pub Holds-commit : Holds id Anything commit
  Holds-commit = record { at = λ s p. ((p.0, p.0), λ a e. tt) }

  -- The rest of a call on the row that a query finds.
  pub found-IsFair :
      (p : DeviceCommand → Bool) (s : System) (row : DeviceCommand)
      → IsDurable id s
      → find p s.db.commands ≡ some row
      → IsFair id row
  found-IsFair p s row h e = All-find (IsFair id) p s.db.commands row h.0.started e
