-- ===== src/Common/Outcome.antt =====
-- Errors as values (app/core/errors.py and the built-in exceptions the core raises), and methods
-- that change an object and may raise: what was written before a raise stays written.
use mathlib.Core.Path.{◌≡◌, refl, subst}
use native.Mathlib.Omega.{arith}
use mathlib.Core.Logic.{◌⊎◌, inl, inr}
use mathlib.Core.Bool.{Bool, true, false}
use mathlib.Core.Option.{Option, none, some}

-- The classes of exception; their texts carry no decision and are left out.
pub data Error : Type 0 where
  conflict not_found unavailable invalid_reference value_error : Error
  provisioning_conflict provisioning_expired forbidden key_error attribute_error cancelled : Error

pub data Result {ℓ} (A : Type ℓ) : Type ℓ where
  ok : A → Result A
  err : Error → Result A

-- `if test: raise e`, then the value.
abbrev pub unless {ℓ} : {A : Type ℓ} → Bool → Error → Result A → Result A
unless true e r = err e
unless false e r = r

abbrev pub returns {ℓ} : {A : Type ℓ} → Result A → Bool
returns (ok _) = true
returns (err _) = false

abbrev pub Exec : Type 0 → Type 0 → Type 0
Exec S A = S → Result A × S

module _ {S A : Type 0} where
  abbrev pub pure : A → Exec S A
  pure a s = (ok a, s)

  abbrev pub raise : Error → Exec S A
  raise e s = (err e, s)

  abbrev pub gets : (S → A) → Exec S A
  gets f s = (ok (f s), s)

  -- A value that must be there.
  abbrev pub or_raise : Option A → Error → Exec S A
  or_raise none e s = (err e, s)
  or_raise (some a) e s = (ok a, s)

module _ {S A B : Type 0} where
  abbrev pub continue : Result A → (A → Exec S B) → Exec S B
  continue (ok a) f s = f a s
  continue (err e) f s = (err e, s)

  infixl 5 ◌>>=◌ ◌>>◌
  abbrev pub ◌>>=◌ : Exec S A → (A → Exec S B) → Exec S B
  ◌>>=◌ m f s = let (r, s') = m s in continue r f s'

  abbrev pub ◌>>◌ : Exec S A → Exec S B → Exec S B
  ◌>>◌ m k s = let (r, s') = m s in continue r (λ _. k) s'

module _ {S : Type 0} where
  abbrev pub raise_if : Bool → Error → Exec S (Unit {0})
  raise_if true e s = (err e, s)
  raise_if false e s = (ok tt, s)

  abbrev pub modify : (S → S) → Exec S (Unit {0})
  modify f s = (ok tt, f s)

module _ {S A B : Type 0} where
  continue-ok :
      (r : Result A) (f : A → Exec S B) (s : S) (b : B)
      → (continue r f s).0 ≡ ok b
      → (a : A) × (r ≡ ok a) × (continue r f s ≡ f a s)
  continue-ok (ok a) f s b h = (a, refl, refl)
  continue-ok (err e) f s b h = absurd (ground arith)

  -- A block that returns has returned from its first step, and is the rest run from there.
  pub bind-ok :
      (m : Exec S A) (f : A → Exec S B) (s : S) (b : B)
      → ((m >>= f) s).0 ≡ ok b
      → (a : A) × ((m s).0 ≡ ok a) × ((m >>= f) s ≡ f a (m s).1)
  bind-ok m f s b h = continue-ok (m s).0 f (m s).1 b h

module _ {S A B : Type 0} where
  continue-inv :
      (r : Result A) (f : A → Exec S B) (s : S) (b : B)
      → (continue r f s).0 ≡ ok b
      → (a : A) × (r ≡ ok a) × ((f a s).0 ≡ ok b)
  continue-inv (ok a) f s b h = (a, refl, h)
  continue-inv (err e) f s b h = absurd (ground arith)

  -- The same with the result of the rest.
  pub bind-inv :
      (m : Exec S A) (f : A → Exec S B) (s : S) (b : B)
      → ((m >>= f) s).0 ≡ ok b
      → (a : A) × ((m s).0 ≡ ok a) × ((f a (m s).1).0 ≡ ok b)
  bind-inv m f s b h = continue-inv (m s).0 f (m s).1 b h

-- The result along an equation of runs.
pub ok-transport : {S A : Type 0} {x y : Result A × S} {a : A} → x ≡ y → x.0 ≡ ok a → y.0 ≡ ok a
ok-transport {S} {A} {a = a} e h = subst (λ (z : Result A × S). z.0 ≡ ok a) e h

-- `m` takes every state to one that `R` relates to it, whether it returns or raises.
pub record Moves {S A : Type 0} (R : S → S → Type 0) (m : Exec S A) : Type 0 where
  pub at : (s : S) → R s (m s).1

module _ {S : Type 0} (R : S → S → Type 0) (R_refl : (s : S) → R s s)
    (R_trans : (s t u : S) → R s t → R t u → R s u) where
  pub Moves-pure : {A : Type 0} (a : A) → Moves R (pure a)
  Moves-pure a = record { at = R_refl }

  pub Moves-gets : {A : Type 0} (f : S → A) → Moves R (gets f)
  Moves-gets f = record { at = R_refl }

  pub Moves-raise_if : (b : Bool) (e : Error) → Moves R (raise_if b e)
  Moves-raise_if true e = record { at = R_refl }
  Moves-raise_if false e = record { at = R_refl }

  Moves-continue :
      {A B : Type 0} (r : Result A) (f : A → Exec S B) (s t : S)
      → R s t
      → ((a : A) → Moves R (f a))
      → R s (continue r f t).1
  Moves-continue (ok a) f s t h k = R_trans s t (f a t).1 h ((k a).at t)
  Moves-continue (err e) f s t h k = h

  pub Moves-bind :
      {A B : Type 0} (m : Exec S A) (f : A → Exec S B)
      → Moves R m
      → ((a : A) → Moves R (f a))
      → Moves R (m >>= f)
  Moves-bind m f h k = record { at = λ s. Moves-continue (m s).0 f s (m s).1 (h.at s) k }

-- A transaction on a session with nothing uncommitted: what was written stays if the block returns, and is
-- rolled back if it raises.
abbrev pub commit_or_roll_back : {S A : Type 0} → S → Result A × S → Result A × S
commit_or_roll_back s (ok a, t) = (ok a, t)
commit_or_roll_back s (err e, t) = (err e, s)

pub Result-cases {ℓ} :
    {A : Type ℓ} (r : Result A) → ((a : A) × (r ≡ ok a)) ⊎ ((e : Error) × (r ≡ err e))
Result-cases (ok a) = inl (a, refl)
Result-cases (err e) = inr (e, refl)
