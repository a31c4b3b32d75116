-- ===== src/Structure/Keys.antt =====
-- Tables with a primary key, as a session reads and writes them (app/repositories/base.py).
use kz_home_core.Common.{
  String, Bool, true, false, ◌&&◌, Option, none, some, List, [], ◌∷◌, ◌≡◌, refl, ◌∙◌, subst, str_eq,
  eq_iff, keep, any, update, if◌then◌else◌, inl, inr, Bool-cases, arith,
}
use kz_home_core.Structure.Tables.{by_id}
use kz_home_core.Structure.Crud.{has_id}

-- A row that passes a test.
abbrev pub only : {A : Type 0} → (A → Bool) → Option A → Option A
only p none = none
only p (some r) = if p r then some r else none

abbrev pub mapped : {A : Type 0} → (A → A) → Option A → Option A
mapped f none = none
mapped f (some r) = some (f r)

pub only-cong :
    {A : Type 0} (p q : A → Bool) (o : Option A) → ((r : A) → p r ≡ q r) → only p o ≡ only q o
only-cong p q none h = refl
only-cong p q (some r) h = rw (h r) refl

pub only-only :
    {A : Type 0} (p q : A → Bool) (o : Option A)
    → ((r : A) → o ≡ some r → p r ≡ true → q r ≡ true)
    → only p (only q o) ≡ only p o
only-only p q none h = refl
only-only p q (some r) h = elim (Bool-cases (q r)) [
  | inl kept ↦ rw kept refl
  | inr gone ↦ elim (Bool-cases (p r)) [
    | inl mine ↦ absurd (ground (arith, h r refl mine))
    | inr other ↦ rw (gone, other) refl
  ]
]

module _ {A : Type 0} (key : A → String) where
  abbrev pub IsKeyed : List A → Type 0
  IsKeyed [] = Unit
  IsKeyed (r ∷ rs) = (any (has_id key (key r)) rs ≡ false) × IsKeyed rs

  pub by_id-key : (x : String) (rows : List A) (r : A) → by_id key x rows ≡ some r → key r ≡ x
  by_id-key x [] r h = absurd (ground arith)
  by_id-key x (y ∷ ys) r h = elim (Bool-cases (str_eq (key y) x)) [
    | inl hit ↦ subst (λ z. key z ≡ x) {x = y} (ground arith) ((eq_iff (key y) x).0 hit)
    | inr miss ↦ by_id-key x ys r (ground arith)
  ]

  pub by_id_absent :
      (x : String) (rows : List A) → any (has_id key x) rows ≡ false → by_id key x rows ≡ none
  by_id_absent x [] h = refl
  by_id_absent x (r ∷ rs) h = ground (arith, by_id_absent x rs)

  -- A new row is found by its key, and the others as before.
  pub by_id_other :
      (x : String) (row : A) (rows : List A)
      → str_eq (key row) x ≡ false
      → by_id key x (row ∷ rows) ≡ by_id key x rows
  by_id_other x row rows h = rw h refl

  pub by_id-keep :
      (x : String) (p : A → Bool) (rows : List A)
      → IsKeyed rows
      → by_id key x (keep p rows) ≡ only p (by_id key x rows)
  by_id-keep x p [] k = refl
  by_id-keep x p (r ∷ rs) (new, k) = elim (Bool-cases (str_eq (key r) x)) [
    | inr miss ↦ ground (arith, by_id-keep x p rs k)
    | inl hit ↦
        (let gone : by_id key x rs ≡ none =
            by_id_absent x rs
              (subst (λ y. any (has_id key y) rs ≡ false) ((eq_iff (key r) x).0 hit) new) in
          ground (arith, by_id-keep x p rs k))
  ]

  pub by_id-update :
      (x k : String) (f : A → A) (rows : List A)
      → ((r : A) → key (f r) ≡ key r)
      → by_id key x (update (has_id key k) f rows)
        ≡ (if str_eq k x then mapped f (by_id key x rows) else by_id key x rows)
  by_id-update x k f [] same = ground arith
  by_id-update x k f (r ∷ rs) same =
      ground
        (arith, same r, eq_iff (key r) x, eq_iff (key r) k, eq_iff k x, by_id-update x k f rs same)

  -- A row with the key that passes a test is the one that is found.
  pub any-found :
      (q : A → Bool) (x : String) (rows : List A)
      → IsKeyed rows
      → any (λ r. q r && str_eq (key r) x) rows ≡ true
      → (r : A) × (by_id key x rows ≡ some r) × (q r ≡ true)
  any-found q x [] k h = absurd (ground arith)
  any-found q x (r ∷ rs) (new, k) h = elim (Bool-cases (str_eq (key r) x)) [
    | inr miss ↦
        (let (y, found, passes) = any-found q x rs k (ground arith) in (y, ground arith, passes))
    | inl hit ↦
        (let none_left : any (has_id key x) rs ≡ false =
            subst (λ y. any (has_id key y) rs ≡ false) ((eq_iff (key r) x).0 hit) new in
          (r, rw hit refl, ground (arith, none_with rs none_left)))
  ]
    where
      none_with :
          (rs : List A)
          → any (has_id key x) rs ≡ false
          → any (λ r. q r && str_eq (key r) x) rs ≡ false
      none_with [] h = refl
      none_with (y ∷ ys) h = ground (arith, none_with ys)

  pub any-keep-false :
      (p q : A → Bool) (rows : List A) → any q rows ≡ false → any q (keep p rows) ≡ false
  any-keep-false p q [] h = refl
  any-keep-false p q (r ∷ rs) h = ground (arith, any-keep-false p q rs)

  pub IsKeyed-keep : (p : A → Bool) (rows : List A) → IsKeyed rows → IsKeyed (keep p rows)
  IsKeyed-keep p [] k = tt
  IsKeyed-keep p (r ∷ rs) (new, k) = elim (Bool-cases (p r)) [
    | inl kept ↦ rw kept (any-keep-false p (has_id key (key r)) rs new, IsKeyed-keep p rs k)
    | inr gone ↦ rw gone (IsKeyed-keep p rs k)
  ]

  any-update :
      (x k : String) (f : A → A) (rows : List A)
      → ((r : A) → key (f r) ≡ key r)
      → any (has_id key x) (update (has_id key k) f rows) ≡ any (has_id key x) rows
  any-update x k f [] same = refl
  any-update x k f (r ∷ rs) same = ground (arith, same r, any-update x k f rs same)

  pub IsKeyed-update :
      (k : String) (f : A → A) (rows : List A)
      → ((r : A) → key (f r) ≡ key r)
      → IsKeyed rows
      → IsKeyed (update (has_id key k) f rows)
  IsKeyed-update k f [] same a = tt
  IsKeyed-update k f (r ∷ rs) same (new, a) = elim (Bool-cases (has_id key k r)) [
    | inl hit ↦
        rw (hit, same r) (any-update (key r) k f rs same ∙ new, IsKeyed-update k f rs same a)
    | inr miss ↦ rw miss (any-update (key r) k f rs same ∙ new, IsKeyed-update k f rs same a)
  ]
