-- ===== src/Common/Lists.antt =====
-- Lists: length over the native numbers, tables keyed by text, and the database's row updates.
use Prim.Native.Nat.{ℕ, suc, ◌≤◌}
use Prim.Native.String.{String}
use Prim.Native.Char.{code}
use mathlib.Core.Path.{◌≡◌, refl, subst}
use mathlib.Core.Logic.{inl, inr}
use mathlib.Core.Bool.{Bool, true, false, ◌||◌, ◌&&◌}
use mathlib.Core.Option.{Option, none, some}
use mathlib.Core.List.{List, [], ◌∷◌}
use native.Mathlib.Omega.{arith}
use text.Mathlib.Text.{◌==◌ as str_eq}
use text.Mathlib.TextEquality.{eq_iff}
use kz_home_core.Common.Tests.{if◌then◌else◌, Bool-cases}

abbrev pub codes : String → List ℕ
codes String.[] = []
codes (String.◌∷◌ c s) = code c ∷ codes s

abbrev pub length {ℓ} : {A : Type ℓ} → List A → ℕ
length [] = 0
length (x ∷ xs) = suc (length xs)

module _ {A : Type 0} where
  -- `[x for x in xs if test(x)]`
  abbrev pub keep : (A → Bool) → List A → List A
  keep p [] = []
  keep p (x ∷ xs) = let rest = keep p xs in if p x then x ∷ rest else rest

  -- The first row that a query selects.
  abbrev pub find : (A → Bool) → List A → Option A
  find p [] = none
  find p (x ∷ xs) = let rest = find p xs in if p x then some x else rest

  abbrev pub any : (A → Bool) → List A → Bool
  any p [] = false
  any p (x ∷ xs) = p x || any p xs

  abbrev pub all : (A → Bool) → List A → Bool
  all p [] = true
  all p (x ∷ xs) = p x && all p xs

  -- An UPDATE of the rows that a test selects.
  abbrev pub update : (A → Bool) → (A → A) → List A → List A
  update p f [] = []
  update p f (x ∷ xs) = (if p x then f x else x) ∷ update p f xs

  -- Every row satisfies a predicate.
  abbrev pub All : (A → Type 0) → List A → Type 0
  All P [] = Unit
  All P (x ∷ xs) = P x × All P xs

  pub length-keep : (p : A → Bool) (xs : List A) → length (keep p xs) ≤ length xs
  length-keep p [] = omega arith
  length-keep p (x ∷ xs) = ground (arith, length-keep p xs)

  -- What a filter lets through where a second test holds, the second test still finds.
  pub any-keep :
      (p q : A → Bool) (xs : List A)
      → ((x : A) → q x ≡ true → p x ≡ true)
      → any q xs ≡ true
      → any q (keep p xs) ≡ true
  any-keep p q [] sub h = h
  any-keep p q (x ∷ xs) sub h = elim (Bool-cases (q x)) [
    | inl hit ↦ ground (arith, sub x hit)
    | inr miss ↦ ground (arith, any-keep p q xs sub (ground arith))
  ]

  -- A weaker test is found where a stronger one is.
  pub any_mono :
      (p q : A → Bool) (xs : List A)
      → ((x : A) → q x ≡ true → p x ≡ true)
      → any q xs ≡ true
      → any p xs ≡ true
  any_mono p q [] sub h = h
  any_mono p q (x ∷ xs) sub h = elim (Bool-cases (q x)) [
    | inl hit ↦ ground (arith, sub x hit)
    | inr miss ↦ ground (arith, any_mono p q xs sub (ground arith))
  ]

  pub find-test : (p : A → Bool) (xs : List A) (x : A) → find p xs ≡ some x → p x ≡ true
  find-test p [] x h = ground arith
  find-test p (y ∷ ys) x h = ground (arith, find-test p ys x)

  -- What holds of every row holds of the row that a query finds.
  pub All-find :
      (P : A → Type 0) (p : A → Bool) (xs : List A) (x : A) → All P xs → find p xs ≡ some x → P x
  All-find P p [] x a h = absurd (ground arith)
  All-find P p (y ∷ ys) x a h = elim (Bool-cases (p y)) [
    | inl hit ↦ subst P (ground arith) a.0
    | inr miss ↦ All-find P p ys x a.1 (ground arith)
  ]

  -- An update keeps a predicate that its row function keeps on the rows selected.
  pub All-update :
      (P : A → Type 0) (p : A → Bool) (f : A → A) (xs : List A)
      → ((x : A) → p x ≡ true → P x → P (f x))
      → All P xs
      → All P (update p f xs)
  All-update P p f [] keeps a = tt
  All-update P p f (x ∷ xs) keeps a = elim (Bool-cases (p x)) [
    | inl hit ↦ rw hit (keeps x hit a.0, All-update P p f xs keeps a.1)
    | inr miss ↦ rw miss (a.0, All-update P p f xs keeps a.1)
  ]

  -- An UPDATE that keeps a query's test keeps what the query finds, up to the update.
  pub find-update :
      (p q : A → Bool) (f : A → A) (xs : List A) (x : A)
      → ((y : A) → p (f y) ≡ p y)
      → find p xs ≡ some x
      → find p (update q f xs) ≡ some (if q x then f x else x)
  find-update p q f [] x same h = absurd (ground arith)
  find-update p q f (y ∷ ys) x same h = ground (arith, same y, find-update p q f ys x same)

  -- Overwriting the rows of a second test by a row that passes the query makes that row the one found.
  pub find-overwrite :
      (p q : A → Bool) (xs : List A) (x y : A)
      → p y ≡ true
      → q x ≡ true
      → find p xs ≡ some x
      → find p (update q (λ _. y) xs) ≡ some y
  find-overwrite p q [] x y py qx h = absurd (ground arith)
  find-overwrite p q (z ∷ zs) x y py qx h = ground (arith, find-overwrite p q zs x y py qx)

-- `x in xs` for texts.
abbrev pub contains : String → List String → Bool
contains x [] = false
contains x (y ∷ ys) = str_eq x y || contains x ys

module _ {V : Type 0} where
  abbrev pub lookup : String → List (String × V) → Option V
  lookup k [] = none
  lookup k ((j, v) ∷ d) = let rest = lookup k d in if str_eq j k then some v else rest

  -- `d[k] = v`
  abbrev pub insert : String → V → List (String × V) → List (String × V)
  insert k v [] = (k, v) ∷ []
  insert k v ((j, w) ∷ d) =
      let rest = insert k v d in if str_eq j k then (k, v) ∷ d else (j, w) ∷ rest

  -- `d.pop(k, None)`
  abbrev pub erase : String → List (String × V) → List (String × V)
  erase k [] = []
  erase k ((j, w) ∷ d) = let rest = erase k d in if str_eq j k then d else (j, w) ∷ rest

  pub lookup-insert :
      (k j : String) (v : V) (d : List (String × V))
      → lookup j (insert k v d) ≡ (if str_eq k j then some v else lookup j d)
  lookup-insert k j v [] = refl
  lookup-insert k j v ((i, w) ∷ d) =
      ground (arith, eq_iff k j, eq_iff i k, eq_iff i j, lookup-insert k j v d)

  pub length-insert :
      (k : String) (v : V) (d : List (String × V)) → length (insert k v d) ≤ suc (length d)
  length-insert k v [] = omega arith
  length-insert k v ((i, w) ∷ d) = ground (arith, length-insert k v d)
