-- ===== src/Prelude/Assoc.antt =====
-- Go's maps with text keys, as the list of their entries in the order in which `range` visits them.
use Prim.Native.Nat.{ℕ, suc, ◌≤◌, ◌<◌}
use mathlib.Core.Path.{◌≡◌, refl, ap}
use mathlib.Core.Bool.{Bool}
use mathlib.Core.Option.{Option, none, some}
use mathlib.Core.List.{List, [], ◌∷◌}
use native.Mathlib.Omega.{arith}
use driving_app.Prelude.Tests.{if◌then◌else◌}
use driving_app.Prelude.Text.{Text, text_eq, text_eq_iff, text_eq_refl}

abbrev pub length {ℓ} : {A : Type ℓ} → List A → ℕ
length [] = 0
length (x ∷ xs) = suc (length xs)

module _ {V : Type 0} where
  unfoldable pub lookup : Text → List (Text × V) → Option V
  lookup key [] = none
  lookup key ((k, v) ∷ l) = if text_eq k key then some v else lookup key l

  -- `delete(m, key)`
  unfoldable pub remove : Text → List (Text × V) → List (Text × V)
  remove key [] = []
  remove key ((k, v) ∷ l) = let rest = remove key l in if text_eq k key then rest else (k, v) ∷ rest

  -- `m[key] = v`
  unfoldable pub insert : Text → V → List (Text × V) → List (Text × V)
  unfolding remove
  insert key v l = (key, v) ∷ remove key l

  -- The entries that stay when those with a bad value are deleted one by one.
  unfoldable pub keep_if : (V → Bool) → List (Text × V) → List (Text × V)
  keep_if good [] = []
  keep_if good ((k, v) ∷ l) = let rest = keep_if good l in if good v then (k, v) ∷ rest else rest

  -- No key stands twice.
  abbrev pub Unique : List (Text × V) → Type 0
  Unique [] = Unit
  Unique ((k, v) ∷ l) = (lookup k l ≡ none) × Unique l

  abbrev pub filtered : (V → Bool) → Option V → Option V
  filtered good none = none
  filtered good (some v) = if good v then some v else none

  pub lookup-remove :
      (key other : Text) (l : List (Text × V))
      → lookup other (remove key l) ≡ (if text_eq key other then none else lookup other l)
  unfolding lookup remove
  lookup-remove key other [] = ground arith
  lookup-remove key other ((k, v) ∷ l) = ground (
    arith,
    text_eq_iff k key,
    text_eq_iff k other,
    text_eq_iff key other,
    lookup-remove key other l,
  )

  pub lookup-insert :
      (key : Text) (v : V) (other : Text) (l : List (Text × V))
      → lookup other (insert key v l) ≡ (if text_eq key other then some v else lookup other l)
  unfolding lookup insert
  lookup-insert key v other l = ground (arith, lookup-remove key other l)

  pub lookup-keep_if :
      (good : V → Bool) (key : Text) (l : List (Text × V))
      → Unique l
      → lookup key (keep_if good l) ≡ filtered good (lookup key l)
  unfolding lookup keep_if
  lookup-keep_if good key [] u = refl
  lookup-keep_if good key ((k, v) ∷ l) u =
      ground (arith, text_eq_iff k key, lookup-keep_if good key l u.1, ap (filtered good) u.0)

  pub Unique-remove : (key : Text) (l : List (Text × V)) → Unique l → Unique (remove key l)
  unfolding remove
  Unique-remove key [] u = tt
  Unique-remove key ((k, v) ∷ l) u = ground (arith, lookup-remove key k l, Unique-remove key l u.1)

  pub Unique-insert :
      (key : Text) (v : V) (l : List (Text × V)) → Unique l → Unique (insert key v l)
  unfolding insert
  Unique-insert key v l u =
      (ground (arith, lookup-remove key key l, text_eq_refl key), Unique-remove key l u)

  pub Unique-keep_if : (good : V → Bool) (l : List (Text × V)) → Unique l → Unique (keep_if good l)
  unfolding keep_if
  Unique-keep_if good [] u = tt
  Unique-keep_if good ((k, v) ∷ l) u =
      ground (arith, lookup-keep_if good k l u.1, Unique-keep_if good l u.1)

  pub length-remove-le : (key : Text) (l : List (Text × V)) → length (remove key l) ≤ length l
  unfolding remove
  length-remove-le key [] = omega arith
  length-remove-le key ((k, v) ∷ l) = ground (arith, length-remove-le key l)

  pub length-remove-lt :
      (key : Text) (v : V) (l : List (Text × V))
      → lookup key l ≡ some v
      → length (remove key l) < length l
  unfolding lookup remove
  length-remove-lt key v [] h = cc
  length-remove-lt key v ((k, w) ∷ l) h =
      ground (arith, length-remove-le key l, length-remove-lt key v l)

  pub length-keep_if-le :
      (good : V → Bool) (l : List (Text × V)) → length (keep_if good l) ≤ length l
  unfolding keep_if
  length-keep_if-le good [] = omega arith
  length-keep_if-le good ((k, v) ∷ l) = ground (arith, length-keep_if-le good l)
