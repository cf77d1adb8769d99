-- ===== src/Base/Maps.antt =====
-- Go maps with string keys, as association lists whose first binding of a key counts.
use Prim.Native.String.{String}
use mathlib.Core.Path.{◌≡◌, refl}
use mathlib.Core.Bool.{Bool, true, false, ◌||◌}
use mathlib.Core.Logic.{inl, inr}
use mathlib.Core.Option.{Option, none, some}
use mathlib.Core.List.{List, [], ◌∷◌}
use native.Mathlib.Omega.{arith}
use text.Mathlib.TextEquality.{eq_iff}
use costguard.Base.Tests.{str_eq, if◌then◌else◌, Bool-cases}

abbrev pub Dict {ℓ} : Type ℓ → Type ℓ
Dict V = List (String × V)

module _ {ℓ} {V : Type ℓ} where
  -- `v, ok := m[k]`
  abbrev pub lookup : String → Dict V → Option V
  lookup k [] = none
  lookup k ((j, v) ∷ m) = if str_eq j k then some v else lookup k m

  -- `m[k]`, with the zero value `z` for a missing key.
  abbrev pub lookup_or : String → V → Dict V → V
  lookup_or k z m = elim (lookup k m) [ none ↦ z | some v ↦ v ]

  -- `m[k] = v`
  abbrev pub insert : String → V → Dict V → Dict V
  insert k v [] = (k, v) ∷ []
  insert k v ((j, w) ∷ m) = if str_eq j k then (j, v) ∷ m else (j, w) ∷ insert k v m

  -- `delete(m, k)`
  abbrev pub delete : String → Dict V → Dict V
  delete k [] = []
  delete k ((j, w) ∷ m) = if str_eq j k then delete k m else (j, w) ∷ delete k m

module _ {ℓ} {V : Type ℓ} where
  pub lookup-insert :
      (k j : String) (v : V) (m : Dict V)
      → lookup j (insert k v m) ≡ (if str_eq k j then some v else lookup j m)
  lookup-insert k j v [] = refl
  lookup-insert k j v ((i, w) ∷ m) =
      ground (arith, eq_iff k j, eq_iff i k, eq_iff i j, lookup-insert k j v m)

  pub lookup-delete :
      (k j : String) (m : Dict V)
      → lookup j (delete k m) ≡ (if str_eq k j then none else lookup j m)
  lookup-delete k j [] = ground arith
  lookup-delete k j ((i, w) ∷ m) =
      ground (arith, eq_iff k j, eq_iff i k, eq_iff i j, lookup-delete k j m)

module _ {ℓ} {V : Type ℓ} where
  -- Whether a key is bound.
  abbrev pub has : String → Dict V → Bool
  has k [] = false
  has k ((j, v) ∷ m) = str_eq j k || has k m

  -- The bindings that pass a test of their value.
  abbrev pub keep_values : (V → Bool) → Dict V → Dict V
  keep_values p [] = []
  keep_values p ((k, v) ∷ m) = if p v then (k, v) ∷ keep_values p m else keep_values p m

-- A map binds each key once.
abbrev pub IsMap {ℓ} : {V : Type ℓ} → Dict V → Type 0
IsMap [] = Unit
IsMap ((k, v) ∷ m) = (has k m ≡ false) × IsMap m

module _ {ℓ} {V : Type ℓ} where
  pub lookup_missing : (k : String) (m : Dict V) → has k m ≡ false → lookup k m ≡ none
  lookup_missing k [] h = refl
  lookup_missing k ((j, v) ∷ m) h = ground (arith, lookup_missing k m)

  pub has-insert :
      (j k : String) (v : V) (m : Dict V) → has j (insert k v m) ≡ (str_eq k j || has j m)
  has-insert j k v [] = ground arith
  has-insert j k v ((i, w) ∷ m) =
      ground (arith, eq_iff i k, eq_iff i j, eq_iff k j, has-insert j k v m)

  pub insert-IsMap : (k : String) (v : V) (m : Dict V) → IsMap m → IsMap (insert k v m)
  insert-IsMap k v [] h = (refl, tt)
  insert-IsMap k v ((j, w) ∷ m) h =
      ground (arith, eq_iff j k, eq_iff k j, has-insert j k v m, insert-IsMap k v m)

  pub has-keep_values :
      (p : V → Bool) (j : String) (m : Dict V) → has j m ≡ false → has j (keep_values p m) ≡ false
  has-keep_values p j [] h = refl
  has-keep_values p j ((k, v) ∷ m) h = ground (arith, has-keep_values p j m)

  pub keep_values-IsMap : (p : V → Bool) (m : Dict V) → IsMap m → IsMap (keep_values p m)
  keep_values-IsMap p [] h = tt
  keep_values-IsMap p ((k, v) ∷ m) h = ground (arith, has-keep_values p k m, keep_values-IsMap p m)

  -- What passes the test stays.
  pub lookup-keep_values :
      (p : V → Bool) (j : String) (m : Dict V) (v : V)
      → lookup j m ≡ some v
      → p v ≡ true
      → lookup j (keep_values p m) ≡ some v
  lookup-keep_values p j [] v h e = ground arith
  lookup-keep_values p j ((k, w) ∷ m) v h e = elim (Bool-cases (str_eq k j)) [
    | inl same ↦ ground arith
    | inr other ↦ ground (arith, lookup-keep_values p j m v)
  ]

  -- What is found after a selection was there before.
  pub lookup-of-keep_values :
      (p : V → Bool) (j : String) (m : Dict V) (v : V)
      → IsMap m
      → lookup j (keep_values p m) ≡ some v
      → (lookup j m ≡ some v) × (p v ≡ true)
  lookup-of-keep_values p j [] v d h = ground arith
  lookup-of-keep_values p j ((k, w) ∷ m) v d h = ground (
    arith,
    eq_iff k j,
    has-keep_values p j m,
    lookup_missing j (keep_values p m),
    lookup-of-keep_values p j m v,
  )
