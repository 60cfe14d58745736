-- ===== src/Prelude/Maps.antt =====
-- A Go map with string keys, as an association list: its order stands for an order of iteration.
use phpeek_pm.Prelude.Tests.{if◌then◌else◌, Bool-cases}
use phpeek_pm.Prelude.Text.{String, str_eq, eq_iff}
use mathlib.Core.Path.{◌≡◌, refl, subst, ◌∙◌}
use mathlib.Core.Logic.{inl, inr}
use mathlib.Core.Bool.{false}
use mathlib.Core.Option.{Option, none, some}
use mathlib.Core.List.{List, [], ◌∷◌}
use native.Mathlib.Omega.{arith}

module _ {ℓ} {Value : Type ℓ} where
  -- `value, ok := entries[key]`
  unfoldable pub lookup : String → List (String × Value) → Option Value
  lookup key [] = none
  lookup key ((name, value) ∷ entries) =
      let later = lookup key entries in if str_eq name key then some value else later

  -- `entries[key] = value`: the key keeps its place, and a new one comes last.
  unfoldable pub insert : String → Value → List (String × Value) → List (String × Value)
  insert key value [] = (key, value) ∷ []
  insert key value ((name, old) ∷ entries) =
      let later = insert key value entries in
      if str_eq name key then (key, value) ∷ entries else (name, old) ∷ later

  -- `delete(entries, key)`
  unfoldable pub delete : String → List (String × Value) → List (String × Value)
  delete key [] = []
  delete key ((name, old) ∷ entries) =
      let later = delete key entries in if str_eq name key then later else (name, old) ∷ later

  abbrev pub keys : List (String × Value) → List String
  keys [] = []
  keys ((name, value) ∷ entries) = name ∷ keys entries

  pub lookup-insert :
      (key other : String) (value : Value) (entries : List (String × Value))
      → lookup other (insert key value entries)
        ≡ (if str_eq key other then some value else lookup other entries)
  unfolding insert lookup
  lookup-insert key other value [] = refl
  lookup-insert key other value ((name, old) ∷ entries) =
      let later = lookup-insert key other value entries in
      ground (arith, later, eq_iff name key, eq_iff name other, eq_iff key other)

  pub lookup-delete :
      (key other : String) (entries : List (String × Value))
      → lookup other (delete key entries)
        ≡ (if str_eq key other then none else lookup other entries)
  unfolding delete lookup
  lookup-delete key other [] = ground arith
  lookup-delete key other ((name, old) ∷ entries) =
      let later = lookup-delete key other entries in
      ground (arith, later, eq_iff name key, eq_iff name other, eq_iff key other)

  -- Each key stands once.
  abbrev pub HasUniqueKeys : List (String × Value) → Type ℓ
  HasUniqueKeys [] = Unit
  HasUniqueKeys ((k, v) ∷ m) = (lookup k m ≡ none) × HasUniqueKeys m

  pub insert-HasUniqueKeys :
      (k : String) (v : Value) (m : List (String × Value))
      → HasUniqueKeys m
      → HasUniqueKeys (insert k v m)
  unfolding lookup insert
  insert-HasUniqueKeys k v [] u = (refl, tt)
  insert-HasUniqueKeys k v ((j, w) ∷ m) u = elim (Bool-cases (str_eq j k)) [
    | inl same ↦ rw same (subst (λ n. lookup n m ≡ none) ((eq_iff j k).0 same) u.0, u.1)
    | inr other ↦
        let apart : str_eq k j ≡ false = ground (arith, other, eq_iff j k, eq_iff k j) in
        rw other (lookup-insert k j v m ∙ rw apart u.0, insert-HasUniqueKeys k v m u.1)
  ]

  pub delete-HasUniqueKeys :
      (k : String) (m : List (String × Value)) → HasUniqueKeys m → HasUniqueKeys (delete k m)
  unfolding lookup delete
  delete-HasUniqueKeys k [] u = tt
  delete-HasUniqueKeys k ((j, w) ∷ m) u = elim (Bool-cases (str_eq j k)) [
    | inl same ↦ rw same (delete-HasUniqueKeys k m u.1)
    | inr other ↦
        let apart : str_eq k j ≡ false = ground (arith, other, eq_iff j k, eq_iff k j) in
        rw other (lookup-delete k j m ∙ rw apart u.0, delete-HasUniqueKeys k m u.1)
  ]
