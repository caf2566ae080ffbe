-- ===== src/Prelude/Maps.antt =====
-- Go maps with string keys, as association lists, and their laws.
use Prim.Native.String.{String}
use mathlib.Core.Path.{◌≡◌, refl}
use mathlib.Core.List.{List, [], ◌∷◌}
use mathlib.Core.Option.{Option, none, some}
use native.Mathlib.Omega.{arith}
use text.Mathlib.Text.{◌==◌ as str_eq}
use text.Mathlib.TextEquality.{eq_iff}
use mathlib.Core.Logic.{inl, inr}
use new_api_blues.Prelude.Tests.{if◌then◌else◌, Bool-cases}

module _ {ℓ} {V : Type ℓ} where
  unfoldable pub lookup : String → List (String × V) → Option V
  lookup key [] = none
  lookup key ((at, value) ∷ entries) = if str_eq at key then some value else lookup key entries

  -- m[key] = value: in place where there is an entry, else at the end.
  unfoldable pub insert : String → V → List (String × V) → List (String × V)
  insert key value [] = (key, value) ∷ []
  insert key value ((at, old) ∷ entries) =
      let rest = insert key value entries in
      if str_eq at key then (key, value) ∷ entries else (at, old) ∷ rest

  -- What is read after an assignment.
  pub lookup-insert :
      (written asked : String) (value : V) (entries : List (String × V))
      → lookup asked (insert written value entries)
        ≡ (if str_eq written asked then some value else lookup asked entries)
  unfolding lookup insert
  lookup-insert written asked value [] = refl
  lookup-insert written asked value ((at, old) ∷ entries) =
      let rest = lookup-insert written asked value entries in
      ground (arith, rest, eq_iff written asked, eq_iff at written, eq_iff at asked)

-- A key stands once in the map.
module _ {V : Type 0} where
  unfoldable pub Distinct : List (String × V) → Type 0
  Distinct [] = Unit {0}
  Distinct ((key, value) ∷ m) = (lookup key m ≡ none) × Distinct m

  pub insert-Distinct :
      (key : String) (value : V) (m : List (String × V))
      → Distinct m
      → Distinct (insert key value m)
  unfolding insert Distinct lookup
  insert-Distinct key value [] h = (refl, tt)
  insert-Distinct key value ((at, old) ∷ m) (h, hs) = elim (Bool-cases (str_eq at key)) [
    | inl e ↦ rw e (ground (arith, h, e, eq_iff at key), hs)
    | inr e ↦ rw e (
      ground (arith, h, e, lookup-insert key at value m, eq_iff at key, eq_iff key at),
      insert-Distinct key value m hs,
    )
  ]
