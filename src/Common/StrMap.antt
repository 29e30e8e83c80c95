-- ===== src/Common/StrMap.antt =====
-- A JavaScript object whose keys are names that are no array indices: its keys are enumerated in
-- the order of insertion.
use Prim.Native.Nat.{ℕ, ◌+◌}
use Prim.Native.String.{String}
use mathlib.Core.Path.{◌≡◌, refl}
use mathlib.Core.List.{List, [], ◌∷◌}
use mathlib.Core.Option.{Option, none, some}
use mathlib.Core.Bool.{false}
use native.Mathlib.Omega.{arith}
use text.Mathlib.Text.{◌==◌}
use text.Mathlib.TextEquality.{eq_iff}
use netgraphz2_gpl.Common.Tests.{if◌then◌else◌, is_some}

module _ {ℓ} {V : Type ℓ} where
  unfoldable pub lookup : String → List (String × V) → Option V
  lookup key [] = none
  lookup key ((name, x) ∷ rest) = if name == key then some x else lookup key rest

  unfoldable pub insert : String → V → List (String × V) → List (String × V)
  insert key x [] = (key, x) ∷ []
  insert key x ((name, y) ∷ rest) =
      if name == key then (key, x) ∷ rest else (name, y) ∷ insert key x rest

  -- `delete rest[key]`; a key stands once in an object.
  unfoldable pub delete : String → List (String × V) → List (String × V)
  delete key [] = []
  delete key ((name, y) ∷ rest) = if name == key then rest else (name, y) ∷ delete key rest

  -- A sum over the entries.
  unfoldable pub sum_by : (V → ℕ) → List (String × V) → ℕ
  sum_by f [] = 0
  sum_by f ((name, y) ∷ rest) = f y + sum_by f rest

  abbrev pub at : (V → ℕ) → Option V → ℕ
  at f none = 0
  at f (some x) = f x

  pub sum_by-insert :
      (f : V → ℕ) (key : String) (x : V) (rest : List (String × V))
      → sum_by f (insert key x rest) + at f (lookup key rest) ≡ sum_by f rest + f x
  unfolding sum_by insert lookup
  sum_by-insert f key x [] = omega arith
  sum_by-insert f key x ((name, y) ∷ rest) = ground (arith, sum_by-insert f key x rest)

  pub sum_by-delete :
      (f : V → ℕ) (key : String) (rest : List (String × V))
      → sum_by f (delete key rest) + at f (lookup key rest) ≡ sum_by f rest
  unfolding sum_by delete lookup
  sum_by-delete f key [] = omega arith
  sum_by-delete f key ((name, y) ∷ rest) = ground (arith, sum_by-delete f key rest)

  pub lookup-insert :
      (key name : String) (x : V) (rest : List (String × V))
      → lookup name (insert key x rest) ≡ (if key == name then some x else lookup name rest)
  unfolding lookup insert
  lookup-insert key name x [] = refl
  lookup-insert key name x ((other, y) ∷ rest) =
      ground
        (arith, eq_iff key name, eq_iff other key, eq_iff other name, lookup-insert key name x rest)

  -- Each key stands once.
  abbrev pub Unique : List (String × V) → Type 0
  Unique [] = Unit {0}
  Unique ((name, y) ∷ rest) = (is_some (lookup name rest) ≡ false) × Unique rest

  pub insert-Unique :
      (key : String) (x : V) (rest : List (String × V)) → Unique rest → Unique (insert key x rest)
  unfolding insert lookup
  insert-Unique key x [] u = (refl, tt)
  insert-Unique key x ((name, y) ∷ rest) u = ground (
    arith,
    insert-Unique key x rest,
    lookup-insert key name x rest,
    eq_iff name key,
    eq_iff key name,
  )

  pub lookup-delete :
      (key j : String) (rest : List (String × V))
      → Unique rest
      → lookup j (delete key rest) ≡ (if key == j then none else lookup j rest)
  unfolding delete lookup
  lookup-delete key j [] u = ground arith
  lookup-delete key j ((name, y) ∷ rest) u =
      ground (arith, lookup-delete key j rest, eq_iff name key, eq_iff name j, eq_iff key j)

  pub delete-Unique :
      (key : String) (rest : List (String × V)) → Unique rest → Unique (delete key rest)
  unfolding delete lookup
  delete-Unique key [] u = tt
  delete-Unique key ((name, y) ∷ rest) u =
      ground (arith, delete-Unique key rest, lookup-delete key name rest, eq_iff name key)
