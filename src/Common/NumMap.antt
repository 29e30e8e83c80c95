-- ===== src/Common/NumMap.antt =====
-- A JavaScript object whose keys are array indices: its keys are enumerated in ascending order, so
-- the object is a list of entries sorted by key.
use Prim.Native.Nat.{ℕ, ◌<◌, ◌≤◌}
use mathlib.Core.Path.{◌≡◌, refl}
use mathlib.Core.List.{List, [], ◌∷◌, Memᴰ}
use mathlib.Core.Logic.{inl, inr}
use mathlib.Core.Option.{Option, none, some}
use native.Mathlib.Omega.{arith}
use netgraphz2_gpl.Common.Tests.{Bool-cases, ltb, ◌==◌, if◌then◌else◌}

module _ {ℓ} {V : Type ℓ} where
  -- `m[id]`, where `none` is `undefined`.
  unfoldable pub lookup : ℕ → List (ℕ × V) → Option V
  lookup id [] = none
  lookup id ((j, x) ∷ m) = if j == id then some x else lookup id m

  -- `m[id] = x`.
  unfoldable pub insert : ℕ → V → List (ℕ × V) → List (ℕ × V)
  insert id x [] = (id, x) ∷ []
  insert id x ((j, y) ∷ m) =
      if ltb id j
      then (id, x) ∷ (j, y) ∷ m
      else if j == id
      then (id, x) ∷ m
      else (j, y) ∷ insert id x m

  -- `delete m[id]`.
  unfoldable pub delete : ℕ → List (ℕ × V) → List (ℕ × V)
  delete id [] = []
  delete id ((j, y) ∷ m) = let rest = delete id m in if j == id then rest else (j, y) ∷ rest

  -- `Object.keys(m).forEach(id => … m[id] …)`.
  unfoldable pub values : List (ℕ × V) → List V
  values [] = []
  values ((id, x) ∷ m) = x ∷ values m

  -- The keys are strictly ascending and lie above `lo`.
  abbrev pub Above : ℕ → List (ℕ × V) → Type 0
  Above lo [] = Unit {0}
  Above lo ((j, x) ∷ m) = (lo < j) × Above j m

  abbrev pub IsSorted : List (ℕ × V) → Type 0
  IsSorted [] = Unit {0}
  IsSorted ((j, x) ∷ m) = Above j m

  pub lookup-insert :
      (id j : ℕ) (x : V) (m : List (ℕ × V))
      → lookup j (insert id x m) ≡ (if id == j then some x else lookup j m)
  unfolding lookup insert
  lookup-insert id j x [] = refl
  lookup-insert id j x ((i, y) ∷ m) = ground (arith, lookup-insert id j x m)

  pub lookup-delete :
      (id j : ℕ) (m : List (ℕ × V))
      → lookup j (delete id m) ≡ (if id == j then none else lookup j m)
  unfolding lookup delete
  lookup-delete id j [] = ground arith
  lookup-delete id j ((i, y) ∷ m) = ground (arith, lookup-delete id j m)

  pub insert-Above :
      (lo id : ℕ) (x : V) (m : List (ℕ × V)) → Above lo m → lo < id → Above lo (insert id x m)
  unfolding insert
  insert-Above lo id x [] h lt = ground arith
  insert-Above lo id x ((j, y) ∷ m) h lt = ground (arith, insert-Above j id x m)

  pub insert-IsSorted : (id : ℕ) (x : V) (m : List (ℕ × V)) → IsSorted m → IsSorted (insert id x m)
  unfolding insert
  insert-IsSorted id x [] h = tt
  insert-IsSorted id x ((j, y) ∷ m) h = ground (arith, insert-Above j id x m)

  pub lookup-Above : (lo id : ℕ) (m : List (ℕ × V)) → Above lo m → id ≤ lo → lookup id m ≡ none
  unfolding lookup
  lookup-Above lo id [] h lt = refl
  lookup-Above lo id ((j, y) ∷ m) h lt = ground (arith, lookup-Above j id m)

  -- In a sorted object the values are what is found at some key.
  pub mem-values :
      (lo : ℕ) (m : List (ℕ × V)) (x : V)
      → Memᴰ x (values m)
      → Above lo m
      → (id : ℕ) × (lo < id) × (lookup id m ≡ some x)
  unfolding values lookup
  mem-values lo [] x h a = elim h [ ]
  mem-values lo ((j, y) ∷ m) x (Memᴰ.head e) a = (j, a.0, ground arith)
  mem-values lo ((j, y) ∷ m) x (Memᴰ.tail h) a =
      let (id, lt, e) = mem-values j m x h a.1 in (id, omega arith, ground arith)

  pub lookup-mem : (id : ℕ) (m : List (ℕ × V)) (x : V) → lookup id m ≡ some x → Memᴰ x (values m)
  unfolding values lookup
  lookup-mem id [] x e = cc
  lookup-mem id ((j, y) ∷ m) x e = elim (Bool-cases (j == id)) [
    | inl hit ↦ Memᴰ.head (ground arith)
    | inr miss ↦ Memᴰ.tail (lookup-mem id m x (ground arith))
  ]
