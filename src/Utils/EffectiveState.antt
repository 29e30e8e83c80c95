-- ===== src/Utils/EffectiveState.antt =====
-- Which status gives a node its state (web-phalcon/public/js/netgraphz/graph_utils.js).
use netgraphz2_gpl.Common.{
  All, Bool-cases, List, [], arith, get_elem?, inl, inr, ltb, ltb→lt, refl, some, suc, take, ℕ, ◌+◌,
  ◌<◌, ◌∙◌, ◌∷◌, ◌≡◌, ◌≤◌, ◌⊎◌, Option, Option-cases, Bool, String, ap, false, none, true, str_eq,
}
use netgraphz2_gpl.Model.{Status}
use netgraphz2_gpl.Utils.{latest, latest_status, by_source, pref_status}

-- The entry `y` of `xs` at `j` is the latest, and the first of that time.
abbrev pub IsLatest : List Status → ℕ → Status → Type 0
IsLatest xs j y =
    (get_elem? xs j ≡ some y)
    × All (λ z. z.time ≤ y.time) xs
    × All (λ z. z.time < y.time) (take j xs)

All-mono :
    (m n : ℕ) (xs : List Status) → m ≤ n → All (λ z. z.time ≤ m) xs → All (λ z. z.time ≤ n) xs
All-mono m n [] h a = tt
All-mono m n (x ∷ xs) h a = (omega arith, All-mono m n xs h a.1)

latest_lem :
    (m j i : ℕ) (xs : List Status)
    → ((latest m j i xs ≡ j) × All (λ z. z.time ≤ m) xs)
      ⊎ ((k : ℕ) × (y : Status) × (latest m j i xs ≡ i + k) × (m < y.time) × IsLatest xs k y)
unfolding latest
latest_lem m j i [] = inl (refl, tt)
latest_lem m j i (x ∷ xs) = elim (Bool-cases (ltb m x.time)) [
  | inl later ↦ rw later (elim (latest_lem x.time i (i + 1) xs) [
    | inl (e, a) ↦ inr (0, x, e ∙ omega arith, ltb→lt _ _ later, (refl, (omega arith, a), tt))
    | inr (k, y, e, lt, (g, a, b)) ↦
        inr (
          suc k,
          y,
          e ∙ omega arith,
          omega (arith, ltb→lt _ _ later),
          (g, (omega arith, a), (lt, b)),
        )
  ])
  | inr earlier ↦ rw earlier (elim (latest_lem m j (i + 1) xs) [
    | inl (e, a) ↦ inl (e, (ground arith, a))
    | inr (k, y, e, lt, (g, a, b)) ↦
        inr (suc k, y, e ∙ omega arith, lt, (g, (ground arith, a), (ground arith, b)))
  ])
]

-- Of a list of statuses that is not empty, the first of the latest time is taken.
pub latest_status-IsLatest :
    (x : Status) (xs : List Status)
    → (j : ℕ) × (y : Status) × (latest_status (x ∷ xs) ≡ some y) × IsLatest (x ∷ xs) j y
unfolding latest_status
latest_status-IsLatest x xs = elim (latest_lem 0 0 0 (x ∷ xs)) [
  | inl (e, a) ↦
      (0, x, ap (get_elem? (x ∷ xs)) e, (refl, All-mono 0 x.time (x ∷ xs) (omega arith) a, tt))
  | inr (k, y, e, lt, h) ↦ (k, y, ap (get_elem? (x ∷ xs)) (e ∙ omega arith) ∙ h.0, h)
]

by_source-none :
    (source : String) (xs : List Status)
    → by_source source xs ≡ none
    → All (λ z. str_eq z.source source ≡ false) xs
unfolding by_source
by_source-none source [] e = tt
by_source-none source (x ∷ xs) e = ground (arith, by_source-none source xs)

-- The first entry of the source.
abbrev pub IsFirstOf : String → List Status → ℕ → Status → Type 0
IsFirstOf source xs j y =
    (get_elem? xs j ≡ some y)
    × (str_eq y.source source ≡ true)
    × All (λ z. str_eq z.source source ≡ false) (take j xs)

by_source-some :
    (source : String) (xs : List Status) (y : Status)
    → by_source source xs ≡ some y
    → (j : ℕ) × IsFirstOf source xs j y
unfolding by_source
by_source-some source [] y e = cc
by_source-some source (x ∷ xs) y e = elim (Bool-cases (str_eq x.source source)) [
  | inl hit ↦ (0, (ground arith, ground arith, tt))
  | inr miss ↦
      let (j, (g, h, a)) = by_source-some source xs y (ground arith) in (suc j, (g, h, (miss, a)))
]

-- A status of the preferred source, if there is one.
abbrev pub is_preferred : Option String → Status → Bool
is_preferred none z = false
is_preferred (some p) z = str_eq z.source p

none_preferred : (xs : List Status) → All (λ z. is_preferred none z ≡ false) xs
none_preferred [] = tt
none_preferred (x ∷ xs) = (refl, none_preferred xs)

-- With a preferred source the first status of that source counts; with none, or where no status is
-- of it, the first of the latest time. So a node with a status has a state.
pub pref_status_lem :
    (source : Option String) (x : Status) (xs : List Status)
    → (j : ℕ) × (y : Status) × (pref_status source (x ∷ xs) ≡ some y)
      × (((p : String) × (source ≡ some p) × IsFirstOf p (x ∷ xs) j y)
          ⊎ (IsLatest (x ∷ xs) j y × All (λ z. is_preferred source z ≡ false) (x ∷ xs)))
unfolding pref_status
pref_status_lem none x xs =
    let (j, y, e, h) = latest_status-IsLatest x xs in (j, y, e, inr (h, none_preferred (x ∷ xs)))
pref_status_lem (some p) x xs = elim (Option-cases (by_source p (x ∷ xs))) [
  | inr (y, e) ↦
      let (j, h) = by_source-some p (x ∷ xs) y e in
      (j, y, rw (e, pref_status) refl, inl (p, refl, h))
  | inl e ↦
      let (j, y, e', h) = latest_status-IsLatest x xs in
      (j, y, rw (e, pref_status) e', inr (h, by_source-none p (x ∷ xs) e))
]
