-- ===== src/NodePanel/Waits.antt =====
-- The timeouts of a panel that wait to show something (web-phalcon/public/js/netgraphz/ui.panel.js).
use netgraphz2_gpl.NodePanel.Events.{find_timeout}
use netgraphz2_gpl.NodePanel.State.{PanelTask, hold_over, remove_timeout, wait_over}
use netgraphz2_gpl.Common.{
  List, All, Bool-cases, Option, [], arith, inl, inr, none, refl, some, suc, ℕ, ◌++◌, ◌+◌, ◌==◌,
  ◌∷◌, ◌≡◌, ◌≤◌,
}

-- A wait is the one that the variable names.
abbrev pub IsCurrent : {A : Type 0} → Option ℕ → ℕ × PanelTask A → Type 0
IsCurrent timer (h, hold_over) = Unit {0}
IsCurrent timer (h, wait_over n) = timer ≡ some h

abbrev pub waits : {A : Type 0} → List (ℕ × PanelTask A) → ℕ
waits [] = 0
waits ((h, hold_over) ∷ ts) = waits ts
waits ((h, wait_over n) ∷ ts) = suc (waits ts)

pub record WaitsMatch {A : Type 0} (timer : Option ℕ) (ts : List (ℕ × PanelTask A)) : Type 0 where
  pub current : All (IsCurrent timer) ts
  pub one : waits ts ≤ 1

pub waits-append :
    {A : Type 0} (xs ys : List (ℕ × PanelTask A)) → waits (xs ++ ys) ≡ waits xs + waits ys
waits-append [] ys = omega arith
waits-append ((h, hold_over) ∷ xs) ys = waits-append xs ys
waits-append ((h, wait_over n) ∷ xs) ys = omega (arith, waits-append xs ys)

pub waits-zero :
    {A : Type 0} (timer : Option ℕ) (ts : List (ℕ × PanelTask A))
    → waits ts ≡ 0
    → All (IsCurrent timer) ts
waits-zero timer [] e = tt
waits-zero timer ((h, hold_over) ∷ ts) e = (tt, waits-zero timer ts e)
waits-zero timer ((h, wait_over n) ∷ ts) e = absurd (omega arith)

pub remove_timeout-WaitsMatch :
    {A : Type 0} (h : ℕ) (timer : Option ℕ) (ts : List (ℕ × PanelTask A))
    → All (IsCurrent timer) ts
    → All (IsCurrent timer) (remove_timeout h ts) × (waits (remove_timeout h ts) ≤ waits ts)
unfolding remove_timeout
remove_timeout-WaitsMatch h timer [] v = (tt, omega arith)
remove_timeout-WaitsMatch h timer ((k, hold_over) ∷ ts) v =
    let ih = remove_timeout-WaitsMatch h timer ts v.1 in
    elim (Bool-cases (k == h)) [ inl e ↦ rw e ih | inr e ↦ rw e ((tt, ih.0), ih.1) ]
remove_timeout-WaitsMatch h timer ((k, wait_over n) ∷ ts) v =
    let ih = remove_timeout-WaitsMatch h timer ts v.1 in
    elim (Bool-cases (k == h)) [
      | inl e ↦ rw e (ih.0, omega (arith, ih.1))
      | inr e ↦ rw e ((v.0, ih.0), omega (arith, ih.1))
    ]

-- Without the current timeout there is no wait.
pub remove_timeout-waits :
    {A : Type 0} (h : ℕ) (ts : List (ℕ × PanelTask A))
    → All (IsCurrent (some h)) ts
    → waits (remove_timeout h ts) ≡ 0
unfolding remove_timeout
remove_timeout-waits h [] v = refl
remove_timeout-waits h ((k, hold_over) ∷ ts) v = ground (arith, remove_timeout-waits h ts v.1)
remove_timeout-waits h ((k, wait_over n) ∷ ts) v = ground (arith, remove_timeout-waits h ts v.1)

pub no_timer-waits :
    {A : Type 0} (ts : List (ℕ × PanelTask A)) → All (IsCurrent none) ts → waits ts ≡ 0
no_timer-waits [] v = refl
no_timer-waits ((k, hold_over) ∷ ts) v = no_timer-waits ts v.1
no_timer-waits ((k, wait_over n) ∷ ts) v = cc (v.0)

pub find_timeout-current :
    {A : Type 0} (h : ℕ) (n : A) (timer : Option ℕ) (ts : List (ℕ × PanelTask A))
    → All (IsCurrent timer) ts
    → find_timeout h ts ≡ some (wait_over n)
    → timer ≡ some h
unfolding find_timeout
find_timeout-current h n timer [] v e = cc
find_timeout-current h n timer ((k, hold_over) ∷ ts) v e =
    ground (arith, find_timeout-current h n timer ts v.1)
find_timeout-current h n timer ((k, wait_over m) ∷ ts) v e =
    ground (arith, find_timeout-current h n timer ts v.1)
