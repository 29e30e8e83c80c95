-- ===== src/Notifications/Handler/Owners.antt =====
-- Which variable or topic a running interval belongs to (notifications/event_handler.js).
use netgraphz2_gpl.Common.NumMap
use netgraphz2_gpl.Notifications.Handler.Timers.{interval}
use netgraphz2_gpl.Notifications.State.{Interval, Task, aggregate, drop_counter, throttle}
use text.Mathlib.TextPositions.{eq_refl}
use netgraphz2_gpl.Common.{
  List, Bool, Bool-cases, Option, ap, arith, eq_iff, false, if◌then◌else◌, inl, inr, none, refl,
  some, str_eq, suc, sym, true, ℕ, ◌∙◌, ◌≡◌, ◌≤◌,
}

unfoldable pub same_task : Task → Task → Bool
same_task drop_counter drop_counter = true
same_task drop_counter throttle = false
same_task drop_counter (aggregate y) = false
same_task throttle drop_counter = false
same_task throttle throttle = true
same_task throttle (aggregate y) = false
same_task (aggregate x) drop_counter = false
same_task (aggregate x) throttle = false
same_task (aggregate x) (aggregate y) = str_eq x y

pub same_task_refl : (k : Task) → same_task k k ≡ true
unfolding same_task
same_task_refl drop_counter = refl
same_task_refl throttle = refl
same_task_refl (aggregate x) = eq_refl x

pub same_task_eq : (k j : Task) → same_task k j ≡ true → k ≡ j
unfolding same_task
same_task_eq drop_counter drop_counter e = refl
same_task_eq drop_counter throttle e = cc
same_task_eq drop_counter (aggregate y) e = cc
same_task_eq throttle drop_counter e = cc
same_task_eq throttle throttle e = refl
same_task_eq throttle (aggregate y) e = cc
same_task_eq (aggregate x) drop_counter e = cc
same_task_eq (aggregate x) throttle e = cc
same_task_eq (aggregate x) (aggregate y) e = ap aggregate ((eq_iff x y).0 e)

-- `own` gives the interval that a task's variable or topic names. An interval runs exactly if it is
-- named, and identifiers from `next` on are free.
pub record Owners (own : Task → Option ℕ) (m : List (ℕ × Interval)) (next : ℕ) : Type 0 where
  pub free : (id : ℕ) → next ≤ id → NumMap.lookup id m ≡ none
  pub owned : (id p : ℕ) (k : Task) → NumMap.lookup id m ≡ some (interval k p) → own k ≡ some id
  pub running :
      (id : ℕ) (k : Task) → own k ≡ some id → (p : ℕ) × (NumMap.lookup id m ≡ some (interval k p))

pub Owners-eq :
    {own own' : Task → Option ℕ} {m : List (ℕ × Interval)} {next : ℕ}
    → ((k : Task) → own' k ≡ own k)
    → Owners own m next
    → Owners own' m next
Owners-eq h v = record {
  free = v.free;
  owned = λ id p k e. h k ∙ v.owned id p k e;
  running = λ id k e. v.running id k (sym (h k) ∙ e);
}

module _ {own own' : Task → Option ℕ} {m : List (ℕ × Interval)} {next : ℕ} (v : Owners own m next)
    (k₀ : Task) where
  -- A task that has no interval gets a new one.
  pub set-Owners :
      (p : ℕ)
      → own k₀ ≡ none
      → ((k : Task) → own' k ≡ (if same_task k₀ k then some next else own k))
      → Owners own' (NumMap.insert next (interval k₀ p) m) (suc next)
  set-Owners p off h = record {
    free = λ id le. ground (arith, NumMap.lookup-insert next id (interval k₀ p) m, v.free id);
    owned = λ id q k e. ground (
      arith,
      NumMap.lookup-insert next id (interval k₀ p) m,
      v.owned id q k,
      h k,
      same_task_eq k₀ k,
      same_task_refl k,
    );
    running = running;
  }
    where
      running :
          (id : ℕ) (k : Task)
          → own' k ≡ some id
          → (q : ℕ) × (NumMap.lookup id (NumMap.insert next (interval k₀ p) m)
              ≡ some (interval k q))
      running id k e = elim (Bool-cases (same_task k₀ k)) [
        | inl same ↦ (
          p,
          ground (arith, NumMap.lookup-insert next id (interval k₀ p) m, h k, same_task_eq k₀ k),
        )
        | inr other ↦
            let (q, at_id) = v.running id k (ground (arith, h k)) in
            (q, ground (arith, NumMap.lookup-insert next id (interval k₀ p) m, v.free id))
      ]

  -- The interval of a task is cleared.
  pub delete-Owners :
      (id₀ : ℕ)
      → own k₀ ≡ some id₀
      → ((k : Task) → own' k ≡ (if same_task k₀ k then none else own k))
      → Owners own' (NumMap.delete id₀ m) next
  delete-Owners id₀ on h = record {
    free = λ id le. ground (arith, NumMap.lookup-delete id₀ id m, v.free id);
    owned = λ id q k e.
        ground (arith, NumMap.lookup-delete id₀ id m, v.owned id q k, h k, same_task_eq k₀ k);
    running = running;
  }
    where
      running :
          (id : ℕ) (k : Task)
          → own' k ≡ some id
          → (q : ℕ) × (NumMap.lookup id (NumMap.delete id₀ m) ≡ some (interval k q))
      running id k e = elim (Bool-cases (same_task k₀ k)) [
        | inl same ↦ absurd (ground (arith, h k))
        | inr other ↦
            let (q, at_id) = v.running id k (ground (arith, h k)) in
            let (p, at_id₀) = v.running id₀ k₀ on in
            (q, ground (arith, NumMap.lookup-delete id₀ id m, same_task_refl k))
      ]
