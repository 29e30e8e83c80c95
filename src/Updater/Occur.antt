-- ===== src/Updater/Occur.antt =====
-- What one step of the event loop does to the updater (web-phalcon/public/js/netgraphz/updater.js).
use netgraphz2_gpl.Common.NumMap
use mathlib.Core.List.{append-nil, append_assoc}
use netgraphz2_gpl.Pager.{advance}
use netgraphz2_gpl.Updater.Defs.{
  Updater, UpdaterSettings, answer, occur, part_updated, timeout, Callback, Timeout, run_callback,
  set_timeout, store_part,
}
use netgraphz2_gpl.Common.{
  List, Option, [], ap, some, sym, ℕ, ◌++◌, ◌∙◌, ◌∷◌, ◌≡◌, arith, refl, ◌+◌,
}

-- The nodes of all calls of `updateNodes`, in order.
abbrev pub concat {ℓ} : {A : Type ℓ} → List (List A) → List A
concat [] = []
concat (xs ∷ xss) = xs ++ concat xss

module _ {ℓ} {A : Type ℓ} where
  pub concat-snoc :
      (xss : List (List (ℕ × A))) (xs : List (ℕ × A)) → concat (xss ++ xs ∷ []) ≡ concat xss ++ xs
  concat-snoc [] xs = append-nil xs
  concat-snoc (ys ∷ xss) xs =
      ap (◌++◌ ys) (concat-snoc xss xs) ∙ sym (append_assoc ys (concat xss) xs)

  pub store_part_lem :
      (p : List (ℕ × A)) (s : Updater A)
      → ((store_part p s).last_id ≡ advance s.last_id p)
        × (concat (store_part p s).updated ≡ concat s.updated ++ p)
        × ((store_part p s).timeouts ≡ s.timeouts)
        × ((store_part p s).requests ≡ s.requests)
        × ((store_part p s).next_timeout ≡ s.next_timeout)
  unfolding store_part advance
  store_part_lem [] s = (refl, sym (append-nil (concat s.updated)), refl, refl, refl)
  store_part_lem (x ∷ p) s = ground (arith, concat-snoc s.updated (x ∷ p))

module _ {ℓ} {A : Type ℓ} (c : UpdaterSettings) (now : ℕ) where
  -- The only timeout runs.
  pub occur-timeout :
      (id : ℕ) (t : Timeout) (s : Updater A)
      → s.timeouts ≡ (id, t) ∷ []
      → occur c (timeout id now) s ≡ run_callback c t.callback now (record s { timeouts = [] })
  unfolding occur NumMap.lookup NumMap.delete
  occur-timeout id t s e =
      let found : NumMap.lookup id s.timeouts ≡ some t = ap (NumMap.lookup id) e ∙ ground arith in
      let gone : NumMap.delete id s.timeouts ≡ [] = ap (NumMap.delete id) e ∙ ground arith in
      rw (found, occur, gone) refl

  pub occur-answer :
      (nodes : Option (List (ℕ × A))) (s : Updater A)
      → s.requests ≡ 1
      → occur c (answer now nodes) s ≡ part_updated c now nodes (record s { requests = 0 })
  unfolding occur
  occur-answer nodes s e = rw (e, occur) refl

  -- A timeout is set where there was none, and runs.
  pub occur-set_timeout :
      (f : Callback) (w : ℕ) (g p : Option ℕ) (s : Updater A)
      → s.timeouts ≡ []
      → occur c
          (timeout s.next_timeout now)
          (record (set_timeout f w s) { global_timer = g; part_timer = p })
        ≡ run_callback c f now (record s {
          timeouts = [];
          next_timeout = s.next_timeout + 1;
          global_timer = g;
          part_timer = p;
        })
  unfolding NumMap.insert
  occur-set_timeout f w g p s e =
      occur-timeout s.next_timeout (record { callback = f; wait = w }) _
        (ap (NumMap.insert s.next_timeout (record { callback = f; wait = w })) e)
