-- ===== src/Updater/Rotation.antt =====
-- What a rotation of the updater brings (web-phalcon/public/js/netgraphz/updater.js).
use netgraphz2_gpl.Updater.Occur.{concat, occur-answer, occur-set_timeout, store_part_lem}
use mathlib.Core.Path.{subst}
use netgraphz2_gpl.Common.NumMap.{Above}
use netgraphz2_gpl.Updater.Loop.{cleared-nil}
use netgraphz2_gpl.Common.NumMap
use mathlib.Core.List.{append-nil, append_assoc}
use netgraphz2_gpl.Pager.{Progress, get_all_nodes_from, next_page, successes}
use netgraphz2_gpl.Updater.Defs.{
  Updater, UpdaterSettings, answer, occur, part_start, part_updated, timeout, Timeout, cleared,
  next_part, store_part, update_part_start, rotation_started, update_callback, wait_time,
}
use netgraphz2_gpl.Common.{
  List, Bool, Option, [], ap, false, if◌then◌else◌, none, some, sym, true, ℕ, ◌++◌, ◌∙◌, ◌∷◌, ◌≡◌,
  arith, drop, length, length-take, ltb, refl, take, ◌+◌, Bool-cases, inl, inr, length-drop, ltb→lt,
  take_all, ◌*◌, ◌-◌, ◌<◌, ◌≤◌,
}

module _ {ℓ} {A : Type ℓ} (c : UpdaterSettings) (now : ℕ) (all : List (ℕ × A)) where
  -- The answer of the server to the request for the next part.
  abbrev pub page : Bool → Updater A → Option (List (ℕ × A))
  page ok s = if ok then some (get_all_nodes_from s.last_id c.part_size all) else none

  -- The request that is open is answered or fails, and then the timeout runs that this has set.
  unfoldable pub turn : Bool → Updater A → Updater A
  turn ok s = occur c (timeout s.next_timeout now) (occur c (answer now (page ok s)) s)

  unfoldable pub turns : List Bool → Updater A → Updater A
  turns [] s = s
  turns (ok ∷ oks) s = turns oks (turn ok s)

  -- A request is open; `before` was updated in earlier rotations, and `rest` is to come in this
  -- one.
  pub record Rotating (before : List (ℕ × A)) (s : Updater A) (seen rest : List (ℕ × A))
      : Type ℓ where
    pub asks : (s.timeouts ≡ []) × (s.requests ≡ 1)
    pub done_so_far : concat s.updated ≡ before ++ seen
    pub progress : Progress all seen rest s.last_id

  turn-failed :
      (before seen rest : List (ℕ × A)) (s : Updater A)
      → Rotating before s seen rest
      → Rotating before (turn false s) seen rest
  unfolding turn part_updated part_start
  turn-failed before seen rest s v =
      rw
        (
          occur-answer c now none s v.asks.1,
          occur-set_timeout c now update_part_start 35000 s.global_timer (some s.next_timeout)
              (record s { requests = 0; timeouts = cleared s.part_timer s.timeouts })
              (ap (cleared s.part_timer) v.asks.0 ∙ cleared-nil s.part_timer),
        )
        (record { asks = (refl, refl); done_so_far = v.done_so_far; progress = v.progress })

  page_length :
      (rest : List (ℕ × A))
      → ltb (length (take c.part_size rest)) c.part_size ≡ ltb (length rest) c.part_size
  page_length rest = ground (arith, length-take c.part_size rest)

  -- The state of the updater when the next part has come and is stored.
  abbrev stored : List (ℕ × A) → Updater A → Updater A
  stored rest s = store_part (take c.part_size rest) (record s { requests = 0 })

  turn-answered :
      (before seen rest : List (ℕ × A)) (s : Updater A)
      → Rotating before s seen rest
      → turn true s
        ≡ occur c
            (timeout (stored rest s).next_timeout now)
            (next_part c now (length (take c.part_size rest)) (stored rest s))
  unfolding turn part_updated
  turn-answered before seen rest s v =
      let (page, _) = next_page all seen rest s.last_id c.part_size v.progress in
      let s₀ : Updater A = record s { requests = 0 } in
      let (_, _, _, _, next) = store_part_lem (take c.part_size rest) s₀ in
      rw (page, occur-answer c now (some (take c.part_size rest)) s v.asks.1, next) refl

  turn-more :
      (before seen rest : List (ℕ × A)) (s : Updater A)
      → ltb (length rest) c.part_size ≡ false
      → Rotating before s seen rest
      → Rotating before (turn true s) (seen ++ take c.part_size rest) (drop c.part_size rest)
  unfolding part_start next_part
  turn-more before seen rest s l v =
      let (_, progress) = next_page all seen rest s.last_id c.part_size v.progress in
      let (last, news, ts, rs, _) =
        store_part_lem (take c.part_size rest) (record s { requests = 0 }) in
      rw
        (
          turn-answered before seen rest s v,
          page_length rest ∙ l,
          occur-set_timeout c now update_part_start c.part_interval (stored rest s).global_timer
              (some (stored rest s).next_timeout) (stored rest s) (ts ∙ v.asks.0),
        )
        (record {
          asks = (refl, omega (arith, rs));
          done_so_far =
              news
              ∙ ap (λ l. l ++ take c.part_size rest) v.done_so_far
              ∙ append_assoc before seen (take c.part_size rest);
          progress =
              subst (Progress all (seen ++ take c.part_size rest) (drop c.part_size rest))
                (sym last) progress;
        })

  -- All nodes were updated, and one timeout is set.
  pub record RotationOver (before : List (ℕ × A)) (s : Updater A) : Type ℓ where
    pub all_updated : concat s.updated ≡ before ++ all
    pub no_request : s.requests ≡ 0
    pub from_start : s.last_id ≡ 0
    pub id : ℕ
    pub next : Timeout
    pub one_timeout : s.timeouts ≡ (id, next) ∷ []
    pub given : id < s.next_timeout

  turn-last :
      (before seen rest : List (ℕ × A)) (s : Updater A)
      → ltb (length rest) c.part_size ≡ true
      → Rotating before s seen rest
      → RotationOver before (turn true s)
  unfolding rotation_started next_part NumMap.insert
  turn-last before seen rest s l v =
      let (_, news, ts, rs, _) =
        store_part_lem (take c.part_size rest) (record s { requests = 0 }) in
      let whole = take_all c.part_size rest (omega (arith, ltb→lt _ _ l)) in
      rw
        (
          turn-answered before seen rest s v,
          page_length rest ∙ l,
          occur-set_timeout c now update_callback
              (wait_time c (now - (stored rest s).rotation_start_time))
              (some (stored rest s).next_timeout) (stored rest s).part_timer
              (record (stored rest s) { rotation_end_time = now; last_id = 0 }) (ts ∙ v.asks.0),
        )
        (record {
          all_updated =
              news
              ∙ ap (λ l. l ++ take c.part_size rest) v.done_so_far
              ∙ append_assoc before seen (take c.part_size rest)
              ∙ ap (λ l. before ++ (seen ++ l)) whole
              ∙ ap (◌++◌ before) (sym v.progress.parts);
          no_request = rs;
          from_start = refl;
          id = (stored rest s).next_timeout + 1;
          next = record { callback = update_part_start; wait = c.part_interval };
          one_timeout = refl;
          given = omega arith;
        })

  turn-over :
      (ok : Bool) (before : List (ℕ × A)) (s : Updater A) → RotationOver before s → turn ok s ≡ s
  unfolding turn occur NumMap.lookup
  turn-over ok before s v =
      let id = v.id in
      let absent : NumMap.lookup s.next_timeout s.timeouts ≡ none =
        ap (NumMap.lookup s.next_timeout) v.one_timeout ∙ ground (arith, v.given) in
      rw (v.no_request, absent) refl

  turns-RotationOver :
      (oks : List Bool) (before : List (ℕ × A)) (s : Updater A)
      → RotationOver before s
      → RotationOver before (turns oks s)
  unfolding turns
  turns-RotationOver [] before s v = v
  turns-RotationOver (ok ∷ oks) before s v =
      turns-RotationOver oks before (turn ok s)
        (subst (RotationOver before) (sym (turn-over ok before s v)) v)

  turns-Rotating :
      (oks : List Bool) (before seen rest : List (ℕ × A)) (s : Updater A)
      → Rotating before s seen rest
      → length rest < successes oks * c.part_size
      → RotationOver before (turns oks s)
  unfolding turns
  turns-Rotating [] before seen rest s v h = absurd (omega arith)
  turns-Rotating (false ∷ oks) before seen rest s v h =
      turns-Rotating oks before seen rest (turn false s) (turn-failed before seen rest s v) h
  turns-Rotating (true ∷ oks) before seen rest s v h =
      elim (Bool-cases (ltb (length rest) c.part_size)) [
        | inl l ↦ turns-RotationOver oks before (turn true s) (turn-last before seen rest s l v)
        | inr l ↦
            turns-Rotating oks before (seen ++ take c.part_size rest) (drop c.part_size rest)
              (turn true s) (turn-more before seen rest s l v)
              (let le : c.part_size ≤ length rest = ground arith in
                omega (arith, length-drop c.part_size rest, le, h))
      ]

  -- With positive ascending identifiers, and one request open from the start of the graph: however
  -- many requests fail between, when `k` of them have succeeded and `k` times the size of a part is
  -- more than the number of nodes, `updateNodes` has been given every node of the graph, each once
  -- and in order, and the next rotation begins from the start of the graph.
  pub rotation_lem :
      (oks : List Bool) (s : Updater A)
      → Above 0 all
      → s.timeouts ≡ []
      → s.requests ≡ 1
      → s.last_id ≡ 0
      → length all < successes oks * c.part_size
      → (concat (turns oks s).updated ≡ concat s.updated ++ all)
        × ((turns oks s).last_id ≡ 0)
        × ((turns oks s).requests ≡ 0)
        × (length (turns oks s).timeouts ≡ 1)
  rotation_lem oks s above ts r from h =
      let over =
        turns-Rotating oks (concat s.updated) [] all s
          (record {
            asks = (ts, r);
            done_so_far = sym (append-nil (concat s.updated));
            progress = record { ascending = above; parts = refl; at_end = from };
          })
          h in
      (over.all_updated, over.from_start, over.no_request, ap length over.one_timeout)
