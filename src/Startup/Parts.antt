-- ===== src/Startup/Parts.antt =====
-- The loop over the parts of the graph (web-phalcon/public/js/netgraphz/main.js).
use netgraphz2_gpl.Common.NumMap.{Above}
use netgraphz2_gpl.Pager.{Progress, advance, next_page, successes, get_all_nodes_from}
use netgraphz2_gpl.Startup.Defs.{
  loaded_page, Server, Settings, Startup, all_links, exchange, exchanges, links_fetched, serve,
  update_sequence, handle_answer, part_fetched, params_fetched, status_fetched, call_back,
  end_request, happens, part_timeout, happens_at,
}
use netgraphz2_gpl.Common.{
  List, Bool, [], false, inl, inr, none, some, true, ℕ, ◌∷◌, ◌≡◌, ◌≤◌, ◌⊎◌, arith, refl,
  if◌then◌else◌, length, length-take, ltb, take, ◌++◌, Bool-cases, ap, drop, ltb→lt, sym, ◌*◌, ◌<◌,
  ◌∙◌, length-drop, take_all,
}

module _ {ℓ} {A : Type ℓ} (c : Settings) (server : Server A) where
  -- How far the start is when the parts are over.
  pub data Stage (s : Startup A) : Type ℓ where
    asks_links :
        s.waiting ≡ all_links ∷ []
        → s.load_cancel ≡ false
        → s.fetch_level ≡ 3
        → s.started ≡ 0
        → Stage s
    is_started :
        s.waiting ≡ [] → s.load_cancel ≡ false → s.links ≡ server.links → s.started ≡ 1 → Stage s
    is_cancelled : s.waiting ≡ [] → s.load_cancel ≡ true → s.started ≡ 0 → Stage s

  -- The parts are over, and all nodes are there.
  pub record PartsOver (s : Startup A) : Type ℓ where
    pub all_nodes : s.nodes ≡ server.all
    pub stage : Stage s

  -- Started with the graph's links, or cancelled and never started.
  abbrev pub IsSettled : Startup A → Type 0
  IsSettled s =
      ((s.load_cancel ≡ false) × (s.started ≡ 1) × (s.links ≡ server.links))
      ⊎ ((s.load_cancel ≡ true) × (s.started ≡ 0))

  exchange-idle : (ok : Bool) (s : Startup A) → s.waiting ≡ [] → exchange c server ok s ≡ s
  unfolding exchange happens_at
  exchange-idle ok s e =
      ap (λ w. exchange c server ok (record s { waiting = w })) e
      ∙ ap (λ w. record s { waiting = w }) (sym e)

  exchange-all_links :
      (ok : Bool) (s : Startup A)
      → s.waiting ≡ all_links ∷ []
      → exchange c server ok s
        ≡ links_fetched (if ok then some server.links else none) (record s { waiting = [] })
  unfolding exchange happens_at happens end_request call_back serve handle_answer
  exchange-all_links true s e = ap (λ w. exchange c server true (record s { waiting = w })) e
  exchange-all_links false s e = ap (λ w. exchange c server false (record s { waiting = w })) e

  exchange-part_timeout :
      (ok : Bool) (s : Startup A)
      → s.waiting ≡ part_timeout ∷ []
      → exchange c server ok s
        ≡ part_fetched c
            (if ok then some (get_all_nodes_from s.last_id c.node_part_size server.all) else none)
            (record s { waiting = [] })
  unfolding exchange happens_at happens end_request call_back serve handle_answer
  exchange-part_timeout true s e = ap (λ w. exchange c server true (record s { waiting = w })) e
  exchange-part_timeout false s e = ap (λ w. exchange c server false (record s { waiting = w })) e

  exchange-links :
      (ok : Bool) (s : Startup A)
      → s.nodes ≡ server.all
      → s.waiting ≡ all_links ∷ []
      → s.load_cancel ≡ false
      → s.fetch_level ≡ 3
      → s.started ≡ 0
      → PartsOver (exchange c server ok s) × IsSettled (exchange c server ok s)
  unfolding links_fetched update_sequence
  exchange-links true s a w l f n =
      rw (exchange-all_links true s w, links_fetched, l, f)
        (
          record { all_nodes = a; stage = is_started refl refl refl (omega (arith, n)) },
          inl (refl, omega (arith, n), refl),
        )
  exchange-links false s a w l f n =
      rw (exchange-all_links false s w, links_fetched, l)
        (record { all_nodes = a; stage = is_cancelled refl refl n }, inr (refl, n))

  -- One more request settles the start.
  pub exchange-IsSettled :
      (ok : Bool) (s : Startup A)
      → PartsOver s
      → PartsOver (exchange c server ok s) × IsSettled (exchange c server ok s)
  exchange-IsSettled ok s v = elim v.stage [
    | is_started w l k n ↦ rw (exchange-idle ok s w) (v, inl (l, n, k))
    | is_cancelled w l n ↦ rw (exchange-idle ok s w) (v, inr (l, n))
    | asks_links w l f n ↦ exchange-links ok s v.all_nodes w l f n
  ]

  exchanges-PartsOver :
      (oks : List Bool) (s : Startup A) → PartsOver s → PartsOver (exchanges c server oks s)
  unfolding exchanges
  exchanges-PartsOver [] s v = v
  exchanges-PartsOver (ok ∷ oks) s v =
      exchanges-PartsOver oks (exchange c server ok s) (exchange-IsSettled ok s v).0

  -- Parts are being fetched, and `rest` is still to come.
  pub record AtParts (s : Startup A) (rest : List (ℕ × A)) : Type ℓ where
    pub asks : s.waiting ≡ part_timeout ∷ []
    pub level : s.fetch_level ≡ 2
    pub runs : s.load_cancel ≡ false
    pub not_started : s.started ≡ 0
    pub progress : Progress server.all s.nodes rest s.last_id

  new_last_id :
      (l : ℕ) (p : List (ℕ × A)) → (if ltb 0 (length p) then advance l p else l) ≡ advance l p
  unfolding advance
  new_last_id l [] = refl
  new_last_id l (x ∷ p) = ground arith

  exchange-failed :
      (s : Startup A) (rest : List (ℕ × A))
      → c.node_retry_times ≡ none
      → AtParts s rest
      → AtParts (exchange c server false s) rest
  unfolding part_fetched
  exchange-failed s rest r v = rw (exchange-part_timeout false s v.asks) (
      rw (r, part_fetched)
        (record {
          asks = refl;
          level = v.level;
          runs = v.runs;
          not_started = v.not_started;
          progress = v.progress;
        }))

  page_length :
      (rest : List (ℕ × A))
      → ltb (length (take c.node_part_size rest)) c.node_part_size
        ≡ ltb (length rest) c.node_part_size
  page_length rest = ground (arith, length-take c.node_part_size rest)

  exchange-more :
      (s : Startup A) (rest : List (ℕ × A))
      → ltb (length rest) c.node_part_size ≡ false
      → AtParts s rest
      → AtParts (exchange c server true s) (drop c.node_part_size rest)
  unfolding part_fetched
  exchange-more s rest l v =
      let (page, progress) =
        next_page server.all s.nodes rest s.last_id c.node_part_size v.progress in
      rw
        (
          exchange-part_timeout true s v.asks,
          part_fetched,
          page,
          page_length rest ∙ l,
          new_last_id s.last_id (take c.node_part_size rest),
        )
        (record {
          asks = refl;
          level = v.level;
          runs = v.runs;
          not_started = v.not_started;
          progress = progress;
        })

  exchange-last :
      (s : Startup A) (rest : List (ℕ × A))
      → ltb (length rest) c.node_part_size ≡ true
      → AtParts s rest
      → PartsOver (exchange c server true s)
  unfolding part_fetched update_sequence
  exchange-last s rest l v =
      let (page, progress) =
        next_page server.all s.nodes rest s.last_id c.node_part_size v.progress in
      let all = take_all c.node_part_size rest (omega (arith, ltb→lt _ _ l)) in
      rw (exchange-part_timeout true s v.asks, part_fetched, page, page_length rest ∙ l, v.level)
        (record {
          all_nodes = ap (◌++◌ s.nodes) all ∙ sym v.progress.parts;
          stage = asks_links refl v.runs refl v.not_started;
        })

  exchanges-parts :
      (oks : List Bool) (s : Startup A) (rest : List (ℕ × A))
      → c.node_retry_times ≡ none
      → AtParts s rest
      → length rest < successes oks * c.node_part_size
      → PartsOver (exchanges c server oks s)
  unfolding exchanges
  exchanges-parts [] s rest r v h = absurd (omega arith)
  exchanges-parts (false ∷ oks) s rest r v h =
      exchanges-parts oks (exchange c server false s) rest r (exchange-failed s rest r v) h
  exchanges-parts (true ∷ oks) s rest r v h =
      elim (Bool-cases (ltb (length rest) c.node_part_size)) [
        | inl l ↦ exchanges-PartsOver oks (exchange c server true s) (exchange-last s rest l v)
        | inr l ↦
            exchanges-parts oks (exchange c server true s) (drop c.node_part_size rest) r
              (exchange-more s rest l v)
              (let le : c.node_part_size ≤ length rest = ground arith in
                omega (arith, length-drop c.node_part_size rest, le, h))
      ]

  -- The first answer, the user's parameters, has come.
  pub fetched_parts :
      (oks : List Bool)
      → c.node_retry_times ≡ none
      → Above 0 server.all
      → length server.all < successes oks * c.node_part_size
      → PartsOver (exchanges c server (true ∷ oks) (status_fetched true loaded_page))
  unfolding exchanges status_fetched update_sequence exchange happens_at happens end_request
      call_back serve handle_answer params_fetched
  fetched_parts oks r above h =
      exchanges-parts oks
        (record loaded_page {
          fetch_level = 2;
          params = some server.params;
          waiting = part_timeout ∷ [];
        })
        server.all r
        (record {
          asks = refl;
          level = refl;
          runs = refl;
          not_started = refl;
          progress = record { ascending = above; parts = refl; at_end = refl };
        })
        h
