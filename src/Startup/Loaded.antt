-- ===== src/Startup/Loaded.antt =====
-- The store that the start-up leaves (web-phalcon/public/js/netgraphz/main.js, store.js).
use netgraphz2_gpl.Pager.{successes}
use netgraphz2_gpl.Startup.Defs.{
  Server, Settings, exchange, exchanges, loaded_page, loaded_store, status_fetched,
}
use netgraphz2_gpl.Startup.Parts.{IsSettled, exchange-IsSettled, fetched_parts}
use netgraphz2_gpl.Common.{
  Bool-cases, List, Option, Option-cases, [], ap, arith, inl, inr, none, refl, some, ℕ, ◌==◌, ◌∙◌,
  ◌∷◌, ◌≡◌, Bool, length, true, ◌*◌, ◌<◌,
}
use netgraphz2_gpl.Common.NumMap
use netgraphz2_gpl.Model.{Link, Node}
use netgraphz2_gpl.Store.Batch.{find_last, or_else, put_nodes-lookup}
use netgraphz2_gpl.Store.Invariant.{Keyed}
use netgraphz2_gpl.Store.Defs.{
  Store, emit, empty_store, get_node_by_id, load_all, put_links, put_nodes,
}

-- In a keyed object the last node of the values that has an identifier is the one under it.
find_last-values :
    (lo id : ℕ) (m : List (ℕ × Node))
    → NumMap.Above lo m
    → Keyed m
    → find_last id (NumMap.values m) ≡ NumMap.lookup id m
unfolding NumMap.values NumMap.lookup
find_last-values lo id [] a k = refl
find_last-values lo id ((j, n) ∷ m) a k = elim (Bool-cases (j == id)) [
  | inl hit ↦
      let below : NumMap.lookup id m ≡ none = NumMap.lookup-Above j id m a.1 (ground arith) in
      ground (arith, find_last-values j id m a.1 k.1, below, k.0, hit)
  | inr miss ↦ ground (arith, find_last-values j id m a.1 k.1, k.0, miss)
]

put_links-nodes : (ls : List Link) (s : Store) → (put_links ls s).nodes_by_id ≡ s.nodes_by_id
unfolding put_links
put_links-nodes [] s = refl
put_links-nodes (l ∷ ls) s = elim (Option-cases l.id) [
  | inl e ↦ rw (e, put_links) (put_links-nodes ls s)
  | inr (id, e) ↦ rw (e, put_links) (put_links-nodes ls _)
]

or_else-none : {A : Type 0} (x : Option A) → or_else x none ≡ x
or_else-none none = refl
or_else-none (some x) = refl

load_all-lookup :
    (nodes : List Node) (links : List Link) (id : ℕ)
    → get_node_by_id id (load_all nodes links empty_store) ≡ find_last id nodes
unfolding load_all get_node_by_id emit NumMap.lookup
load_all-lookup nodes links id =
    ap (NumMap.lookup id) (put_links-nodes links (put_nodes nodes empty_store))
    ∙ put_nodes-lookup nodes id empty_store
    ∙ or_else-none (find_last id nodes)

-- Where the setting of the retries is not there, node identifiers are positive and ascending, and
-- the server answers every request, so that none fails in the network: once the user's parameters
-- have come, then however many of the requests for a part are answered with what is no JSON between,
-- when `k` of them are answered with JSON, `k` times the size of a part is more than the number of
-- nodes, and one more request is answered, the browser has all nodes of the graph, each once and in
-- order; either the program has been started, once, with the links of the graph, or loading is
-- cancelled and it has not. The store that it is then started with gives under each identifier the
-- graph's node with it, and nothing where the graph has none.
pub start_up_lem :
    (c : Settings) (server : Server Node) (oks : List Bool) (ok : Bool) (id : ℕ)
    → c.node_retry_times ≡ none
    → NumMap.Above 0 server.all
    → Keyed server.all
    → length server.all < successes oks * c.node_part_size
    → let s =
        exchange c server ok (exchanges c server (true ∷ oks) (status_fetched true loaded_page)) in
      (s.nodes ≡ server.all)
      × IsSettled c server s
      × (get_node_by_id id (loaded_store s) ≡ NumMap.lookup id server.all)
unfolding loaded_store
start_up_lem c server oks ok id r above keyed h =
    let over = fetched_parts c server oks r above h in
    let (last, settled) = exchange-IsSettled c server ok _ over in
    let nodes = last.all_nodes in
    (
      nodes,
      settled,
      load_all-lookup _ _ id
          ∙ ap (λ ns. find_last id (NumMap.values ns)) nodes
          ∙ find_last-values 0 id server.all above keyed,
    )
