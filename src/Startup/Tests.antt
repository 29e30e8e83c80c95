-- ===== src/Startup/Tests.antt =====
-- The start-up for three nodes and a part size of two
-- (web-phalcon/public/js/netgraphz/main.js).
use netgraphz2_gpl.Pager.{advance, get_all_nodes_from, nodes_above}
use netgraphz2_gpl.Common.NumMap
use netgraphz2_gpl.Common.{
  Bool, List, String, [], arith, false, none, refl, some, true, ℕ, ◌∷◌, ◌≡◌, length,
}
use netgraphz2_gpl.Model.{Node}
use netgraphz2_gpl.Startup.Defs.{
  StartupEvent, answered, arrives, Server, Settings, exchange, exchanges, loaded_page, loaded_store,
  status_fetched, Startup, call_back, end_request, handle_answer, happens, happens_at, no_network,
  params_fetched, part_fetched, serve, timer_runs, update_sequence,
}
use netgraphz2_gpl.Startup.Loaded.{start_up_lem}
use netgraphz2_gpl.Startup.Parts.{IsSettled}
use netgraphz2_gpl.Store.Defs.{get_node_by_id}

abbrev settings : Settings
settings = record { node_part_size = 2; node_retry_times = none }

abbrev named : ℕ → String → Node
named id name = record {
  id = some id;
  name = some name;
  type = none;
  status = none;
  metrics = none;
}

abbrev server : Server Node
server = record {
  all = (3, named 3 "a") ∷ (5, named 5 "b") ∷ (9, named 9 "c") ∷ [];
  links = [];
  params = "{}";
}

-- The second request for a part is answered with no JSON.
abbrev results : List Bool
results = true ∷ false ∷ true ∷ []

start_up_lem_example :
    let s =
      exchange settings server true
        (exchanges settings server (true ∷ results) (status_fetched true loaded_page)) in
    (s.nodes ≡ server.all)
    × IsSettled settings server s
    × (get_node_by_id 5 (loaded_store s) ≡ NumMap.lookup 5 server.all)
start_up_lem_example =
    start_up_lem settings server results true 5 refl (omega arith, (omega arith, (omega arith, tt)))
      (refl, (refl, (refl, tt))) (omega arith)

-- The answer to what waits first, or the run of the timeout that waits first.
abbrev happen_first : List StartupEvent → Startup Node → Startup Node
happen_first [] s = s
happen_first (h ∷ hs) s = happen_first hs (happens_at settings server 0 h s)

-- The first request for a part fails in the network, so that two are sent in its place, both from
-- the same identifier, and the first two nodes are there twice.
doubled_nodes :
    let s =
      happen_first
        (answered arrives
          ∷ timer_runs
          ∷ answered no_network
          ∷ timer_runs
          ∷ timer_runs
          ∷ answered arrives
          ∷ answered arrives
          ∷ [])
        (status_fetched true loaded_page) in
    length s.nodes ≡ 4
unfolding status_fetched update_sequence happens_at happens end_request call_back serve
    handle_answer params_fetched part_fetched get_all_nodes_from nodes_above advance
doubled_nodes = refl
