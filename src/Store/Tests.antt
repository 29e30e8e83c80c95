-- ===== src/Store/Tests.antt =====
-- The store's theorems on small stores (web-phalcon/public/js/netgraphz/store.js).
use netgraphz2_gpl.Model.{Link, Node}
use netgraphz2_gpl.Store.Defs.{
  Store, empty_store, get_down_nodes, get_node_by_id, get_warning_nodes, load_all,
}
use netgraphz2_gpl.Store.Invariant.{
  updates, Call, StoreInv, loads, perform, perform_all, perform_all-StoreInv, reads_link,
  updates_all,
}
use netgraphz2_gpl.Store.Query.{problem_nodes_lem}
use netgraphz2_gpl.Utils.{get_node_pref_effective_state}
use netgraphz2_gpl.Common.{List, [], none, some, ℕ, ◌≡◌, ◌∷◌, ◌↔◌}
use mathlib.Core.List.{Memᴰ}

abbrev node : ℕ → ℕ → Node
node id state = record {
  id = some id;
  name = some "node";
  type = some 1;
  status = some (record { source = "icinga"; effective_state = state; time = 5 } ∷ []);
  metrics = some (record { name = "rx"; values = record { value = 1; time = 2 } ∷ [] } ∷ []);
}

abbrev link : Link
link = record {
  id = some 4;
  link_speed = none;
  rx_octets = none;
  tx_octets = none;
  duplex = none;
  src = record { id = 1; port_id = none; node = none };
  dst = record { id = 2; port_id = none; node = none };
}

abbrev loaded : Store
loaded = load_all (node 1 0 ∷ node 2 1 ∷ []) (link ∷ []) empty_store

abbrev calls : List Call
calls =
    loads (node 2 0 ∷ node 1 1 ∷ []) (link ∷ [])
    ∷ updates (node 3 0)
    ∷ reads_link 4
    ∷ updates_all (node 1 0 ∷ [])
    ∷ []

perform_all-StoreInv_example : StoreInv (perform_all calls empty_store)
perform_all-StoreInv_example = perform_all-StoreInv calls

loaded-StoreInv : StoreInv loaded
unfolding perform_all perform
loaded-StoreInv = perform_all-StoreInv (loads (node 1 0 ∷ node 2 1 ∷ []) (link ∷ []) ∷ [])

problem_nodes_lem_example :
    (Memᴰ (node 2 1) (get_down_nodes none loaded) ↔ (
      (id : ℕ) × (get_node_by_id id loaded ≡ some (node 2 1))
      × (get_node_pref_effective_state none (node 2 1) ≡ some 1)))
    × (Memᴰ (node 2 1) (get_warning_nodes none loaded) ↔ (
        (id : ℕ) × (get_node_by_id id loaded ≡ some (node 2 1))
        × (get_node_pref_effective_state none (node 2 1) ≡ some 2)))
problem_nodes_lem_example = problem_nodes_lem none loaded (node 2 1) loaded-StoreInv
