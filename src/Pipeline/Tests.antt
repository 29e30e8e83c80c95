-- ===== src/Pipeline/Tests.antt =====
-- A notification on its way, on a run.
use mathlib.Core.Path.{subst}
use netgraphz2_gpl.Common.{All, List, Option, [], false, inr, none, refl, some, true, ℕ, ◌∷◌, ◌≡◌}
use netgraphz2_gpl.Communication.Defs.{Effect, done}
use netgraphz2_gpl.Model.{Node}
use netgraphz2_gpl.Pipeline.Defs.{notified, perform_updates}
use netgraphz2_gpl.Pipeline.Shown.{HasIds, IsShown, notified_lem}
use netgraphz2_gpl.Pipeline.Stored.{IsFetch, after_update, has_id, stored_lem}
use netgraphz2_gpl.Store.Defs.{empty_store, get_node_by_id}
use netgraphz2_gpl.Notifications.Body.{Notification, host, plain}
use netgraphz2_gpl.NodesDatabase.Nodes.{Neo4j, get_by_icinga_name}
use netgraphz2_gpl.NodesDatabase.Tools.{GraphNode, graph_node_to_api_node}
use netgraphz2_gpl.Notifications.State.{Config}

abbrev graph_node : GraphNode
graph_node = record {
  id = some 7;
  name = some "core";
  dns_name = none;
  model = none;
  mac_address = none;
  db_sw_id = none;
  db_id = none;
  num_ports = none;
  serial = none;
  net_id = none;
  ip_address = none;
  address = none;
  comment = none;
  icinga_name = some "core";
  loc_id = none;
  manage_vlan_id = none;
}

-- A database of one node.
abbrev one_node : Neo4j
one_node = record {
  read_node = λ id. inr graph_node;
  cypher_nodes = λ text ps. inr (graph_node ∷ []);
  cypher_ids = λ text ps. inr (7 ∷ []);
  insert_node = λ n. inr n;
  update_node = λ id n. inr n;
  delete_node = λ id. inr none;
  cypher_nodes_by = λ text p. inr [];
  cypher_delete = λ text p. inr [];
}

one_node-HasIds : HasIds one_node
one_node-HasIds text ps ns e =
    let same : graph_node ∷ [] ≡ ns = cc e in
    subst (All (λ (n : GraphNode). (id : ℕ) × (n.id ≡ some id))) same ((7, refl), tt)

abbrev pub direct_config : Config
direct_config = record {
  rate_limit = false;
  rate = 3;
  rate_time = 1000;
  drop_overrate = false;
  aggregation = false;
  aggregation_time = 5000;
  broadcast_user = "broadcast";
}

abbrev host_down : Notification
host_down = record {
  body = plain (record {
    name = "core";
    host_name = "";
    state_id = "1";
    last_state_id = "0";
    output = "";
    user = record { name = "broadcast"; email = "" };
  });
  type = host;
}

abbrev fetched_node : ℕ → Option Node
fetched_node id =
    some (record { id = some id; name = some "core"; type = none; status = none; metrics = none })

fetched_node-IsFetch : IsFetch fetched_node
fetched_node-IsFetch id n e = cc e

notified_lem_example :
    IsShown host_down (some (7 ∷ [])) true (notified direct_config one_node host_down)
unfolding get_by_icinga_name graph_node_to_api_node
notified_lem_example = notified_lem direct_config one_node host_down one_node-HasIds

stored_lem_example :
    (es : List Effect) × (notified direct_config one_node host_down ≡ some (done es))
    × ((j : ℕ)
        → get_node_by_id j (perform_updates true fetched_node es empty_store)
          ≡ after_update (has_id j (7 ∷ [])) (fetched_node j) (get_node_by_id j empty_store))
unfolding get_by_icinga_name graph_node_to_api_node
stored_lem_example =
    stored_lem direct_config one_node host_down (7 ∷ []) true fetched_node empty_store
      one_node-HasIds fetched_node-IsFetch refl refl
