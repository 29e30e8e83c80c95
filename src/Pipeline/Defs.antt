-- ===== src/Pipeline/Defs.antt =====
-- A notification on its way: the database library answers the event handler, socket.io carries the
-- message to the browser, and the browser handles it and fetches the nodes
-- (notifications/event_handler.js, node_netgraphz2/lib/nodes.js,
-- web-phalcon/public/js/netgraphz/communication.js).
use netgraphz2_gpl.Common.{Bool, List, Option, [], none, some, ℕ, ◌∷◌}
use netgraphz2_gpl.Communication.Defs.{
  Effect, Icinga, Message, NodeRef, Outcome, handle_message, node_fetched, notice, update,
}
use netgraphz2_gpl.Model.{Node}
use netgraphz2_gpl.NodesDatabase.Tools.{ApiNode}
use netgraphz2_gpl.Notifications.Body.{Event, Notification}
use netgraphz2_gpl.Notifications.Response.{
  Database, Dispatch, by_email, deliver, notify_aggregate, notify_node,
}
use netgraphz2_gpl.Notifications.State.{Config}
use netgraphz2_gpl.Store.Defs.{Store}
use netgraphz2_gpl.NodesDatabase.Nodes.{
  Reply, get_by_icinga_name, get_ids_by_icinga_names, value, nothing, failed, Neo4j,
}

-- `node` and `error` of the callback.
abbrev pub answer_node : Reply ApiNode → Option (Option ApiNode)
answer_node (value n) = some (some n)
answer_node nothing = some none
answer_node (failed e) = none

abbrev pub answer_ids : Reply (List ℕ) → Option (List ℕ)
answer_ids (value ids) = some ids
answer_ids nothing = none
answer_ids (failed e) = none

-- `database.getConnection().nodes`.
unfoldable pub connection_nodes : Neo4j → Database ApiNode
unfolding get_by_icinga_name get_ids_by_icinga_names
connection_nodes db = record {
  get_by_icinga_name = λ name. answer_node (get_by_icinga_name db name);
  get_ids_by_icinga_names = λ names. answer_ids (get_ids_by_icinga_names db names);
}

-- `message.node`; a name that is missing is shown as "undefined". Every node of the database has an
-- identifier.
abbrev pub node_ref : ApiNode → Option NodeRef
node_ref n = elim n.id [
  | none ↦ none
  | some id ↦ some (record { id = id; name = elim n.name [ none ↦ "undefined" | some s ↦ s ] })
]

-- `message.icinga` of a message with no such field, which is not read then.
abbrev no_icinga : Icinga
no_icinga = record { state_id = ""; last_state_id = ""; name = ""; host_name = ""; output = "" }

abbrev pub icinga_of : Event → Icinga
icinga_of e = record {
  state_id = e.state_id;
  last_state_id = e.last_state_id;
  name = e.name;
  host_name = e.host_name;
  output = e.output;
}

-- The `notification` of the event handler as the browsers get it; `notifyByEmail` does nothing.
unfoldable pub received : Dispatch ApiNode → Option Message
received (by_email address) = none
received (notify_node m) = some (record {
  type = 0;
  icinga_type = m.icinga_type;
  agg_type = none;
  agg_state_id = "";
  agg_last_state_id = "";
  nodes_id = [];
  host_names = [];
  service_names = [];
  node = node_ref m.node;
  icinga = icinga_of m.icinga;
})
received (notify_aggregate m) = some (record {
  type = 0;
  icinga_type = m.icinga_type;
  agg_type = some m.agg_type;
  agg_state_id = m.agg_state_id;
  agg_last_state_id = m.agg_last_state_id;
  nodes_id = m.nodes_id;
  host_names = m.host_names;
  service_names = elim m.service_names [ none ↦ [] | some names ↦ names ];
  node = none;
  icinga = no_icinga;
})

-- What a browser makes of what is sent.
unfoldable pub in_browser : Option (Dispatch ApiNode) → Option Outcome
unfolding received handle_message
in_browser none = none
in_browser (some d) = elim (received d) [ none ↦ none | some m ↦ some (handle_message m) ]

-- A notification that is handed on, up to the browser's handler.
unfoldable pub notified : Config → Neo4j → Notification → Option Outcome
unfolding in_browser connection_nodes deliver
notified c db n = in_browser (deliver c (connection_nodes db) n)

-- `performNodeUpdate` for every update among the effects; `fetch` has the answers of `fetchNode`.
unfoldable pub perform_updates : Bool → (ℕ → Option Node) → List Effect → Store → Store
unfolding node_fetched
perform_updates follow fetch [] s = s
perform_updates follow fetch (update id problem ∷ es) s =
    perform_updates follow fetch es (node_fetched problem follow (fetch id) s).0
perform_updates follow fetch (notice level title text ∷ es) s = perform_updates follow fetch es s
