-- ===== src/NodesDatabase/RoundTrip.antt =====
-- What survives a way to the database and back (node_netgraphz2/lib/link-tools.js,
-- node_netgraphz2/lib/node-tools.js).
use netgraphz2_gpl.NodesDatabase.Tools.{
  ApiLink, ApiNode, api_link_to_graph_link, api_node_to_graph_node, graph_link_to_api_link,
  graph_node_to_api_node,
}
use netgraphz2_gpl.Common.{Bool, if◌then◌else◌, none, refl, ◌≡◌}

-- A link that is written and read again is the same but for its comment, which is lost, and for its
-- identifier, if that was not to be written. A node keeps everything but its identifier, if that
-- was not to be written, its DNS name, its number of ports and the identifier of its origin; its
-- model comes back as `mode`.
pub round_trip_lem :
    (include_id : Bool) (link : ApiLink) (node : ApiNode)
    → (graph_link_to_api_link (api_link_to_graph_link link include_id)
        ≡ record link { id = if include_id then link.id else none; comment = none })
      × (graph_node_to_api_node (api_node_to_graph_node node include_id) ≡ record node {
        id = if include_id then node.id else none;
        dns = none;
        model = none;
        mode = node.model;
        origin_db_id = none;
        num_ports = none;
      })
unfolding api_link_to_graph_link graph_link_to_api_link api_node_to_graph_node
    graph_node_to_api_node
round_trip_lem include_id link node = (refl, refl)
