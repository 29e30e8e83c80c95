-- ===== src/NodesDatabase/Tests.antt =====
-- The database library's theorems on a link, a node and two names (node_netgraphz2/lib/).
use netgraphz2_gpl.Common.NumMap
use netgraphz2_gpl.NodesDatabase.LinkCalls.{Replies, call_links_lem}
use netgraphz2_gpl.NodesDatabase.Links.{LinksDriver, call_links, insert_link}
use netgraphz2_gpl.NodesDatabase.RoundTrip.{round_trip_lem}
use netgraphz2_gpl.NodesDatabase.Tools.{
  ApiLink, ApiNode, api_link_to_graph_link, api_node_to_graph_node, graph_link_to_api_link,
  graph_node_to_api_node, GraphLink,
}
use netgraphz2_gpl.Common.{[], none, some, true, ◌≡◌, List, false, inl, inr, ℕ}

abbrev api_link : ApiLink
api_link = record {
  id = some 4;
  start_node = some 1;
  end_node = some 2;
  src_port_id = some 24;
  dst_port_id = some 1;
  speed = some 1000;
  start_node_origin_db_id = none;
  end_node_origin_db_id = none;
  comment = some "uplink";
  type = none;
  link_quality = none;
  wavelength_nm = some 1310;
  distance_m = some 200;
}

abbrev api_node : ApiNode
api_node = record {
  id = some 1;
  name = some "core";
  dns = none;
  model = some "switch";
  mode = none;
  origin_db_id = some 77;
  num_ports = some 24;
  serial = none;
  net_id = some 3;
  ip = some "10.0.0.1";
  mac = none;
  address = none;
  comment = none;
  icinga_name = some "core";
  loc_id = none;
  manage_vid = some 10;
}

round_trip_lem_example :
    (graph_link_to_api_link (api_link_to_graph_link api_link true)
      ≡ record api_link { comment = none })
    × (graph_node_to_api_node (api_node_to_graph_node api_node true) ≡ record api_node {
      dns = none;
      model = none;
      mode = some "switch";
      origin_db_id = none;
      num_ports = none;
    })
round_trip_lem_example = round_trip_lem true api_link api_node

-- A database that is a list of links by identifier. It finds no rows, and refuses a link to nowhere.
abbrev listed_links : LinksDriver (List (ℕ × GraphLink))
listed_links = record {
  read_relationship = λ id d. elim (NumMap.lookup id d) [ none ↦ inl "404" | some g ↦ inr g ];
  cypher_from = λ query id d. inr [];
  cypher_to = λ query id d. inr [];
  insert_relationship = λ from to type g d. elim to [
    | none ↦ (inl "no end", d)
    | some id ↦ (inr g, NumMap.insert 1 g d)
  ];
  update_relationship = λ id g d. (inr (some g), d);
  delete_relationship = λ id d. (inr (NumMap.lookup id d), NumMap.delete id d);
}

call_links_lem_example :
    Replies "Error while inserting link: " none false
      (call_links listed_links (insert_link api_link) []).0
unfolding api_link_to_graph_link
call_links_lem_example = call_links_lem listed_links (insert_link api_link) []
