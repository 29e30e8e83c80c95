-- ===== src/NodesDatabase/Tools.antt =====
-- The objects of the API and of the database, and how one becomes the other
-- (node_netgraphz2/lib/link-tools.js, node_netgraphz2/lib/node-tools.js). `none` is `undefined`.
use netgraphz2_gpl.Common.{Bool, Option, String, if◌then◌else◌, none, ℕ}

pub record ApiLink : Type 0 where
  pub id : Option ℕ
  pub start_node : Option ℕ
  pub end_node : Option ℕ
  pub src_port_id : Option ℕ
  pub dst_port_id : Option ℕ
  pub speed : Option ℕ
  pub start_node_origin_db_id : Option ℕ
  pub end_node_origin_db_id : Option ℕ
  pub comment : Option String
  pub type : Option String
  pub link_quality : Option ℕ
  pub wavelength_nm : Option ℕ
  pub distance_m : Option ℕ

-- `commment` is the name that is written, `comment` the one that is read.
pub record GraphLink : Type 0 where
  pub id : Option ℕ
  pub start : Option ℕ
  pub end : Option ℕ
  pub port_id : Option ℕ
  pub ref_port_id : Option ℕ
  pub speed : Option ℕ
  pub db_sw_id : Option ℕ
  pub db_ref_sw_id : Option ℕ
  pub commment : Option String
  pub comment : Option String
  pub type : Option String
  pub link_quality : Option ℕ
  pub wavelength_nm : Option ℕ
  pub distance_m : Option ℕ

-- `apiLinkToGraphLink`.
unfoldable pub api_link_to_graph_link : ApiLink → Bool → GraphLink
api_link_to_graph_link link include_id = record {
  id = if include_id then link.id else none;
  start = link.start_node;
  end = link.end_node;
  port_id = link.src_port_id;
  ref_port_id = link.dst_port_id;
  speed = link.speed;
  db_sw_id = link.start_node_origin_db_id;
  db_ref_sw_id = link.end_node_origin_db_id;
  commment = link.comment;
  comment = none;
  type = link.type;
  link_quality = link.link_quality;
  wavelength_nm = link.wavelength_nm;
  distance_m = link.distance_m;
}

-- `graphLinkToApiLink`.
unfoldable pub graph_link_to_api_link : GraphLink → ApiLink
graph_link_to_api_link ng_link = record {
  id = ng_link.id;
  start_node = ng_link.start;
  end_node = ng_link.end;
  src_port_id = ng_link.port_id;
  dst_port_id = ng_link.ref_port_id;
  speed = ng_link.speed;
  start_node_origin_db_id = ng_link.db_sw_id;
  end_node_origin_db_id = ng_link.db_ref_sw_id;
  comment = ng_link.comment;
  type = ng_link.type;
  link_quality = ng_link.link_quality;
  wavelength_nm = ng_link.wavelength_nm;
  distance_m = ng_link.distance_m;
}

-- `mode` is the name under which `graphNodeToApiNode` gives the model.
pub record ApiNode : Type 0 where
  pub id : Option ℕ
  pub name : Option String
  pub dns : Option String
  pub model : Option String
  pub mode : Option String
  pub origin_db_id : Option ℕ
  pub num_ports : Option ℕ
  pub serial : Option String
  pub net_id : Option ℕ
  pub ip : Option String
  pub mac : Option String
  pub address : Option String
  pub comment : Option String
  pub icinga_name : Option String
  pub loc_id : Option ℕ
  pub manage_vid : Option ℕ

-- `db_sw_id` is the name that is written, `db_id` the one that is read.
pub record GraphNode : Type 0 where
  pub id : Option ℕ
  pub name : Option String
  pub dns_name : Option String
  pub model : Option String
  pub mac_address : Option String
  pub db_sw_id : Option ℕ
  pub db_id : Option ℕ
  pub num_ports : Option ℕ
  pub serial : Option String
  pub net_id : Option ℕ
  pub ip_address : Option String
  pub address : Option String
  pub comment : Option String
  pub icinga_name : Option String
  pub loc_id : Option ℕ
  pub manage_vlan_id : Option ℕ

-- `apiNodeToGraphNode`.
unfoldable pub api_node_to_graph_node : ApiNode → Bool → GraphNode
api_node_to_graph_node ng_node include_id = record {
  id = if include_id then ng_node.id else none;
  name = ng_node.name;
  dns_name = none;
  model = ng_node.model;
  mac_address = ng_node.mac;
  db_sw_id = ng_node.origin_db_id;
  db_id = none;
  num_ports = ng_node.num_ports;
  serial = ng_node.serial;
  net_id = ng_node.net_id;
  ip_address = ng_node.ip;
  address = ng_node.address;
  comment = ng_node.comment;
  icinga_name = ng_node.icinga_name;
  loc_id = ng_node.loc_id;
  manage_vlan_id = ng_node.manage_vid;
}

-- `graphNodeToApiNode`.
unfoldable pub graph_node_to_api_node : GraphNode → ApiNode
graph_node_to_api_node graph_node = record {
  id = graph_node.id;
  name = graph_node.name;
  dns = graph_node.dns_name;
  model = none;
  mode = graph_node.model;
  origin_db_id = graph_node.db_id;
  num_ports = none;
  serial = graph_node.serial;
  net_id = graph_node.net_id;
  ip = graph_node.ip_address;
  mac = graph_node.mac_address;
  address = graph_node.address;
  comment = graph_node.comment;
  icinga_name = graph_node.icinga_name;
  loc_id = graph_node.loc_id;
  manage_vid = graph_node.manage_vlan_id;
}
