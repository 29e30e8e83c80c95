-- ===== src/Model.antt =====
-- The data that the browser's modules share (web-phalcon/public/js/netgraphz/core.js).
use netgraphz2_gpl.Common.{ℕ, Bool, String, List, Option}

-- `NodeStatus`: what a monitoring source says of a node.
pub record Status : Type 0 where
  pub source : String
  pub effective_state : ℕ
  pub time : ℕ

pub record MetricValue : Type 0 where
  pub value : ℕ
  pub time : ℕ

pub record Metric : Type 0 where
  pub name : String
  pub values : List MetricValue

-- The fields that the modules read. `none` is `undefined`, and for `status` and `metrics` also what
-- is no array.
pub record Node : Type 0 where
  pub id : Option ℕ
  pub name : Option String
  pub type : Option ℕ
  pub status : Option (List Status)
  pub metrics : Option (List Metric)

-- `LinkConnection`, with the node that the store attaches.
pub record Connection : Type 0 where
  pub id : ℕ
  pub port_id : Option ℕ
  pub node : Option Node

pub record Link : Type 0 where
  pub id : Option ℕ
  pub link_speed : Option ℕ
  pub rx_octets : Option String
  pub tx_octets : Option String
  pub duplex : Option Bool
  pub src : Connection
  pub dst : Connection

-- `core.node_state`; there is no `STATE_NODE_UNREACHABLE`.
abbrev pub state_node_up : ℕ
state_node_up = 0

abbrev pub state_node_down : ℕ
state_node_down = 1

abbrev pub state_node_warn : ℕ
state_node_warn = 2

abbrev pub state_node_unknown : ℕ
state_node_unknown = 3

abbrev pub state_node_flap : ℕ
state_node_flap = 4
