-- ===== src/NodesDatabase.antt =====
-- The database library (node_netgraphz2/lib/). The driver of Neo4j is a parameter.
pub mod Tools
pub mod Nodes
pub mod RoundTrip
pub mod Query
pub mod Links
pub mod LinkCalls
pub mod Tests
