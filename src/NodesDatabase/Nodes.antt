-- ===== src/NodesDatabase/Nodes.antt =====
-- The operations on nodes (node_netgraphz2/lib/nodes.js).
use netgraphz2_gpl.Common.Text.{decimal}
use netgraphz2_gpl.NodesDatabase.Tools.{
  ApiNode, GraphNode, api_node_to_graph_node, graph_node_to_api_node,
}
use Prim.Native.String.{◌++◌ as join}
use netgraphz2_gpl.Common.{
  List, Bool, Option, String, [], false, if◌then◌else◌, inl, inr, length, ltb, map, none, some,
  true, ℕ, ◌+◌, ◌∷◌, ◌⊎◌,
}

-- The driver, which answers with an error text or a value; `delete_node` may answer `false`.
pub record Neo4j : Type 0 where
  pub read_node : ℕ → String ⊎ GraphNode
  pub cypher_nodes : String → List (String × String) → String ⊎ List GraphNode
  pub cypher_ids : String → List (String × String) → String ⊎ List ℕ
  pub insert_node : GraphNode → String ⊎ GraphNode
  pub update_node : Option ℕ → GraphNode → String ⊎ GraphNode
  pub delete_node : ℕ → String ⊎ Option GraphNode
  pub cypher_nodes_by : String → String × ℕ → String ⊎ List GraphNode
  pub cypher_delete : String → String × ℕ → String ⊎ List GraphNode

-- What the callback gets: a value, twice `null`, or an error.
pub data Reply {ℓ} (R : Type ℓ) : Type ℓ where
  value : R → Reply R
  nothing : Reply R
  failed : String → Reply R

-- `{success: …, node: …}`.
pub record Success : Type 0 where
  pub success : Bool
  pub node : Option ApiNode

-- The conditions of `getByIcingaNames`: `i` is the index, `n` the number of names.
unfoldable pub conditions : ℕ → ℕ → List String → String
conditions i n [] = ""
conditions i n (x ∷ xs) =
    let rest = conditions (i + 1) n xs in
    join (join (join "n.icinga_name = {ic_name_" (decimal i)) "} ")
      (if ltb (i + 1) n then join "OR " rest else rest)

-- `query_parameters` of `getByIcingaNames`.
unfoldable pub parameters : ℕ → List String → List (String × String)
parameters i [] = []
parameters i (x ∷ xs) = (join "ic_name_" (decimal i), x) ∷ parameters (i + 1) xs

abbrev pub names_query : List String → Bool → String
names_query names id_only =
    join (join "MATCH (n:NetAssistNode) WHERE " (conditions 0 (length names) names))
      (if id_only then "RETURN Id(n)" else "RETURN n")

module _ (db : Neo4j) where
  abbrev pub first_node : List GraphNode → Reply ApiNode
  first_node [] = nothing
  first_node (n ∷ ns) = value (graph_node_to_api_node n)

  -- `getById`, which gives the node as it is in the database; after an error the code then throws.
  unfoldable pub get_by_id : ℕ → Reply GraphNode
  get_by_id id = elim (db.read_node id) [
    | inl e ↦ failed (join "Internal client error: " e)
    | inr n ↦ value n
  ]

  -- `getByIcingaName`.
  unfoldable pub get_by_icinga_name : String → Reply ApiNode
  get_by_icinga_name icinga_name =
      elim (db.cypher_nodes "MATCH (n:NetAssistNode) WHERE n.icinga_name = {ic_name} RETURN n"
        (("ic_name", icinga_name) ∷ [])) [
          | inl e ↦ failed (join "Error during cypher request: " e)
          | inr ns ↦ first_node ns
        ]

  -- `getByIcingaNames`.
  unfoldable pub get_by_icinga_names : List String → Reply (List ApiNode)
  get_by_icinga_names names =
      elim (db.cypher_nodes (names_query names false) (parameters 0 names)) [
        | inl e ↦ failed (join "Error during mulitple cypher query: " e)
        | inr ns ↦ value (map graph_node_to_api_node ns)
      ]

  -- `getIdsByIcingaNames`.
  unfoldable pub get_ids_by_icinga_names : List String → Reply (List ℕ)
  get_ids_by_icinga_names names =
      elim (db.cypher_ids (names_query names true) (parameters 0 names)) [
        | inl e ↦ failed (join "Error during mulitple cypher query: " e)
        | inr ids ↦ value ids
      ]

  -- `insert`.
  unfoldable pub insert_api_node : ApiNode → Reply Success
  insert_api_node n = elim (db.insert_node (api_node_to_graph_node n false)) [
    | inl e ↦ failed (join (join "Internal client error: " e) ". Failed to insert node.")
    | inr g ↦ value (record { success = true; node = some (graph_node_to_api_node g) })
  ]

  -- `update`.
  unfoldable pub update_api_node : ApiNode → Reply Success
  update_api_node n = elim (db.update_node n.id (api_node_to_graph_node n false)) [
    | inl e ↦ failed (join (join "Internal client error: " e) ". Failed to update node.")
    | inr g ↦ value (record { success = true; node = some (graph_node_to_api_node g) })
  ]

  -- `delete` without relationships.
  unfoldable pub delete_api_node : ℕ → Reply Success
  delete_api_node id = elim (db.delete_node id) [
    | inl e ↦ failed "Error, cannot delete node"
    | inr none ↦ value (record { success = false; node = none })
    | inr (some g) ↦ value (record { success = true; node = some (graph_node_to_api_node g) })
  ]

  -- `getByDbId`.
  unfoldable pub get_by_db_id : ℕ → Reply ApiNode
  get_by_db_id db_id =
      elim (db.cypher_nodes_by "MATCH (n:NetAssistNode) WHERE n.db_sw_id = {origin_id} RETURN n"
        ("origin_id", db_id)) [
          | inl e ↦ failed (join "Failed to get node by database id: " e)
          | inr ns ↦ first_node ns
        ]

  -- `delete` with relationships, which gives the driver's result as it is.
  unfoldable pub delete_with_relationships : ℕ → Reply (List GraphNode)
  delete_with_relationships node_id =
      elim (db.cypher_delete "MATCH (n:NetAssistNode)-[r:LINKS_TO]-() WHERE Id(n)={id} DELETE n,r "
        ("id", node_id)) [ inl e ↦ failed "Error, cannot delete node" | inr result ↦ value result ]
