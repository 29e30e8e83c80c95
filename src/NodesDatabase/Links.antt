-- ===== src/NodesDatabase/Links.antt =====
-- The operations on links (node_netgraphz2/lib/links.js). An operation replies once through its
-- callback, or throws.
use netgraphz2_gpl.NodesDatabase.Tools.{
  ApiLink, GraphLink, api_link_to_graph_link, graph_link_to_api_link,
}
use netgraphz2_gpl.NodesDatabase.Nodes.{Reply, failed, nothing}
use Prim.Native.String.{◌++◌ as join}
use netgraphz2_gpl.Common.{List, Bool, Option, String, [], false, inl, inr, none, some, ℕ, ◌∷◌, ◌⊎◌}

-- The driver over the database's content: each function answers with an error text or a value, and
-- those that write leave the new content. `false` is `none`.
pub record LinksDriver (D : Type 0) : Type 0 where
  pub read_relationship : ℕ → D → String ⊎ GraphLink
  pub cypher_from : String → ℕ → D → String ⊎ List (GraphLink × ℕ)
  pub cypher_to : String → ℕ → D → String ⊎ List (ℕ × GraphLink)
  pub insert_relationship : Option ℕ → Option ℕ → String → GraphLink → D → (String ⊎ GraphLink) × D
  pub update_relationship : Option ℕ → GraphLink → D → (String ⊎ Option GraphLink) × D
  pub delete_relationship : ℕ → D → (String ⊎ Option GraphLink) × D

-- `{success: …, link: …}`.
pub record LinkSuccess : Type 0 where
  pub success : Bool
  pub link : Option ApiLink

-- What the callback gets.
pub data LinkResult : Type 0 where
  one_link : ApiLink → LinkResult
  links : List ApiLink → LinkResult
  outcome : LinkSuccess → LinkResult

pub data LinkReply : Type 0 where
  replied : Reply LinkResult → LinkReply
  thrown : LinkReply

abbrev reply_error : String → String → LinkReply
reply_error text e = replied (failed (join text e))

-- The operations, with their arguments.
pub data LinkCall : Type 0 where
  get_by_id : ℕ → LinkCall
  get_from_by_node_id : ℕ → LinkCall
  get_to_by_node_id : ℕ → LinkCall
  get_from_by_db_id : ℕ → LinkCall
  get_to_by_db_id : ℕ → LinkCall
  insert_link : ApiLink → LinkCall
  update_link : ApiLink → LinkCall
  delete_link : ℕ → LinkCall

-- The loops over the rows of an answer.
unfoldable pub links_from : ℕ → List (GraphLink × ℕ) → List ApiLink
links_from node_id [] = []
links_from node_id ((link, end_node) ∷ rows) =
    graph_link_to_api_link (record link { end = some end_node; start = some node_id })
    ∷ links_from node_id rows

unfoldable pub links_to : ℕ → List (ℕ × GraphLink) → List ApiLink
links_to node_id [] = []
links_to node_id ((start_node, link) ∷ rows) =
    graph_link_to_api_link (record link { start = some start_node; end = some node_id })
    ∷ links_to node_id rows

-- The callbacks that the operations give to the driver.
unfoldable pub reply_read : String ⊎ GraphLink → LinkReply
reply_read (inl e) = reply_error "Failed to get link by id, error " e
reply_read (inr g) = replied (Reply.value (one_link (graph_link_to_api_link g)))

unfoldable pub reply_from : ℕ → String ⊎ List (GraphLink × ℕ) → LinkReply
reply_from node_id (inl e) = reply_error "Failed to get links from node: " e
reply_from node_id (inr rows) = replied (Reply.value (links (links_from node_id rows)))

unfoldable pub reply_to : ℕ → String ⊎ List (ℕ × GraphLink) → LinkReply
reply_to node_id (inl e) = reply_error "Failed to get links from node: " e
reply_to node_id (inr rows) = replied (Reply.value (links (links_to node_id rows)))

unfoldable pub reply_insert : String ⊎ GraphLink → LinkReply
reply_insert (inl e) = reply_error "Error while inserting link: " e
reply_insert (inr g) = replied (Reply.value (one_link (graph_link_to_api_link g)))

unfoldable pub reply_update : String ⊎ Option GraphLink → LinkReply
reply_update (inl e) = reply_error "Error while updating link: " e
reply_update (inr none) = replied nothing
reply_update (inr (some g)) = replied (Reply.value (one_link (graph_link_to_api_link g)))

-- The function `graphLinkToApiLink` is not in scope where a deleted link is sent.
unfoldable pub reply_delete : String ⊎ Option GraphLink → LinkReply
reply_delete (inl e) = reply_error "Error while deleting link: " e
reply_delete (inr none) = replied (Reply.value (outcome (record { success = false; link = none })))
reply_delete (inr (some g)) = thrown

abbrev pub from_query : String
from_query =
    "MATCH (n:NetAssistNode)-[l:LINKS_TO]->(m:NetAssistNode) WHERE Id(n)={n_id} RETURN l,Id(m)"

abbrev pub to_query : String
to_query =
    "MATCH (n:NetAssistNode)-[l:LINKS_TO]->(m:NetAssistNode) WHERE Id(m)={m_id} RETURN Id(n),l"

module _ {D : Type 0} (db : LinksDriver D) where
  -- `insert`: the ends are arguments of their own and not among the properties.
  unfoldable pub insert_api_link : ApiLink → D → LinkReply × D
  unfolding reply_insert
  insert_api_link link d =
      let g = api_link_to_graph_link link false in
      let (given, d') =
        db.insert_relationship g.start g.end "LINKS_TO" (record g { start = none; end = none }) d in
      (reply_insert given, d')

  -- `update`.
  unfoldable pub update_api_link : ApiLink → D → LinkReply × D
  unfolding reply_update
  update_api_link link d =
      let (given, d') = db.update_relationship link.id (api_link_to_graph_link link false) d in
      (reply_update given, d')

  -- `delete`.
  unfoldable pub delete_api_link : ℕ → D → LinkReply × D
  unfolding reply_delete
  delete_api_link link_id d =
      let (given, d') = db.delete_relationship link_id d in (reply_delete given, d')

  -- One operation. `getByNodeDbId` reads `node_db_id`, which is not in scope there, and throws.
  unfoldable pub call_links : LinkCall → D → LinkReply × D
  unfolding insert_api_link update_api_link delete_api_link reply_read reply_from reply_to
  call_links (get_by_id id) d = (reply_read (db.read_relationship id d), d)
  call_links (get_from_by_node_id id) d = (reply_from id (db.cypher_from from_query id d), d)
  call_links (get_to_by_node_id id) d = (reply_to id (db.cypher_to to_query id d), d)
  call_links (get_from_by_db_id id) d = (thrown, d)
  call_links (get_to_by_db_id id) d = (thrown, d)
  call_links (insert_link link) d = insert_api_link link d
  call_links (update_link link) d = update_api_link link d
  call_links (delete_link id) d = delete_api_link id d
