-- ===== src/NodesDatabase/LinkCalls.antt =====
-- What the operations on links reply (node_netgraphz2/lib/links.js).
use netgraphz2_gpl.NodesDatabase.Links.{
  get_by_id, LinkCall, LinkReply, LinkResult, LinksDriver, call_links, delete_api_link, delete_link,
  from_query, get_from_by_db_id, get_from_by_node_id, get_to_by_db_id, get_to_by_node_id,
  insert_api_link, insert_link, replied, reply_delete, reply_from, reply_insert, reply_read,
  reply_to, reply_update, thrown, to_query, update_api_link, update_link,
}
use netgraphz2_gpl.NodesDatabase.Tools.{GraphLink, api_link_to_graph_link}
use netgraphz2_gpl.NodesDatabase.Nodes.{Reply, failed, nothing}
use Prim.Native.String.{◌++◌ as join}
use netgraphz2_gpl.Common.{List, Bool, Option, String, false, inl, inr, none, some, true, ◌⊎◌, ℕ}

abbrev pub error_of {ℓ} : {A : Type ℓ} → String ⊎ A → Option String
error_of (inl e) = some e
error_of (inr a) = none

-- A link was deleted.
abbrev pub is_deleted : String ⊎ Option GraphLink → Bool
is_deleted (inl e) = false
is_deleted (inr none) = false
is_deleted (inr (some g)) = true

-- The text before the driver's error.
abbrev pub error_text : LinkCall → String
error_text (get_by_id id) = "Failed to get link by id, error "
error_text (get_from_by_node_id id) = "Failed to get links from node: "
error_text (get_to_by_node_id id) = "Failed to get links from node: "
error_text (get_from_by_db_id id) = "Failed to get links from node: "
error_text (get_to_by_db_id id) = "Failed to get links from node: "
error_text (insert_link link) = "Error while inserting link: "
error_text (update_link link) = "Error while updating link: "
error_text (delete_link id) = "Error while deleting link: "

module _ {D : Type 0} (db : LinksDriver D) where
  -- The error that the driver answers, if the operation asks it and it fails.
  abbrev pub driver_error : LinkCall → D → Option String
  driver_error (get_by_id id) d = error_of (db.read_relationship id d)
  driver_error (get_from_by_node_id id) d = error_of (db.cypher_from from_query id d)
  driver_error (get_to_by_node_id id) d = error_of (db.cypher_to to_query id d)
  driver_error (get_from_by_db_id id) d = none
  driver_error (get_to_by_db_id id) d = none
  driver_error (insert_link link) d =
      let g = api_link_to_graph_link link false in
      error_of
        (db.insert_relationship g.start g.end "LINKS_TO" (record g { start = none; end = none })
          d).0
  driver_error (update_link link) d =
      error_of (db.update_relationship link.id (api_link_to_graph_link link false) d).0
  driver_error (delete_link id) d = error_of (db.delete_relationship id d).0

  -- A search by the switch's identifier, and a deletion of a link that is there.
  abbrev pub stops_by_exception : LinkCall → D → Bool
  stops_by_exception (get_from_by_db_id id) d = true
  stops_by_exception (get_to_by_db_id id) d = true
  stops_by_exception (delete_link id) d = is_deleted (db.delete_relationship id d).0
  stops_by_exception c d = false

-- An error with its text, an exception, or a reply that is no error.
pub data Replies (text : String) : Option String → Bool → LinkReply → Type 0 where
  with_error : (e : String) {b : Bool} → Replies text (some e) b (replied (failed (join text e)))
  with_exception : Replies text none true thrown
  with_nothing : Replies text none false (replied nothing)
  with_value : (r : LinkResult) → Replies text none false (replied (Reply.value r))

reply_read-Replies :
    (given : String ⊎ GraphLink)
    → Replies "Failed to get link by id, error " (error_of given) false (reply_read given)
unfolding reply_read
reply_read-Replies (inl e) = with_error e
reply_read-Replies (inr a) = with_value _

reply_from-Replies :
    (id : ℕ) (given : String ⊎ List (GraphLink × ℕ))
    → Replies "Failed to get links from node: " (error_of given) false (reply_from id given)
unfolding reply_from
reply_from-Replies id (inl e) = with_error e
reply_from-Replies id (inr a) = with_value _

reply_to-Replies :
    (id : ℕ) (given : String ⊎ List (ℕ × GraphLink))
    → Replies "Failed to get links from node: " (error_of given) false (reply_to id given)
unfolding reply_to
reply_to-Replies id (inl e) = with_error e
reply_to-Replies id (inr a) = with_value _

reply_insert-Replies :
    (given : String ⊎ GraphLink)
    → Replies "Error while inserting link: " (error_of given) false (reply_insert given)
unfolding reply_insert
reply_insert-Replies (inl e) = with_error e
reply_insert-Replies (inr a) = with_value _

reply_update-Replies :
    (given : String ⊎ Option GraphLink)
    → Replies "Error while updating link: " (error_of given) false (reply_update given)
unfolding reply_update
reply_update-Replies (inl e) = with_error e
reply_update-Replies (inr none) = with_nothing
reply_update-Replies (inr (some g)) = with_value _

reply_delete-Replies :
    (given : String ⊎ Option GraphLink)
    → Replies "Error while deleting link: " (error_of given) (is_deleted given) (reply_delete given)
unfolding reply_delete
reply_delete-Replies (inl e) = with_error e
reply_delete-Replies (inr none) = with_value _
reply_delete-Replies (inr (some g)) = with_exception

module _ {D : Type 0} (db : LinksDriver D) where
  -- An operation replies the driver's error behind its own text if the driver fails. Else it throws
  -- if it is a search by the switch's identifier or deletes a link that is there, and in every other
  -- case replies without an error.
  pub call_links_lem :
      (c : LinkCall) (d : D)
      → Replies
          (error_text c)
          (driver_error db c d)
          (stops_by_exception db c d)
          (call_links db c d).0
  unfolding call_links insert_api_link update_api_link delete_api_link
  call_links_lem (get_by_id id) d = reply_read-Replies (db.read_relationship id d)
  call_links_lem (get_from_by_node_id id) d = reply_from-Replies id (db.cypher_from from_query id d)
  call_links_lem (get_to_by_node_id id) d = reply_to-Replies id (db.cypher_to to_query id d)
  call_links_lem (get_from_by_db_id id) d = with_exception
  call_links_lem (get_to_by_db_id id) d = with_exception
  call_links_lem (insert_link link) d = reply_insert-Replies _
  call_links_lem (update_link link) d = reply_update-Replies _
  call_links_lem (delete_link id) d = reply_delete-Replies (db.delete_relationship id d).0
