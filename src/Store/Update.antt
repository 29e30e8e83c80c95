-- ===== src/Store/Update.antt =====
-- What `updateNode` does (web-phalcon/public/js/netgraphz/store.js).

use netgraphz2_gpl.Common.NumMap
use mathlib.Core.List.{append_assoc}
use netgraphz2_gpl.Model.{Node}
use netgraphz2_gpl.Store.Defs.{
  Store, add_node, before_add_node, before_update_node, get_node_by_id, put_node, store_node,
  update_node,
}
use netgraphz2_gpl.Common.{ℕ, [], arith, if◌then◌else◌, is_some, some, ◌++◌, ◌==◌, ◌∷◌, ◌≡◌}

-- With an identifier, the node is found under it afterwards and every other node as before, links
-- stay, and exactly two events are emitted, before and after the write, of an update if the
-- identifier was known and else of an addition.
pub store_node_lem :
    (n : Node) (id : ℕ) (s : Store)
    → n.id ≡ some id
    → ((j : ℕ)
        → get_node_by_id j (store_node n s) ≡ (if id == j then some n else get_node_by_id j s))
      × ((store_node n s).links_by_id ≡ s.links_by_id)
      × ((store_node n s).emitted
          ≡ s.emitted
            ++ (if is_some (get_node_by_id id s)
                then before_update_node n ∷ update_node n ∷ []
                else before_add_node n ∷ add_node n ∷ []))
unfolding store_node put_node
store_node_lem n id s e = (
  λ j. ground (arith, NumMap.lookup-insert id j n s.nodes_by_id),
  ground arith,
  ground (
    arith,
    append_assoc s.emitted (before_update_node n ∷ []) (update_node n ∷ []),
    append_assoc s.emitted (before_add_node n ∷ []) (add_node n ∷ []),
  ),
)
