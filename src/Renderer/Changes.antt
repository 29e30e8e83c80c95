-- ===== src/Renderer/Changes.antt =====
-- The store and the drawn graph together: the store emits an event before it writes, the renderer
-- acts on it, and the store writes (web-phalcon/public/js/netgraphz/{store,renderer}.js).
use mathlib.Core.Option
use netgraphz2_gpl.Numbers.{Numbers}
use netgraphz2_gpl.Model.{Node}
use netgraphz2_gpl.Renderer.Status.{Graph, on_event}
use netgraphz2_gpl.Store.Defs.{
  Store, StoreEvent, before_add_node, before_update_node, before_update_nodes, get_node_by_id,
  store_node, store_nodes,
}
use netgraphz2_gpl.Common.{List, Option, String, [], if◌then◌else◌, is_some, none, some, ◌>>=◌, ◌∷◌}

-- A call of `updateNode` or of `updateNodes`.
pub data Change : Type 0 where
  node_changed : Node → Change
  nodes_changed : List Node → Change

-- The event that the store emits first.
unfoldable pub first_event : Change → Store → Option StoreEvent
first_event (node_changed n) s =
    Option.map
      (λ id. if is_some (get_node_by_id id s) then before_update_node n else before_add_node n) n.id
first_event (nodes_changed ns) s = some (before_update_nodes ns)

-- What the store writes, and emits.
unfoldable pub write : Change → Store → Store
write (node_changed n) s = store_node n s
write (nodes_changed ns) s = store_nodes ns s

module _ {W V Edge : Type 0} (num : Numbers W) (graph : Graph V Edge) (source : Option String) where
  -- What the renderer does before the store writes.
  unfoldable pub draw : Option StoreEvent → Store → V → Option (Store × V)
  unfolding on_event
  draw none s v = some (s, v)
  draw (some e) s v = on_event num graph source e s v

  unfoldable pub change : Change → Store → V → Option (Store × V)
  unfolding first_event write draw
  change c s v = do t ← draw (first_event c s) s v; some (write c t.0, t.1)

  unfoldable pub change_all : List Change → Store → V → Option (Store × V)
  unfolding change
  change_all [] s v = some (s, v)
  change_all (c ∷ cs) s v = do t ← change c s v; change_all cs t.0 t.1
