-- ===== src/TabStop/Defs.antt =====
-- The state and the handlers of web-phalcon/public/js/netgraphz/ui.tabstop.js.

use netgraphz2_gpl.Model.{Node, state_node_down, state_node_warn}
use netgraphz2_gpl.Utils.{get_node_pref_effective_state}
use netgraphz2_gpl.Common.{
  ℕ, Bool, List, Option, String, [], erase_idx, false, get_elem?, if◌then◌else◌, length, ltb, none,
  some, suc, zero, ◌++◌, ◌+◌, ◌-◌, ◌==◌, ◌||◌, ◌∷◌,
}

-- `_tab_stop_queue`, of which only identifiers are read, and `_tab_stop`; `selected` is the log of
-- the calls of `ui.select_node`, oldest first.
pub record TabStop : Type 0 where
  pub queue : List ℕ
  pub tab_stop : ℕ
  pub selected : List ℕ

-- The loop over the queue: it goes on after a hit, so the last hit counts. `none` is -1.
unfoldable pub index_of : ℕ → ℕ → List ℕ → Option ℕ → Option ℕ
index_of id i [] index = index
index_of id i (x ∷ xs) index = index_of id (i + 1) xs (if x == id then some i else index)

-- `ef_state == STATE_NODE_DOWN || ef_state == STATE_NODE_WARN`.
abbrev pub is_problem : Option ℕ → Bool
is_problem none = false
is_problem (some k) = k == state_node_down || k == state_node_warn

-- `handle_node_update` for the node `id` whose effective state is `state`.
unfoldable pub handle_node_update : ℕ → Option ℕ → TabStop → TabStop
unfolding index_of
handle_node_update id state t = elim (index_of id 0 t.queue none) [
  | none ↦ if is_problem state then record t { queue = t.queue ++ id ∷ [] } else t
  | some i ↦ if is_problem state then t else record t { queue = erase_idx t.queue i }
]

-- The subscription to `update_nodes`; `source` is the setting `default_state_source`.
unfoldable pub handle_nodes_update : Option String → List (ℕ × Node) → TabStop → TabStop
handle_nodes_update source [] t = t
handle_nodes_update source ((id, n) ∷ ns) t =
    handle_nodes_update source ns (handle_node_update id (get_node_pref_effective_state source n) t)

-- `ui.select_node(_tab_stop_queue[_tab_stop].id)`, then the new `_tab_stop`; the entry is there.
unfoldable pub select_at : Option ℕ → ℕ → TabStop → TabStop
select_at none next t = record t { tab_stop = next }
select_at (some id) next t = record t { tab_stop = next; selected = t.selected ++ id ∷ [] }

-- `_handle_tab_fwd_switch`. It calls itself at most once, so `fuel` 2 is enough; `none` is too
-- little.
unfoldable pub tab_fwd : ℕ → TabStop → Option TabStop
unfolding select_at
tab_fwd zero t = none
tab_fwd (suc fuel) t =
    let again = tab_fwd fuel (record t { tab_stop = 0 }) in
    if length t.queue == 0
    then some t
    else if ltb t.tab_stop (length t.queue)
    then some (
        select_at (get_elem? t.queue t.tab_stop)
          (if t.tab_stop + 1 == length t.queue then 0 else t.tab_stop + 1) t)
    else again

-- `_handle_tab_bkwd_switch`; the queue is not empty where 1 is subtracted from its length.
unfoldable pub tab_bkwd : ℕ → TabStop → Option TabStop
unfolding select_at
tab_bkwd zero t = none
tab_bkwd (suc fuel) t =
    let again = tab_bkwd fuel (record t { tab_stop = length t.queue - 1 }) in
    if length t.queue == 0
    then some t
    else if ltb t.tab_stop (length t.queue)
    then some (
        select_at (get_elem? t.queue t.tab_stop)
          (if t.tab_stop == 0 then length t.queue - 1 else t.tab_stop - 1) t)
    else again

-- `init`: the down nodes, then those with a warning.
unfoldable pub init : Bool → List ℕ → List ℕ → TabStop → TabStop
init enabled down warning t = if enabled then record t { queue = down ++ warning } else t
