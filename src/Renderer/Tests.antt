-- ===== src/Renderer/Tests.antt =====
-- The renderer's theorems on two drawn nodes and an edge
-- (web-phalcon/public/js/netgraphz/renderer.js).
use netgraphz2_gpl.Common.NumMap.{values}
use netgraphz2_gpl.Renderer.Edges.{render_graph_lem}
use netgraphz2_gpl.Renderer.Elements.{EdgeElement, render_graph}
use netgraphz2_gpl.Renderer.Joins.{HasElement, JoinOnce, SamePair}
use mathlib.Core.List.{Memᴰ}
use netgraphz2_gpl.Common.NumMap
use netgraphz2_gpl.Numbers.{Numbers}
use netgraphz2_gpl.Common.Text.{decimal}
use netgraphz2_gpl.Model.{Link, Node}
use netgraphz2_gpl.Renderer.Changes.{Change, change_all, node_changed, nodes_changed}
use netgraphz2_gpl.Renderer.Laws.{GraphLaws, SameElements, Shows}
use netgraphz2_gpl.Renderer.Status.{Graph, class_of, state_class}
use netgraphz2_gpl.Renderer.Sync.{Sync, change_all-Sync}
use netgraphz2_gpl.Store.Defs.{
  Store, emit, empty_store, get_node_by_id, load_all, put_links, put_node, put_nodes,
}
use netgraphz2_gpl.Utils.{get_node_pref_effective_state, latest_status, pref_status}
use netgraphz2_gpl.Common.{
  List, Bool, String, [], arith, false, if◌then◌else◌, max, min, none, refl, some, str_eq, suc,
  true, zero, ℕ, ◌&&◌, ◌*◌, ◌+◌, ◌-◌, ◌/◌, ◌==◌, ◌||◌, ◌∷◌, ◌≡◌, ltb, All, leb,
}

-- Numbers rounded to whole ones, with -1 as 0.
abbrev pub whole : Numbers ℕ
whole = record {
  of_ℕ = λ n. n;
  minus_one = 0;
  add = ◌+◌;
  sub = ◌-◌;
  mul = ◌*◌;
  div = ◌/◌;
  min = min;
  max = max;
  round = λ n. n;
  floor = λ n. n;
  log10 = λ n. n;
  pow = λ m n. m;
  eq = ◌==◌;
  lt = ltb;
  le = leb;
  to_text = decimal;
  to_fixed = λ places n. decimal n;
}

-- The classes of each element, and the edges whose style was set.
abbrev Canvas : Type 0
Canvas = (ℕ → String → Bool) × List ℕ

-- The nodes 1 and 2, and the edge 4 between them.
abbrev canvas_graph : Graph Canvas ℕ
canvas_graph = record {
  has_node = λ id v. id == 1 || id == 2;
  has_class = λ id c v. v.0 id c;
  add_class = λ id c v. (λ j d. if id == j && str_eq c d then true else v.0 j d, v.1);
  remove_class = λ id c v. (λ j d. if id == j && str_eq c d then false else v.0 j d, v.1);
  connected_edges = λ id v. (4, some 4) ∷ [];
  css = λ e style v. (v.0, e ∷ v.1);
}

canvas_laws : GraphLaws canvas_graph
canvas_laws = record {
  has_class-add_class = λ id c d v h. ground arith;
  has_class-remove_class = λ id c d v. ground arith;
  add_class_other = λ id j c d v h. ground arith;
  remove_class_other = λ id j c d v h. ground arith;
  has_class-css = λ e style j d v. refl;
  has_node-add_class = λ id j c v. refl;
  has_node-remove_class = λ id j c v. refl;
  has_node-css = λ e style j v. refl;
  edges-add_class = λ id j c v. refl;
  edges-remove_class = λ id j c v. refl;
  edges-css = λ e style j v. refl;
}

abbrev drawn_node : ℕ → ℕ → Node
drawn_node id state = record {
  id = some id;
  name = some "switch";
  type = some 1;
  status = some (record { source = "icinga"; effective_state = state; time = 5 } ∷ []);
  metrics = some (record { name = "tx"; values = record { value = 3; time = 2 } ∷ [] } ∷ []);
}

abbrev drawn_link : Link
drawn_link = record {
  id = some 4;
  link_speed = some 100;
  rx_octets = none;
  tx_octets = some "tx";
  duplex = none;
  src = record { id = 1; port_id = none; node = none };
  dst = record { id = 2; port_id = none; node = none };
}

abbrev drawn_store : Store
drawn_store = load_all (drawn_node 1 0 ∷ drawn_node 2 1 ∷ []) (drawn_link ∷ []) empty_store

abbrev canvas : Canvas
canvas = (λ j d. (j == 1 && str_eq d "node_up") || (j == 2 && str_eq d "node_down"), [])

canvas-shown :
    (id : ℕ)
    → canvas_graph.has_node id canvas ≡ true
    → (n : Node) × (get_node_by_id id drawn_store ≡ some n)
      × Shows canvas_graph id (class_of none n) canvas
unfolding load_all get_node_by_id class_of get_node_pref_effective_state state_class pref_status
    latest_status put_nodes put_node put_links emit NumMap.lookup NumMap.insert
canvas-shown zero h = cc
canvas-shown (suc zero) h = (drawn_node 1 0, refl, (refl, (refl, (refl, (refl, (refl, tt))))))
canvas-shown (suc (suc zero)) h = (drawn_node 2 1, refl, (refl, (refl, (refl, (refl, (refl, tt))))))
canvas-shown (suc (suc (suc n))) h = absurd (ground arith)

canvas-Sync : Sync whole canvas_graph none canvas_laws drawn_store canvas
unfolding load_all put_links NumMap.insert NumMap.lookup put_nodes put_node emit
canvas-Sync = record { shown = canvas-shown; linked = λ j. ((4, refl, refl), tt) }

abbrev changes : List Change
changes =
    nodes_changed (drawn_node 1 1 ∷ drawn_node 2 0 ∷ [])
    ∷ node_changed (drawn_node 1 4)
    ∷ node_changed (drawn_node 7 0)
    ∷ []

change_all-Sync_example :
    (s' : Store) × (v' : Canvas) × (change_all whole canvas_graph none changes drawn_store canvas
      ≡ some (s', v'))
    × SameElements canvas_graph canvas v'
    × Sync whole canvas_graph none canvas_laws s' v'
change_all-Sync_example =
    change_all-Sync whole canvas_graph none canvas_laws changes drawn_store canvas
      (((λ id e. ground arith), ((λ id e. refl), tt)), (tt, (tt, tt))) canvas-Sync

-- The same link in both directions, and a link to a node that is not there.
abbrev drawn_links : List Link
drawn_links =
    drawn_link
    ∷ record drawn_link {
      id = some 5;
      src = record { id = 2; port_id = none; node = none };
      dst = record { id = 1; port_id = none; node = none };
    }
    ∷ record drawn_link { dst = record { id = 9; port_id = none; node = none } }
    ∷ []

render_graph_lem_example :
    let (xs, es) =
      render_graph whole none (drawn_node 1 0 ∷ drawn_node 2 1 ∷ []) drawn_links drawn_store in
    All (λ e. HasElement xs e.source × HasElement xs e.target) es
    × JoinOnce es
    × ((e : EdgeElement) × Memᴰ e es × SamePair 1 2 e.source e.target)
render_graph_lem_example =
    render_graph_lem whole none (drawn_node 1 0 ∷ drawn_node 2 1 ∷ []) drawn_links drawn_store
      drawn_link (Memᴰ.head refl) (drawn_node 1 0, Memᴰ.head refl, refl)
      (drawn_node 2 1, Memᴰ.tail (Memᴰ.head refl), refl)
