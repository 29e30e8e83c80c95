-- ===== src/UserInterface/MenuTests.antt =====
-- The menus after a registration and a login, with the address of the settings
-- (web-phalcon/public/js/netgraphz/{ui,settings}.js).
use netgraphz2_gpl.Common.{List, String, [], arith, false, map, none, some, true, ◌∷◌, ◌≡◌}
use netgraphz2_gpl.Common.Text.{codes}
use netgraphz2_gpl.Common.NumMap
use netgraphz2_gpl.Model.{Node}
use netgraphz2_gpl.PropText.Defs.{Fields, field, field_of, formatted, no_fields, plain}
use netgraphz2_gpl.PropText.Panel.{Template}
use netgraphz2_gpl.Store.Defs.{Store, get_node_by_id}
use netgraphz2_gpl.UserInterface.MenuRuns.{
  IsFitNode, copies, expected_address, inits, last_login, link_command, menu_texts, prerender_lem,
  registered, with_texts,
}
use netgraphz2_gpl.UserInterface.Menus.{
  MenuCall, MenuCommand, adds_command, inits_menus, menu_run, no_menus, opened_address, plugin,
  prerender,
}

abbrev refresh : MenuCommand
refresh = record { content = "Refresh"; select = plugin 0 }

abbrev host : Node
host = record { id = some 7; name = some "edge"; type = none; status = none; metrics = none }

abbrev properties_of : Node → Fields
properties_of n = field (codes "name") (plain (codes "edge")) no_fields

abbrev host_store : Store
host_store = record { nodes_by_id = (7, host) ∷ []; links_by_id = []; metrics = []; emitted = [] }

abbrev test_link : String × Template
test_link = (
  "test",
  record {
    parts =
        record {
          literal = codes "http://test.netgraphz2/";
          first = b'n';
          others = codes "ame";
          value = codes "edge";
        }
        ∷ [];
    end = [];
  },
)

abbrev calls : List MenuCall
calls = adds_command (some refresh) ∷ inits_menus (some true) ∷ []

test_link-IsFitNode : IsFitNode properties_of 2 (test_link ∷ []) (get_node_by_id 7 host_store)
unfolding get_node_by_id NumMap.lookup field_of
test_link-IsFitNode = ground arith

prerender_lem_example :
    let m = prerender (some (map link_command (test_link ∷ []))) (menu_run calls no_menus) in
    (map with_texts m.menus
      ≡ copies (inits calls) (
        menu_texts (last_login false calls) (registered calls),
        map link_command (test_link ∷ []),
      ))
    × (map (λ c. opened_address properties_of 2 c 7 host_store) (map link_command (test_link ∷ []))
        ≡ map
            (λ l. formatted (expected_address (get_node_by_id 7 host_store) l.1))
            (test_link ∷ []))
prerender_lem_example =
    prerender_lem properties_of 2 calls (test_link ∷ []) 7 host_store test_link-IsFitNode
