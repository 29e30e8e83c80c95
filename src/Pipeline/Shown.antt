-- ===== src/Pipeline/Shown.antt =====
-- What the browser shows of a notification (notifications/event_handler.js,
-- web-phalcon/public/js/netgraphz/communication.js).
use Prim.Native.String.{◌++◌ as join}
use mathlib.Core.Path.{subst}
use netgraphz2_gpl.TabStop.Queue.{has}
use netgraphz2_gpl.Notifications.Response.{
  handle_database_agg_nodes_response, handle_database_node_response, icinga_type, addressee,
  deliver,
}
use netgraphz2_gpl.Notifications.State.{Config}
use netgraphz2_gpl.Common.{
  All, Bool, List, Option, String, [], false, inr, none, some, str_eq, true, ℕ, ◌∷◌, ◌≡◌,
  Bool-cases, inl, refl, ap, sym, ◌∙◌, ◌⊎◌,
}
use netgraphz2_gpl.Common.Text.{parse_int}
use netgraphz2_gpl.Communication.Defs.{
  Effect, Level, Outcome, done, is_service_problem, handle_aggregated, handle_icinga,
  handle_message, Message,
}
use netgraphz2_gpl.Communication.Host.{
  all_with, host_levels, levels, updated, handle_aggregated_host_lem, handle_host_lem,
}
use netgraphz2_gpl.Communication.Service.{
  service_levels, handle_aggregated_service_lem, handle_service_lem,
}
use netgraphz2_gpl.NodesDatabase.Tools.{ApiNode, GraphNode, graph_node_to_api_node}
use netgraphz2_gpl.Notifications.Body.{
  Body, Event, Notification, NotificationType, aggregated, host, plain, service, Aggregate,
}
use netgraphz2_gpl.Pipeline.Defs.{
  answer_ids, in_browser, received, answer_node, icinga_of, node_ref, connection_nodes, notified,
}
use netgraphz2_gpl.NodesDatabase.Nodes.{
  Reply, get_by_icinga_name, get_ids_by_icinga_names, value, nothing, failed, Neo4j, first_node,
}

-- The nodes of the database have identifiers.
abbrev pub HasIds : Neo4j → Type 0
HasIds db =
    (text : String) (ps : List (String × String)) (ns : List GraphNode)
    → db.cypher_nodes text ps ≡ inr ns
    → All (λ n. (id : ℕ) × (n.id ≡ some id)) ns

abbrev pub host_of : Event → NotificationType → String
host_of e host = e.name
host_of e service = e.host_name

abbrev pub single_id : Reply ApiNode → Option (List ℕ)
single_id (value n) = elim n.id [ none ↦ none | some id ↦ some (id ∷ []) ]
single_id nothing = none
single_id (failed e) = none

-- The identifiers that the database has for the hosts of a notification.
abbrev pub known_ids : Neo4j → Notification → Option (List ℕ)
known_ids db n = elim n.body [
  | aggregated a ↦ answer_ids (get_ids_by_icinga_names db a.host_names)
  | plain e ↦ single_id (get_by_icinga_name db (host_of e n.type))
]

abbrev pub state_of : Body → String
state_of (plain e) = e.state_id
state_of (aggregated a) = a.agg_state_id

abbrev pub is_problem_state : NotificationType → String → Bool
is_problem_state host id = str_eq id "1"
is_problem_state service id = is_service_problem (parse_int id)

abbrev pub state_levels : NotificationType → String → List Level
state_levels host id = host_levels id
state_levels service id = service_levels (parse_int id)

-- What the browser does about a notification, by the identifiers of its hosts and whether it is
-- for the broadcast user.
abbrev pub IsShown : Notification → Option (List ℕ) → Bool → Option Outcome → Type 0
IsShown n none broadcast o = o ≡ none
IsShown n (some ids) false o = o ≡ none
IsShown n (some ids) true o =
    (es : List Effect) × (o ≡ some (done es))
    × (updated es ≡ all_with (is_problem_state n.type (state_of n.body)) ids)
    × (levels es ≡ state_levels n.type (state_of n.body))

-- The message about a node.
abbrev message_of : NotificationType → ApiNode → Event → Message
message_of type n e = record {
  type = 0;
  icinga_type = icinga_type type;
  agg_type = none;
  agg_state_id = "";
  agg_last_state_id = "";
  nodes_id = [];
  host_names = [];
  service_names = [];
  node = node_ref n;
  icinga = icinga_of e;
}

node_ref_lem :
    (n : ApiNode) (id : ℕ)
    → n.id ≡ some id
    → node_ref n ≡ some (record { id = id; name = elim n.name [ none ↦ "undefined" | some s ↦ s ] })
node_ref_lem n id has = rw has refl

module _ (c : Config) where
  -- What becomes of an answer to `getIdsByIcingaNames`.
  aggregate-IsShown :
      (a : Aggregate) (type : NotificationType) (r : Option (List ℕ))
      → IsShown
          (record { body = aggregated a; type = type })
          r
          (str_eq a.agg_user c.broadcast_user)
          (in_browser (elim r [
            | none ↦ handle_database_agg_nodes_response c none a true type
            | some ids ↦ handle_database_agg_nodes_response c (some ids) a false type
          ]))
  unfolding in_browser received handle_message handle_icinga handle_aggregated
      handle_database_agg_nodes_response
  aggregate-IsShown a type none = refl
  aggregate-IsShown a host (some ids) = elim (Bool-cases (str_eq a.agg_user c.broadcast_user)) [
    | inl e ↦ let lem = handle_aggregated_host_lem _ in rw e (_, refl, lem.0, lem.1)
    | inr e ↦ rw e refl
  ]
  aggregate-IsShown a service (some ids) = elim (Bool-cases (str_eq a.agg_user c.broadcast_user)) [
    | inl e ↦ let lem = handle_aggregated_service_lem _ in rw e (_, refl, lem.0, lem.1)
    | inr e ↦ rw e refl
  ]

  known-IsShown :
      (e : Event) (type : NotificationType) (n : ApiNode) (id : ℕ)
      → n.id ≡ some id
      → IsShown
          (record { body = plain e; type = type })
          (some (id ∷ []))
          (str_eq e.user.name c.broadcast_user)
          (in_browser (handle_database_node_response c (some n) e false type))
  unfolding in_browser received handle_message handle_icinga handle_database_node_response
  known-IsShown e host n id has = elim (Bool-cases (str_eq e.user.name c.broadcast_user)) [
    | inl b ↦
        let (es, eq, a, l) = handle_host_lem (message_of host n e) _ (node_ref_lem n id has) in
        rw b (es, ap some eq, a, l)
    | inr b ↦ rw b refl
  ]
  known-IsShown e service n id has = elim (Bool-cases (str_eq e.user.name c.broadcast_user)) [
    | inl b ↦
        let (es, eq, a, l) =
          handle_service_lem (message_of service n e) _ (node_ref_lem n id has) in
        rw b (es, ap some eq, a, l)
    | inr b ↦ rw b refl
  ]

  -- What becomes of an answer to `getByIcingaName`; the node has an identifier.
  node-IsShown :
      (e : Event) (type : NotificationType) (r : Reply ApiNode)
      → ((n : ApiNode) → r ≡ value n → (id : ℕ) × (n.id ≡ some id))
      → IsShown
          (record { body = plain e; type = type })
          (single_id r)
          (str_eq e.user.name c.broadcast_user)
          (in_browser (elim (answer_node r) [
            | none ↦ handle_database_node_response c none e true type
            | some node ↦ handle_database_node_response c node e false type
          ]))
  unfolding in_browser handle_database_node_response
  node-IsShown e type nothing h = refl
  node-IsShown e type (failed text) h = refl
  node-IsShown e type (value n) h =
      let (id, has) = h n refl in
      let single : single_id (value n) ≡ some (id ∷ []) = rw has refl in
      subst
        (λ o.
          IsShown (record { body = plain e; type = type }) o (str_eq e.user.name c.broadcast_user)
            (in_browser (handle_database_node_response c (some n) e false type)))
        (sym single) (known-IsShown e type n id has)

first_id :
    (db : Neo4j) (r : String ⊎ List GraphNode) (n : ApiNode)
    → ((ns : List GraphNode) → r ≡ inr ns → All (λ g. (id : ℕ) × (g.id ≡ some id)) ns)
    → (elim r [
      | inl e ↦ failed (join "Error during cypher request: " e)
      | inr ns ↦ first_node db ns
    ])
      ≡ value n
    → (id : ℕ) × (n.id ≡ some id)
unfolding graph_node_to_api_node
first_id db (inl text) n h e = cc
first_id db (inr []) n h e = cc
first_id db (inr (g ∷ gs)) n h e =
    let (id, has) = (h (g ∷ gs) refl).0 in
    let same : graph_node_to_api_node g ≡ n = cc e in (id, ap (λ m. m.id) (sym same) ∙ has)

plain-IsShown :
    (c : Config) (db : Neo4j) (e : Event) (type : NotificationType)
    → HasIds db
    → IsShown
        (record { body = plain e; type = type })
        (single_id (get_by_icinga_name db (host_of e type)))
        (str_eq e.user.name c.broadcast_user)
        (notified c db (record { body = plain e; type = type }))
unfolding notified deliver connection_nodes get_by_icinga_name
plain-IsShown c db e host h =
    node-IsShown c e host (get_by_icinga_name db e.name) (λ n. first_id db _ n (h _ _))
plain-IsShown c db e service h =
    node-IsShown c e service (get_by_icinga_name db e.host_name) (λ n. first_id db _ n (h _ _))

body-IsShown :
    (c : Config) (db : Neo4j) (body : Body) (type : NotificationType)
    → HasIds db
    → let n : Notification = record { body = body; type = type } in
      IsShown n
        (known_ids db n)
        (str_eq (addressee c (connection_nodes db) body).name c.broadcast_user)
        (notified c db n)
unfolding notified deliver connection_nodes
body-IsShown c db (plain e) type h = plain-IsShown c db e type h
body-IsShown c db (aggregated a) type h =
    aggregate-IsShown c a type (answer_ids (get_ids_by_icinga_names db a.host_names))

-- A notification that is handed on reaches a browser if it is for the broadcast user and the
-- database has an answer for its hosts, and never else. The handler then ends with no exception:
-- each node of the answer is updated once, in order, as a problem exactly if the host is down or the
-- state of the service is 1 or 2, and there is one notice, or none, as the state says.
pub notified_lem :
    (c : Config) (db : Neo4j) (n : Notification)
    → HasIds db
    → IsShown n
        (known_ids db n)
        (str_eq (addressee c (connection_nodes db) n.body).name c.broadcast_user)
        (notified c db n)
notified_lem c db n h = body-IsShown c db n.body n.type h
