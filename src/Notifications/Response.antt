-- ===== src/Notifications/Response.antt =====
-- What the event handler asks of the database, and what it sends when the answer comes
-- (notifications/event_handler.js, notifications/dispatcher.js). `Node` is the database's node.
use netgraphz2_gpl.Common.{
  Bool, List, Option, String, arith, false, if◌then◌else◌, is_some, none, some, true, not, ℕ, ◌&&◌,
  ◌≡◌, str_eq,
}
use netgraphz2_gpl.Notifications.Body.{
  Aggregate, Body, Event, Notification, NotificationType, User, aggregated, host, plain, service,
}
use netgraphz2_gpl.Notifications.State.{Config}

pub data Query : Type 0 where
  ids_by_names : List String → Query
  node_by_name : String → Query

-- The database call of `_process_host_notification` and `_process_service_notification`.
unfoldable pub query : Notification → Query
query n = elim n.body [
  | aggregated a ↦ ids_by_names a.host_names
  | plain e ↦ elim n.type [ host ↦ node_by_name e.name | service ↦ node_by_name e.host_name ]
]

-- `icinga_type` of a message to the clients.
abbrev pub icinga_type : NotificationType → ℕ
icinga_type host = 0
icinga_type service = 1

pub record NodeMessage (Node : Type 0) : Type 0 where
  pub icinga_type : ℕ
  pub node : Node
  pub icinga : Event

pub record AggregateMessage : Type 0 where
  pub icinga_type : ℕ
  pub agg_type : ℕ
  pub agg_state_id : String
  pub agg_last_state_id : String
  pub agg_user : String
  pub agg_user_email : String
  pub service_names : Option (List String)
  pub host_names : List String
  pub nodes_id : List ℕ

-- `dispatcher.notifyAllClients` and `dispatcher.notifyByEmail`.
pub data Dispatch (Node : Type 0) : Type 0 where
  notify_node : NodeMessage Node → Dispatch Node
  notify_aggregate : AggregateMessage → Dispatch Node
  by_email : String → Dispatch Node

module _ {Node : Type 0} (c : Config) where
  -- `_handle_database_node_response`, which the module calls with no callbacks.
  unfoldable pub handle_database_node_response :
      Option Node → Event → Bool → NotificationType → Option (Dispatch Node)
  handle_database_node_response node body error type = if error then none else elim node [
    | none ↦ none
    | some n ↦ some (
        if str_eq body.user.name c.broadcast_user
        then notify_node (record { icinga_type = icinga_type type; node = n; icinga = body })
        else by_email body.user.email)
  ]

  -- `_handle_database_agg_nodes_response`; `none` is an answer that is no array.
  unfoldable pub handle_database_agg_nodes_response :
      Option (List ℕ) → Aggregate → Bool → NotificationType → Option (Dispatch Node)
  handle_database_agg_nodes_response nodes_id body error type =
      if error then none else elim nodes_id [
        | none ↦ none
        | some ids ↦ some (
            if str_eq body.agg_user c.broadcast_user
            then notify_aggregate (record {
              icinga_type = 2;
              agg_type = icinga_type type;
              agg_state_id = body.agg_state_id;
              agg_last_state_id = body.agg_last_state_id;
              agg_user = body.agg_user;
              agg_user_email = body.agg_user_email;
              service_names = body.service_names;
              host_names = body.host_names;
              nodes_id = ids;
            })
            else by_email body.agg_user_email)
      ]

-- What the handler relies on in the database library: its answers by name, `none` for an error.
pub record Database (Node : Type 0) : Type 0 where
  pub get_by_icinga_name : String → Option (Option Node)
  pub get_ids_by_icinga_names : List String → Option (List ℕ)

module _ {Node : Type 0} (c : Config) (db : Database Node) where
  -- A notification from its database call to what is sent.
  unfoldable pub deliver : Notification → Option (Dispatch Node)
  unfolding handle_database_node_response handle_database_agg_nodes_response
  deliver n = elim n.body [
    | aggregated a ↦ elim (db.get_ids_by_icinga_names a.host_names) [
      | none ↦ handle_database_agg_nodes_response c none a true n.type
      | some ids ↦ handle_database_agg_nodes_response c (some ids) a false n.type
    ]
    | plain e ↦
        elim (db.get_by_icinga_name (elim n.type [ host ↦ e.name | service ↦ e.host_name ])) [
          | none ↦ handle_database_node_response c none e true n.type
          | some node ↦ handle_database_node_response c node e false n.type
        ]
  ]

  -- The user that a notification is for.
  abbrev pub addressee : Body → User
  addressee (plain e) = e.user
  addressee (aggregated a) = record { name = a.agg_user; email = a.agg_user_email }

  -- Whether the database has an answer.
  abbrev pub answered : Notification → Bool
  answered n = elim n.body [
    | aggregated a ↦ is_some (db.get_ids_by_icinga_names a.host_names)
    | plain e ↦
        elim (db.get_by_icinga_name (elim n.type [ host ↦ e.name | service ↦ e.host_name ])) [
          | none ↦ false
          | some node ↦ is_some node
        ]
  ]

  abbrev pub is_broadcast : Option (Dispatch Node) → Bool
  is_broadcast none = false
  is_broadcast (some (by_email a)) = false
  is_broadcast (some _) = true

  -- The address of a mail.
  abbrev pub mailed : Option (Dispatch Node) → Option String
  mailed none = none
  mailed (some (by_email a)) = some a
  mailed (some (notify_node m)) = none
  mailed (some (notify_aggregate m)) = none

  -- Something is sent exactly when the database knows the host, or answers at all for a set of
  -- hosts; it goes to all clients exactly if it is for the broadcast user, else by mail to the
  -- address of the user that it is for.
  pub deliver-addressee :
      (n : Notification)
      → let broadcast = str_eq (addressee n.body).name c.broadcast_user in
        (is_some (deliver n) ≡ answered n)
        × (is_broadcast (deliver n) ≡ (answered n && broadcast))
        × (mailed (deliver n)
            ≡ (if answered n && not broadcast then some (addressee n.body).email else none))
  unfolding deliver
  deliver-addressee n = ground arith
