-- ===== src/Communication/Defs.antt =====
-- The message handlers of web-phalcon/public/js/netgraphz/communication.js.
use netgraphz2_gpl.Common.Text.{decimal, parse_int}
use netgraphz2_gpl.Model.{Node, state_node_down, state_node_up, state_node_warn}
use netgraphz2_gpl.Store.Defs.{Store, store_node}
use netgraphz2_gpl.Utils.{get_node_state_from_icinga}
use Prim.Native.String.{◌++◌ as join}
use netgraphz2_gpl.Common.{
  ℕ, Bool, List, Option, String, [], false, if◌then◌else◌, length, ltb, none, some, str_eq, ◌&&◌,
  ◌++◌, ◌+◌, ◌==◌, ◌||◌, ◌∷◌,
}

-- `message.node`.
pub record NodeRef : Type 0 where
  pub id : ℕ
  pub name : String

-- `message.icinga`.
pub record Icinga : Type 0 where
  pub state_id : String
  pub last_state_id : String
  pub name : String
  pub host_name : String
  pub output : String

-- The fields of a message that the handlers read; `none` is `undefined`.
pub record Message : Type 0 where
  pub type : ℕ
  pub icinga_type : ℕ
  pub agg_type : Option ℕ
  pub agg_state_id : String
  pub agg_last_state_id : String
  pub nodes_id : List ℕ
  pub host_names : List String
  pub service_names : List String
  pub node : Option NodeRef
  pub icinga : Icinga

-- `sendSuccess`, `sendWarning`, `sendError` and `send` of the notifications module.
pub data Level : Type 0 where
  success warning error info : Level

-- `update` is a call of `performNodeUpdate`, `notice` one of the notifications module.
pub data Effect : Type 0 where
  update : ℕ → Bool → Effect
  notice : Level → String → String → Effect

-- What a handler did, or that it stopped by an exception.
pub data Outcome : Type 0 where
  done : List Effect → Outcome
  throws : Outcome

-- The loops over `message.nodes_id`.
unfoldable pub updates : Bool → List ℕ → List Effect
updates problem [] = []
updates problem (id ∷ ids) = update id problem ∷ updates problem ids

-- The loops that write `host_names` with commas between: `i` is the index, `n` the length.
unfoldable pub join_names : ℕ → ℕ → List String → String → String
join_names i n [] names = names
join_names i n (x ∷ xs) names =
    let longer = join names x in
    join_names (i + 1) n xs (if ltb (i + 1) n then join longer "," else longer)

abbrev pub nodes_text : List String → String
nodes_text hosts = join "Nodes: " (join_names 0 (length hosts) hosts "")

-- `state == STATE_NODE_WARN || state == STATE_NODE_DOWN`.
abbrev pub is_host_problem : Option ℕ → Bool
is_host_problem none = false
is_host_problem (some k) = k == state_node_warn || k == state_node_down

-- The `switch(state)` on a host state. `STATE_NODE_UNREACHABLE` is no field of `core.node_state`,
-- so its case is taken for a state that is `undefined`.
unfoldable pub by_host_state {ℓ} : {A : Type ℓ} → Option ℕ → A → A → A → A → A → A
by_host_state none up warn down unreachable other = unreachable
by_host_state (some k) up warn down unreachable other =
    if k == state_node_up
    then up
    else if k == state_node_warn
    then warn
    else if k == state_node_down
    then down
    else other

-- `handleAggregatedHostNotification`.
unfoldable pub handle_aggregated_host : Message → List Effect
unfolding by_host_state
handle_aggregated_host m =
    let state = get_node_state_from_icinga m.agg_state_id in
    let title = join (decimal (length m.host_names)) " nodes" in
    let text = nodes_text m.host_names in
    updates (is_host_problem state) m.nodes_id
    ++ by_host_state state (notice success (join title " goes up") text ∷ [])
        (notice warning (join title " has some problems!") text ∷ [])
        (notice error
            (join title
              (if str_eq m.agg_state_id m.agg_last_state_id then " still down" else " goes DOWN!"))
            text
          ∷ [])
        (notice info (join title " unreachable") text ∷ []) []

-- `service_state == 1 || service_state == 2`.
abbrev pub is_service_problem : Option ℕ → Bool
is_service_problem none = false
is_service_problem (some k) = k == 1 || k == 2

-- The `switch(service_state)`.
unfoldable pub by_service_state {ℓ} : {A : Type ℓ} → Option ℕ → A → A → A → A → A → A
by_service_state none up warn critical unknown other = other
by_service_state (some k) up warn critical unknown other =
    if k == 0
    then up
    else if k == 1
    then warn
    else if k == 2
    then critical
    else if k == 3
    then unknown
    else other

-- `handleAggregatedServiceNotification`.
unfoldable pub handle_aggregated_service : Message → List Effect
unfolding by_service_state
handle_aggregated_service m =
    let state = parse_int m.agg_state_id in
    let title = join (join "[" (decimal (length m.service_names))) "] services" in
    let text = join (nodes_text m.host_names) "\n" in
    updates (is_service_problem state) m.nodes_id
    ++ by_service_state state (notice success (join title " goes UP") text ∷ [])
        (notice warning (join title " in WARNING state") text ∷ [])
        (notice error (join title "in CRITICAL state") text ∷ [])
        (notice info (join title "in unknown state") text ∷ []) []

-- `handleHostNotification` on `message.node` and `message.icinga`.
unfoldable pub host_effects : NodeRef → Icinga → List Effect
unfolding by_host_state
host_effects node i =
    let state = get_node_state_from_icinga i.state_id in
    let text = join "Node: " node.name in
    update node.id (is_host_problem state)
    ∷ by_host_state state (notice success "Graph node goes up" text ∷ [])
        (notice warning "Graph node has some problems!" text ∷ [])
        (notice error
            (if str_eq i.state_id i.last_state_id
              then "Graph node still down"
              else "Graph node goes DOWN!")
            text
          ∷ [])
        (notice info "Graph node unreachable" text ∷ []) []

-- `handleHostNotification`; with no `node` its test reads a field of `undefined`.
unfoldable pub handle_host : Message → Outcome
handle_host m = elim m.node [ none ↦ throws | some node ↦ done (host_effects node m.icinga) ]

abbrev pub service_text : Icinga → String
service_text i = join (join "Service: " i.name) (join "\n" (join (join "Node: " i.host_name) "\n"))

-- `handleServiceNotification` on `message.node` and `message.icinga`.
unfoldable pub service_effects : NodeRef → Icinga → List Effect
unfolding by_service_state
service_effects node i =
    let state = parse_int i.state_id in
    let text = join (service_text i) (join "Output: " i.output) in
    update node.id (is_service_problem state)
    ∷ by_service_state state (notice success "Node service goes up" text ∷ [])
        (notice warning "Node service WARNING" text ∷ [])
        (notice error "Node service CRITICAL!" text ∷ [])
        (notice info "Node service state unknown!" (service_text i) ∷ []) []

-- `handleServiceNotification`.
unfoldable pub handle_service : Message → Outcome
handle_service m = elim m.node [ none ↦ throws | some node ↦ done (service_effects node m.icinga) ]

-- `handleAggregatedNotification`.
unfoldable pub handle_aggregated : Message → Outcome
handle_aggregated m = elim m.agg_type [
  | none ↦ done []
  | some k ↦
      if k == 0
      then done (handle_aggregated_host m)
      else if k == 1
      then done (handle_aggregated_service m)
      else done []
]

-- `handleIcingaNotification`.
unfoldable pub handle_icinga : Message → Outcome
handle_icinga m =
    if m.icinga_type == 0
    then handle_host m
    else if m.icinga_type == 1
    then handle_service m
    else if m.icinga_type == 2
    then handle_aggregated m
    else done []

-- `handleMessage`: system and user messages do nothing but log, and `handleStatUpdate` is not
-- defined, so a message of type 3 ends in an exception.
unfoldable pub handle_message : Message → Outcome
unfolding handle_icinga
handle_message m = if m.type == 0 then handle_icinga m else if m.type == 3 then throws else done []

-- `performNodeUpdate`'s callback: `none` is an error. It gives the store and the node to select;
-- `follow` is `ui.isFollowEnabled()`.
unfoldable pub node_fetched : Bool → Bool → Option Node → Store → Store × Option (Option ℕ)
node_fetched problem follow none s = (s, none)
node_fetched problem follow (some n) s =
    (store_node n s, if problem && follow then some n.id else none)
