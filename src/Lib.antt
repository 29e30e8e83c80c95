-- ===== src/Lib.antt =====
-- NetGraphz2 shows a network as a graph whose nodes are coloured by the state that Icinga
-- reports. This library models the JavaScript that carries its logic: the notification server and
-- modules of the browser.
--
-- How the parts interact. Icinga posts a notification; the event handler aggregates and limits it,
-- asks the database which nodes it is about, and sends a message to the browsers. There the
-- channel's handler fetches every node of the message again, updates the store and shows a notice;
-- the store's events reach the tab stop, which cycles through the nodes that have problems.
--
-- Files, and the code they are about:
-- - Notifications/: notifications/event_handler.js and notifications/dispatcher.js. Body has the
--   requests and the notifications made of them. State is the module's variables (_queue,
--   _ratelimit_req_curr, _agg_event_topics, the timers) with the event loop's intervals.
--   Limiter/Defs has _notification_rate_limited and the timers' functions under their names,
--   Aggregator _aggregate_event and _agg_event_process, Handler the two handlers, init and the event
--   loop: a run is a sequence of requests and interval runs in any order. `processed` logs the calls
--   of _process_host_notification and _process_service_notification, and Response says what they
--   ask of the database and what is sent then, over an interface that Pipeline fills. Routes has
--   notifications/routes/api/icinga.js, which calls the handlers.
-- - Authenticator/: notifications/authenticator.js; the header's parser, the Base64 decoder and the
--   test of a prefix are a parameter.
-- - Api/: notifications/notifications_api.js and notifications/routes/api.js, the HTTP server that
--   passes a request from the authenticator to the routes; Express is a parameter.
-- - IcingaScripts/: icinga/scripts/notify_icinga_host.js and notify_icinga_service.js. Delivery
--   follows a script's request to the server's routes.
-- - Pipeline/: a notification from the event handler through the database library of NodesDatabase
--   to the browser's handler of Communication and its Store.
-- - Model: web-phalcon/public/js/netgraphz/core.js.
-- - Utils: the node states of web-phalcon/public/js/netgraphz/graph_utils.js.
-- - Store/: web-phalcon/public/js/netgraphz/store.js. `store_node` is updateNode and `store_nodes`
--   updateNodes; objects with numeric keys are association lists in ascending order, since
--   Object.keys gives array indices in that order.
-- - TabStop/: web-phalcon/public/js/netgraphz/ui.tabstop.js.
-- - Communication/: web-phalcon/public/js/netgraphz/communication.js; a handler gives the list of
--   its effects, or says that it stops by an exception.
-- - Startup/: web-phalcon/public/js/netgraphz/main.js. Requests and timeouts wait in a
--   list, and what happens to them is explicit, failures of the network included; Loaded has the
--   store that the program is started with. Pager has the pages that
--   backend/src/ng_graph/neo4j_graph_storage.go gives out.
-- - PropText/: format_prop_str and make_link of web-phalcon/public/js/netgraphz/graph_utils.js, and
--   the loops of ui.panel.js and ui.link_panel.js over the links of the settings. Defs has what the
--   two regular expressions match. The loop over the tags has fuel, since a value that holds a tag
--   can make it endless; one more than the number of tags is enough for values without.
-- - Updater/: web-phalcon/public/js/netgraphz/updater.js. The event loop runs timeouts and answers
--   requests in any order and at any time.
-- - NodesDatabase/: node_netgraphz2/lib/, its tools and its operations on nodes and links; the driver
--   of Neo4j is a parameter.
-- - Renderer/: web-phalcon/public/js/netgraphz/renderer.js. Status has what the renderer does before
--   the store changes, Changes the two together, Elements the graph as it is drawn first, Gestures
--   the keys, the mouse and the taps, Layout when the layout runs. The drawing library is a
--   parameter, the record Graph, with the laws GraphLaws.
-- - Numbers, Colours, DataRate: the functions of tools.js and renderer.js on numbers that need not be
--   whole, over a record of operations, since there are no floating-point numbers here.
-- - UserInterface/: the events of web-phalcon/public/js/netgraphz/ui.js in Dispatch, ui.search.js in
--   Search, ui.notifications.js in Toasts and the menus in Menus.
-- - Transport/: web-phalcon/public/js/netgraphz/fetcher.js and status.js, in Fetcher and Status.
-- - NodePanel/: web-phalcon/public/js/netgraphz/ui.panel.js. State has the functions of Interactor,
--   Events the handlers; the browser runs timeouts and ends fadings at any time.
-- - LinkPanel/: web-phalcon/public/js/netgraphz/ui.link_panel.js, in the same way, with the texts
--   of setContent in Texts.
-- - Extend/: the function extend of web-phalcon/public/js/netgraphz/tools.js, on JavaScript values.
-- - Common/: natural numbers and lists, the two kinds of objects as maps, and texts.
--
-- Fuel: the two Tab handlers call themselves at most once, and `tab_selects` is stated for
-- fuel 2. The fuel of `format_prop_str` is more than the number of tags.
--
-- Not modelled: the DOM, jQuery, cytoscape, socket.io, express, neo4j and log messages, which are
-- libraries and output; zoom and positions, the legend, and the set-up of the
-- notification server; the Go back end and the PHP pages. Identifiers and times are natural numbers.
pub mod Common
pub mod Numbers
pub mod Colours
pub mod DataRate
pub mod Extend
pub mod Renderer
pub mod UserInterface
pub mod Transport
pub mod NodePanel
pub mod LinkPanel
pub mod IcingaScripts
pub mod Notifications
pub mod Model
pub mod Utils
pub mod Store
pub mod Communication
pub mod TabStop
pub mod Api
pub mod Authenticator
pub mod Pager
pub mod Pipeline
pub mod PropText
pub mod Startup
pub mod Updater
pub mod NodesDatabase
