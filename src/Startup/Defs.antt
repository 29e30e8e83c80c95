-- ===== src/Startup/Defs.antt =====
-- The state and the functions of the start-up (web-phalcon/public/js/netgraphz/main.js).
use netgraphz2_gpl.Common.NumMap.{values}
use netgraphz2_gpl.Model.{Link, Node}
use netgraphz2_gpl.Store.Defs.{Store, empty_store, load_all}
use netgraphz2_gpl.Pager.{advance, get_all_nodes_from}
use netgraphz2_gpl.Common.{
  List, Bool, Option, String, [], false, if◌then◌else◌, length, ltb, none, some, true, ℕ, ◌++◌, ◌+◌,
  ◌==◌, ◌∷◌, erase_idx, get_elem?,
}

-- `settings.init`. `node_retry_times` is the name that the code reads; `none` is `undefined`.
pub record Settings : Type 0 where
  pub node_part_size : ℕ
  pub node_retry_times : Option ℕ

-- What was asked of the server and is not answered yet, a part with the identifier that it was asked
-- from, or a timeout of `fetch_part` that is set.
pub data Request : Type 0 where
  user_parameters part_timeout all_links : Request
  node_part : ℕ → Request

-- How a request ends: with what was asked for as JSON, with a text that is empty or no JSON, for which fetcher.js calls
-- back once with an error, or with a failure of the network, for which it calls back twice.
pub data Outcome : Type 0 where
  arrives no_json no_network : Outcome

pub data StartupEvent : Type 0 where
  timer_runs : StartupEvent
  answered : Outcome → StartupEvent

-- `none` is an answer with an error; the links may come with the error "OK", which is none.
pub data Answer {ℓ} (A : Type ℓ) : Type ℓ where
  params_answer : Option String → Answer A
  part_answer : Option (List (ℕ × A)) → Answer A
  links_answer : Option (List Link) → Answer A

-- The variables of the module. `started` counts the calls of `start_netgraphz`.
pub record Startup {ℓ} (A : Type ℓ) : Type ℓ where
  pub load_cancel : Bool
  pub fetch_level : ℕ
  pub nodes : List (ℕ × A)
  pub links : List Link
  pub params : Option String
  pub last_id : ℕ
  pub last_retry_time : ℕ
  pub waiting : List Request
  pub started : ℕ

-- `last_retry_time == settings.init.node_retry_times`.
abbrev is_limit : Option ℕ → ℕ → Bool
is_limit none k = false
is_limit (some n) k = k == n

module _ {ℓ} {A : Type ℓ} where
  abbrev pub loaded_page : Startup A
  loaded_page = record {
    load_cancel = false;
    fetch_level = 0;
    nodes = [];
    links = [];
    params = none;
    last_id = 0;
    last_retry_time = 0;
    waiting = [];
    started = 0;
  }

  abbrev pub ask : Request → Startup A → Startup A
  ask request s = record s { waiting = s.waiting ++ request ∷ [] }

  -- The `switch` of `update_sequence`; the first part is asked for in a timeout.
  abbrev pub at_level : ℕ → Startup A → Startup A
  at_level level s =
      if level == 1
      then ask user_parameters s
      else if level == 2
      then ask part_timeout s
      else if level == 3
      then ask all_links s
      else record s { started = s.started + 1 }

  -- `update_sequence`.
  unfoldable pub update_sequence : Startup A → Startup A
  update_sequence s = at_level (s.fetch_level + 1) (record s { fetch_level = s.fetch_level + 1 })

  -- The callbacks of the status: it is there, or the server failed.
  unfoldable pub status_fetched : Bool → Startup A → Startup A
  unfolding update_sequence
  status_fetched true s = update_sequence s
  status_fetched false s = record s { load_cancel = true }

  -- The callback of `start_fetch_user_params`.
  unfoldable pub params_fetched : Option String → Startup A → Startup A
  unfolding update_sequence
  params_fetched answer s = if s.load_cancel then s else elim answer [
    | none ↦ record s { load_cancel = true }
    | some params ↦ update_sequence (record s { params = some params })
  ]

  -- The callback of `fetch_part`; a retry asks for the same part.
  unfoldable pub part_fetched : Settings → Option (List (ℕ × A)) → Startup A → Startup A
  unfolding update_sequence
  part_fetched c none s =
      let s' = record s { last_retry_time = s.last_retry_time + 1 } in
      if is_limit c.node_retry_times s'.last_retry_time
      then record s' { load_cancel = true }
      else ask part_timeout s'
  part_fetched c (some p_nodes) s =
      let s' = record s {
        last_retry_time = 0;
        nodes = s.nodes ++ p_nodes;
        last_id = if ltb 0 (length p_nodes) then advance s.last_id p_nodes else s.last_id;
      } in
      if ltb (length p_nodes) c.node_part_size then update_sequence s' else ask part_timeout s'

  -- The callback of `start_fetch_links`.
  unfoldable pub links_fetched : Option (List Link) → Startup A → Startup A
  unfolding update_sequence
  links_fetched answer s = if s.load_cancel then s else elim answer [
    | none ↦ record s { load_cancel = true }
    | some links ↦ update_sequence (record s { links = links })
  ]

  -- The answer to the request that is waiting.
  unfoldable pub handle_answer : Settings → Answer A → Startup A → Startup A
  unfolding params_fetched part_fetched links_fetched
  handle_answer c (params_answer answer) s = params_fetched answer s
  handle_answer c (part_answer answer) s = part_fetched c answer s
  handle_answer c (links_answer answer) s = links_fetched answer s

-- The first lines of `start_netgraphz`: `store.init` and `loadAll`.
unfoldable pub loaded_store : Startup Node → Store
loaded_store s = load_all (values s.nodes) s.links empty_store

-- The server: its nodes in ascending order, its links and the user's parameters.
pub record Server {ℓ} (A : Type ℓ) : Type ℓ where
  pub all : List (ℕ × A)
  pub links : List Link
  pub params : String

module _ {ℓ} {A : Type ℓ} (c : Settings) (server : Server A) where
  -- The answer to a request, or the error for one; a timeout has none.
  unfoldable pub serve : Request → Bool → Option (Answer A)
  serve user_parameters ok = some (params_answer (if ok then some server.params else none))
  serve (node_part from) ok = some (
      part_answer (if ok then some (get_all_nodes_from from c.node_part_size server.all) else none))
  serve all_links ok = some (links_answer (if ok then some server.links else none))
  serve part_timeout ok = none

  -- A call of the callback.
  unfoldable pub call_back : Request → Bool → Startup A → Startup A
  unfolding serve
  call_back request ok s = elim (serve request ok) [ none ↦ s | some a ↦ handle_answer c a s ]

  unfoldable pub end_request : Outcome → Request → Startup A → Startup A
  unfolding call_back
  end_request arrives request s = call_back request true s
  end_request no_json request s = call_back request false s
  end_request no_network request s = call_back request false (call_back request false s)

  -- What happens to something that waited; `t` is the state in which it waits no more.
  unfoldable pub happens : Request → StartupEvent → Startup A → Startup A → Startup A
  unfolding end_request
  happens part_timeout timer_runs t s = ask (node_part t.last_id) t
  happens part_timeout (answered o) t s = s
  happens user_parameters timer_runs t s = s
  happens user_parameters (answered o) t s = end_request o user_parameters t
  happens (node_part from) timer_runs t s = s
  happens (node_part from) (answered o) t s = end_request o (node_part from) t
  happens all_links timer_runs t s = s
  happens all_links (answered o) t s = end_request o all_links t

  -- What waits at place `i` runs or is answered; nothing happens if none does.
  unfoldable pub happens_at : ℕ → StartupEvent → Startup A → Startup A
  unfolding happens
  happens_at i o s = elim (get_elem? s.waiting i) [
    | none ↦ s
    | some request ↦ happens request o (record s { waiting = erase_idx s.waiting i }) s
  ]

  -- A timeout that waits first runs, and then the request that waits first is answered with JSON or
  -- with what is none.
  unfoldable pub exchange : Bool → Startup A → Startup A
  unfolding happens_at
  exchange ok s =
      happens_at 0 (answered (if ok then arrives else no_json)) (happens_at 0 timer_runs s)

  -- The requests are answered with JSON, or with what is none, as the list says.
  unfoldable pub exchanges : List Bool → Startup A → Startup A
  exchanges [] s = s
  exchanges (ok ∷ oks) s = exchanges oks (exchange ok s)
