-- ===== src/Pipeline/Stored.antt =====
-- What a notification changes in the browser's store (notifications/event_handler.js,
-- web-phalcon/public/js/netgraphz/communication.js, web-phalcon/public/js/netgraphz/store.js).
use mathlib.Core.Path.{subst}
use netgraphz2_gpl.Common.{
  Bool, Bool-cases, List, Option, Option-cases, [], ap, arith, false, if◌then◌else◌, inl, inr, none,
  refl, some, str_eq, true, ℕ, ◌==◌, ◌||◌, ◌∙◌, ◌∷◌, ◌≡◌,
}
use netgraphz2_gpl.Communication.Defs.{Effect, done, node_fetched, notice, update}
use netgraphz2_gpl.Communication.Host.{all_with, updated}
use netgraphz2_gpl.Model.{Node}
use netgraphz2_gpl.NodesDatabase.Nodes.{Neo4j}
use netgraphz2_gpl.Notifications.Body.{Notification}
use netgraphz2_gpl.Notifications.Response.{addressee}
use netgraphz2_gpl.Notifications.State.{Config}
use netgraphz2_gpl.Pipeline.Defs.{connection_nodes, notified, perform_updates}
use netgraphz2_gpl.Pipeline.Shown.{HasIds, IsShown, known_ids, notified_lem}
use netgraphz2_gpl.Store.Defs.{Store, get_node_by_id}
use netgraphz2_gpl.Store.Update.{store_node_lem}

-- What `fetchNode` gives for an identifier has that identifier.
abbrev pub IsFetch : (ℕ → Option Node) → Type 0
IsFetch fetch = (id : ℕ) (n : Node) → fetch id ≡ some n → n.id ≡ some id

abbrev pub has_id : ℕ → List ℕ → Bool
has_id j [] = false
has_id j (id ∷ ids) = id == j || has_id j ids

abbrev update_ids : List (ℕ × Bool) → List ℕ
update_ids [] = []
update_ids ((id, problem) ∷ us) = id ∷ update_ids us

update_ids-all_with : (problem : Bool) (ids : List ℕ) → update_ids (all_with problem ids) ≡ ids
update_ids-all_with problem [] = refl
update_ids-all_with problem (id ∷ ids) = ap (λ l. id ∷ l) (update_ids-all_with problem ids)

-- What is stored under an identifier after an update, by whether it was asked for.
abbrev pub after_update : Bool → Option Node → Option Node → Option Node
after_update false fetched old = old
after_update true none old = old
after_update true (some n) old = some n

found_twice :
    (asked : Bool) (o old : Option Node)
    → after_update asked o (after_update true o old) ≡ after_update true o old
found_twice false o old = refl
found_twice true none old = refl
found_twice true (some n) old = refl

module _ (follow : Bool) (fetch : ℕ → Option Node) (valid : IsFetch fetch) where
  node_fetched-lookup :
      (problem : Bool) (id : ℕ) (s : Store) (j : ℕ)
      → get_node_by_id j (node_fetched problem follow (fetch id) s).0 ≡ (
          if id == j then after_update true (fetch id) (get_node_by_id j s) else get_node_by_id j s)
  unfolding node_fetched
  node_fetched-lookup problem id s j = elim (Option-cases (fetch id)) [
    | inl e ↦ rw e (elim (Bool-cases (id == j)) [ inl b ↦ rw b refl | inr b ↦ rw b refl ])
    | inr (n, e) ↦ rw e ((store_node_lem n id s (valid id n e)).0 j)
  ]

  asked_twice :
      (id j : ℕ) (asked : Bool) (old : Option Node)
      → after_update asked (fetch j) (if id == j then after_update true (fetch id) old else old)
        ≡ after_update (id == j || asked) (fetch j) old
  asked_twice id j asked old = elim (Bool-cases (id == j)) [
    | inr b ↦ rw b refl
    | inl b ↦
        let same : fetch id ≡ fetch j = ap fetch (ground (arith, b)) in
        rw (b, same) (found_twice asked (fetch j) old)
  ]

  perform_updates-lookup :
      (es : List Effect) (s : Store) (j : ℕ)
      → get_node_by_id j (perform_updates follow fetch es s)
        ≡ after_update (has_id j (update_ids (updated es))) (fetch j) (get_node_by_id j s)
  unfolding perform_updates
  perform_updates-lookup [] s j = refl
  perform_updates-lookup (notice level title text ∷ es) s j = perform_updates-lookup es s j
  perform_updates-lookup (update id problem ∷ es) s j =
      let ih = perform_updates-lookup es (node_fetched problem follow (fetch id) s).0 j in
      ih
      ∙ ap (after_update (has_id j (update_ids (updated es))) (fetch j))
          (node_fetched-lookup problem id s j)
      ∙ asked_twice id j _ (get_node_by_id j s)

-- Where the database has an answer for the hosts of a notification for the broadcast user, and the
-- browser is given the nodes that it fetches: under each identifier of the answer the fetched node
-- is stored afterwards, or still the old one if the fetch failed, and every other node is as before.
pub stored_lem :
    (c : Config) (db : Neo4j) (n : Notification) (ids : List ℕ) (follow : Bool)
    (fetch : ℕ → Option Node) (s : Store)
    → HasIds db
    → IsFetch fetch
    → known_ids db n ≡ some ids
    → str_eq (addressee c (connection_nodes db) n.body).name c.broadcast_user ≡ true
    → (es : List Effect) × (notified c db n ≡ some (done es))
      × ((j : ℕ)
          → get_node_by_id j (perform_updates follow fetch es s)
            ≡ after_update (has_id j ids) (fetch j) (get_node_by_id j s))
stored_lem c db n ids follow fetch s h valid known broadcast =
    let shown : IsShown n (some ids) true (notified c db n) =
      subst (λ b. IsShown n (some ids) b (notified c db n)) broadcast
        (subst
          (λ o.
            IsShown n o (str_eq (addressee c (connection_nodes db) n.body).name c.broadcast_user)
              (notified c db n))
          known (notified_lem c db n h)) in
    let (es, eq, us, ls) = shown in
    (
      es,
      eq,
      λ j.
          perform_updates-lookup follow fetch valid es s j
          ∙ ap (λ l. after_update (has_id j l) (fetch j) (get_node_by_id j s))
              (ap update_ids us ∙ update_ids-all_with _ ids),
    )
