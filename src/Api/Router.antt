-- ===== src/Api/Router.antt =====
-- `createApiRouter` of src/api/http-router.ts: which handler a request reaches.
use ipfs_shard.Shared.{ℕ, List, [], ◌∷◌, Bool, true, false, not, ◌&&◌, ◌||◌, Option, none, some}
use ipfs_shard.Api.Text.{chars, text_eq, is_empty, strip_prefix, starts_with, before_query, segment}

-- A handler with its action.
pub data Route : Type 0 where
  ui metrics health : Route
  peers_list peers_detailed peers_detailed_single : Route
  connections_list connect ping : Route
  pins_list pins_add pins_remove : Route
  blocks_check blocks_cat blocks_ls : Route
  dht_providers_get dht_announce dht_status dht_providers_post : Route
  stats dag_stat block_stat : Route

-- `^<prefix>[^/?]+$`
abbrev pub is_segment : Option (List ℕ) → Bool
is_segment none = false
is_segment (some rest) = not (is_empty (segment rest).0) && is_empty (segment rest).1

unfoldable pub is_below : List ℕ → List ℕ → Bool
unfolding strip_prefix segment
is_below p s = is_segment (strip_prefix p s)

-- `if (guard) return handler`, in the order of the source.
unfoldable pub guards : List ℕ → List ℕ → List (Bool × Route)
unfolding text_eq starts_with is_below
guards method url =
    let get = text_eq method (chars "GET") in
    let post = text_eq method (chars "POST") in
    let delete = text_eq method (chars "DELETE") in
    (get && text_eq url (chars "/"), ui)
    ∷ (get && text_eq url (chars "/metrics"), metrics)
    ∷ (get && text_eq url (chars "/health"), health)
    ∷ (get && text_eq url (chars "/peers"), peers_list)
    ∷ (get && text_eq url (chars "/peers/detailed"), peers_detailed)
    ∷ (get && starts_with (chars "/peers/detailed/") url, peers_detailed_single)
    ∷ (get && text_eq url (chars "/connections"), connections_list)
    ∷ (post && text_eq url (chars "/connect"), connect)
    ∷ (post && text_eq url (chars "/ping"), ping)
    ∷ (get && text_eq url (chars "/pins"), pins_list)
    ∷ (post && text_eq url (chars "/pin"), pins_add)
    ∷ (delete && text_eq url (chars "/pin"), pins_remove)
    ∷ (get && is_below (chars "/blocks/") url, blocks_check)
    ∷ (get && is_below (chars "/cat/") url, blocks_cat)
    ∷ (get && is_below (chars "/ls/") url, blocks_ls)
    ∷ (get && is_below (chars "/providers/") url, dht_providers_get)
    ∷ (post && text_eq url (chars "/announce"), dht_announce)
    ∷ (get && is_below (chars "/dht/status/") url, dht_status)
    ∷ (
      post && (text_eq url (chars "/providers") || text_eq url (chars "/providers/")),
      dht_providers_post,
    )
    ∷ (get && text_eq url (chars "/stats"), stats)
    ∷ (post && starts_with (chars "/dag/stat") url, dag_stat)
    ∷ (post && starts_with (chars "/block/stat") url, block_stat)
    ∷ []

unfoldable pub first_route : List (Bool × Route) → Option Route
first_route [] = none
first_route ((guard, r) ∷ rest) = elim guard [ true ↦ some r | false ↦ first_route rest ]

-- `none`: no route matched.
unfoldable pub route : List ℕ → List ℕ → Option Route
unfolding guards first_route before_query
route method url = first_route (guards method (before_query url))
