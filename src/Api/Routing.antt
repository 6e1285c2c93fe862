-- ===== src/Api/Routing.antt =====
-- Which requests reach a handler: src/api/http-router.ts.
use ipfs_shard.Shared.{
  ℕ, List, [], ◌∷◌, ◌++◌, Bool, true, false, ◌&&◌, ◌||◌, some, All, ◌≡◌, refl, ap, ◌∙◌, ◌⊎◌, inl,
  inr, Bool-cases, if◌then◌else◌, ◌==◌,
}
use ipfs_shard.Api.Text.{chars, text_eq, starts_with, before_query}
use ipfs_shard.Api.Router.{
  Route, ui, metrics, health, peers_list, peers_detailed, peers_detailed_single, connections_list,
  connect, ping, pins_list, pins_add, pins_remove, blocks_check, blocks_cat, blocks_ls,
  dht_providers_get, dht_announce, dht_status, dht_providers_post, stats, dag_stat, block_stat,
  is_below, guards, first_route, route,
}
use ipfs_shard.Api.Matching.{text_eq_sound, is_below_sound, starts_with_sound, Below, Begins}

-- The documented method and path of each handler.
abbrev pub method_of : Route → List ℕ
method_of ui = chars "GET"
method_of metrics = chars "GET"
method_of health = chars "GET"
method_of peers_list = chars "GET"
method_of peers_detailed = chars "GET"
method_of peers_detailed_single = chars "GET"
method_of connections_list = chars "GET"
method_of connect = chars "POST"
method_of ping = chars "POST"
method_of pins_list = chars "GET"
method_of pins_add = chars "POST"
method_of pins_remove = chars "DELETE"
method_of blocks_check = chars "GET"
method_of blocks_cat = chars "GET"
method_of blocks_ls = chars "GET"
method_of dht_providers_get = chars "GET"
method_of dht_announce = chars "POST"
method_of dht_status = chars "GET"
method_of dht_providers_post = chars "POST"
method_of stats = chars "GET"
method_of dag_stat = chars "POST"
method_of block_stat = chars "POST"

abbrev pub Fits : Route → List ℕ → Type 0
Fits ui url = url ≡ chars "/"
Fits metrics url = url ≡ chars "/metrics"
Fits health url = url ≡ chars "/health"
Fits peers_list url = url ≡ chars "/peers"
Fits peers_detailed url = url ≡ chars "/peers/detailed"
Fits peers_detailed_single url = Begins (chars "/peers/detailed/") url
Fits connections_list url = url ≡ chars "/connections"
Fits connect url = url ≡ chars "/connect"
Fits ping url = url ≡ chars "/ping"
Fits pins_list url = url ≡ chars "/pins"
Fits pins_add url = url ≡ chars "/pin"
Fits pins_remove url = url ≡ chars "/pin"
Fits blocks_check url = Below (chars "/blocks/") url
Fits blocks_cat url = Below (chars "/cat/") url
Fits blocks_ls url = Below (chars "/ls/") url
Fits dht_providers_get url = Below (chars "/providers/") url
Fits dht_announce url = url ≡ chars "/announce"
Fits dht_status url = Below (chars "/dht/status/") url
Fits dht_providers_post url = (url ≡ chars "/providers") ⊎ (url ≡ chars "/providers/")
Fits stats url = url ≡ chars "/stats"
Fits dag_stat url = Begins (chars "/dag/stat") url
Fits block_stat url = Begins (chars "/block/stat") url

and_true : (a b : Bool) → (a && b) ≡ true → (a ≡ true) × (b ≡ true)
and_true true b e = (refl, e)
and_true false b e = absurd (cc)

or_true : (a b : Bool) → (a || b) ≡ true → (a ≡ true) ⊎ (b ≡ true)
or_true true b e = inl refl
or_true false b e = inr e

module _ (method url : List ℕ) where
  abbrev Sound : Bool × Route → Type 0
  Sound (guard, r) = guard ≡ true → (method ≡ method_of r) × Fits r url

  exact : (m p : List ℕ) → (text_eq method m && text_eq url p) ≡ true → (method ≡ m) × (url ≡ p)
  exact m p e =
      let (a, b) = and_true (text_eq method m) (text_eq url p) e in
      (text_eq_sound method m a, text_eq_sound url p b)

  below : (m p : List ℕ) → (text_eq method m && is_below p url) ≡ true → (method ≡ m) × Below p url
  below m p e =
      let (a, b) = and_true (text_eq method m) (is_below p url) e in
      (text_eq_sound method m a, is_below_sound p url b)

  begins :
      (m p : List ℕ) → (text_eq method m && starts_with p url) ≡ true → (method ≡ m) × Begins p url
  begins m p e =
      let (a, b) = and_true (text_eq method m) (starts_with p url) e in
      (text_eq_sound method m a, starts_with_sound p url b)

  either :
      (m p q : List ℕ)
      → (text_eq method m && (text_eq url p || text_eq url q)) ≡ true
      → (method ≡ m) × ((url ≡ p) ⊎ (url ≡ q))
  either m p q e =
      let (a, b) = and_true (text_eq method m) (text_eq url p || text_eq url q) e in
      (
        text_eq_sound method m a,
        elim (or_true (text_eq url p) (text_eq url q) b) [
          | inl c ↦ inl (text_eq_sound url p c)
          | inr c ↦ inr (text_eq_sound url q c)
        ],
      )

  guards-Sound : All Sound (guards method url)
  unfolding guards
  guards-Sound = (
    exact (chars "GET") (chars "/"),
    (
      exact (chars "GET") (chars "/metrics"),
      (
        exact (chars "GET") (chars "/health"),
        (
          exact (chars "GET") (chars "/peers"),
          (
            exact (chars "GET") (chars "/peers/detailed"),
            (
              begins (chars "GET") (chars "/peers/detailed/"),
              (
                exact (chars "GET") (chars "/connections"),
                (
                  exact (chars "POST") (chars "/connect"),
                  (
                    exact (chars "POST") (chars "/ping"),
                    (
                      exact (chars "GET") (chars "/pins"),
                      (
                        exact (chars "POST") (chars "/pin"),
                        (
                          exact (chars "DELETE") (chars "/pin"),
                          (
                            below (chars "GET") (chars "/blocks/"),
                            (
                              below (chars "GET") (chars "/cat/"),
                              (
                                below (chars "GET") (chars "/ls/"),
                                (
                                  below (chars "GET") (chars "/providers/"),
                                  (
                                    exact (chars "POST") (chars "/announce"),
                                    (
                                      below (chars "GET") (chars "/dht/status/"),
                                      (
                                        either (chars "POST") (chars "/providers")
                                            (chars "/providers/"),
                                        (
                                          exact (chars "GET") (chars "/stats"),
                                          (
                                            begins (chars "POST") (chars "/dag/stat"),
                                            (begins (chars "POST") (chars "/block/stat"), tt),
                                          ),
                                        ),
                                      ),
                                    ),
                                  ),
                                ),
                              ),
                            ),
                          ),
                        ),
                      ),
                    ),
                  ),
                ),
              ),
            ),
          ),
        ),
      ),
    ),
  )

  first_route-Sound :
      (gs : List (Bool × Route)) (r : Route)
      → All Sound gs
      → first_route gs ≡ some r
      → (method ≡ method_of r) × Fits r url
  unfolding first_route
  first_route-Sound [] r all e = absurd (cc)
  first_route-Sound ((guard, s) ∷ gs) r (here, all) e = elim (Bool-cases guard) [
    | inl taken ↦ let same : s ≡ r = cc (rw (taken, first_route) at e) in rw (← same) (here taken)
    | inr passed ↦ first_route-Sound gs r all (rw (passed, first_route) at e)
  ]

before_query-append :
    (path query : List ℕ) → before_query (path ++ (b'?' ∷ query)) ≡ before_query path
unfolding before_query
before_query-append [] query = refl
before_query-append (c ∷ path) query =
    ap (λ (rest : List ℕ). if c == b'?' then [] else c ∷ rest) (before_query-append path query)

-- A handler is reached only by its own method and by a path of its own form, which for a CID is one
-- non-empty segment without `/` and `?`; so a GET request reaches no handler of a POST or DELETE.
-- A query string behind the URL makes no difference.
pub route-method_of :
    (method url query : List ℕ) (r : Route)
    → route method url ≡ some r
    → ((method ≡ method_of r) × Fits r (before_query url))
      × (route method (url ++ (b'?' ∷ query)) ≡ some r)
unfolding route
route-method_of method url query r e = (
  first_route-Sound method (before_query url) (guards method (before_query url)) r
      (guards-Sound method (before_query url)) e,
  ap (λ (p : List ℕ). first_route (guards method p)) (before_query-append url query) ∙ e,
)
