-- ===== src/Api/Tests.antt =====
-- Requests to the internal API, and the theorems at concrete inputs. The handlers count their calls.
use ipfs_shard.Shared.{ℕ, suc, [], ◌∷◌, ◌++◌, false, none, some, ◌≡◌, refl, ◌⊎◌, arith}
use ipfs_shard.Api.Text.{
  chars, text_eq, strip_prefix, starts_with, before_query, segment, split_commas, is_space,
  trim_start, trim_end, trim,
}
use ipfs_shard.Api.Router.{Route, blocks_cat, is_below, guards, first_route, route}
use ipfs_shard.Api.Routing.{method_of, Fits, route-method_of}
use ipfs_shard.Api.Labels.{replace_segment, normalise_path}
use ipfs_shard.Api.Server.{
  Settings, Request, get_client_ip, without_empty, allowed_list, includes, pick_origin, cors_origin,
  check_key, authenticate, Handled, answers, Api, end_with, after_handler, dispatch, on_request,
}
use ipfs_shard.Api.Guard.{IsRefusal, on_request_guards}

serving : Unit {0}
unfolding text_eq strip_prefix starts_with before_query segment split_commas is_space trim_start
    trim_end trim is_below guards first_route route replace_segment normalise_path get_client_ip
    without_empty allowed_list includes pick_origin cors_origin check_key authenticate end_with
    after_handler dispatch on_request
serving = tt

cat_with_query : route (chars "GET") (chars "/cat/Qm12?x=/") ≡ some blocks_cat
unfolding serving
cat_with_query = refl

cat_without_cid : route (chars "GET") (chars "/cat/") ≡ none
unfolding serving
cat_without_cid = refl

pin_by_get : route (chars "GET") (chars "/pin") ≡ none
unfolding serving
pin_by_get = refl

route-method_of_example :
    ((chars "GET" ≡ method_of blocks_cat) × Fits blocks_cat (before_query (chars "/cat/Qm12")))
    × (route (chars "GET") (chars "/cat/Qm12" ++ (b'?' ∷ chars "download")) ≡ some blocks_cat)
unfolding serving
route-method_of_example =
    route-method_of (chars "GET") (chars "/cat/Qm12") (chars "download") blocks_cat refl

abbrev counting : Route → Request → ℕ → Handled ℕ
counting r req n = answers (suc n) 200

abbrev production : Settings
production = record {
  development = false;
  allowed_origins = some (chars " http://a , http://b,");
  api_key = some (chars "key");
}

abbrev pinning : Request
pinning = record {
  method = chars "POST";
  url = chars "/pin";
  origin = some (chars "http://b");
  x_api_key = some (chars "kex");
  x_forwarded_for = some (chars "1.2.3.4 , 5.6.7.8");
  remote_address = none;
}

abbrev idle : Api ℕ counting
idle = record { state = 0; entries = [] }

trims : allowed_list production ≡ chars "http://a" ∷ chars "http://b" ∷ []
unfolding serving
trims = refl

answered :
    (on_request ℕ counting production
      (record pinning { x_api_key = some (chars "key") })
      idle).0.state
    ≡ 1
unfolding serving
answered = refl

on_request_guards_example :
    let (after, reply) = on_request ℕ counting production pinning idle in
    (after.state ≡ 0)
    × (((pinning.method ≡ chars "OPTIONS") × (reply.status ≡ 204)) ⊎ IsRefusal reply.status)
on_request_guards_example =
    on_request_guards ℕ counting production pinning idle b'k' (chars "ey") refl refl
      (λ e. ground arith)
