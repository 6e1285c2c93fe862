-- ===== src/Handlers/Tests.antt =====
-- The handlers at concrete requests.
use ipfs_shard.Shared.{
  ℕ, [], ◌∷◌, ◌++◌, map, true, false, none, some, String, str_eq, if◌then◌else◌, ◌≡◌, refl, ◌⊎◌,
}
use ipfs_shard.Shared.Int.{pos}
use ipfs_shard.Shared.Assoc.{has, lookup, insert, remove}
use ipfs_shard.Samples.{texts, samples, cid_one}
use ipfs_shard.Node.Pins.{
  pin_key, pin_add, pin_rm, pin_ls, is_pinned, pin_name, parse_keys, convert_get, convert_has,
  is_no_such_key,
}
use ipfs_shard.Node.Dictionary.{wrapped, wrapped-DatastoreLaws}
use ipfs_shard.Announce.Status.{success, status_key, get_status, set_status}
use ipfs_shard.Announce.Events.{
  announce_content, on_provided, on_provide_failed, reprovide_cid, reprovide_all,
  run_reprovide_loop, stop,
}
use ipfs_shard.Announce.Soundness.{succeeds, run_event, run_events}
use ipfs_shard.Announce.Encoding.{by_status, by_status-ReadsBack, wrapped-ValueLaws, idle}
use ipfs_shard.Blockstores.Network.{is_miss}
use ipfs_shard.Blockstores.Dictionary.{dictionary, missing, answers, empty_node}
use ipfs_shard.Api.Text.{chars, text_eq, strip_prefix, starts_with, before_query, segment}
use ipfs_shard.Api.Router.{is_below, guards, first_route, route}
use ipfs_shard.DagPb.Hanging.{endless}
use ipfs_shard.Handlers.Answers.{Body, fields, ok, ApiState}
use ipfs_shard.Handlers.Pins.{list, add, pins, after_pin, after_unpin, handle_pins}
use ipfs_shard.Handlers.Pinned.{handle_pins-Harmless, handle_pins-is_pinned}
use ipfs_shard.Handlers.Dht.{Finding, announce, status_parsed, handle_dht}
use ipfs_shard.Handlers.Claims.{pins_call, dht_call, happens, serve_one, serve, serve-announced}
use ipfs_shard.Handlers.Paths.{split, cid_part}
use ipfs_shard.Handlers.Segments.{route-cid_part}
use ipfs_shard.Handlers.Blocks.{
  cat, ls, raw, is_not_found, failed_answer, after_cat, after_ls, with_cid, handle_blocks,
}
use ipfs_shard.Handlers.Retrieving.{network_source, handle_blocks-cat, handle_blocks-ls_endless}

api : Unit {0}
unfolding lookup insert remove is_no_such_key convert_get convert_has pin_key is_pinned pin_add
    pin_rm pin_name parse_keys pin_ls has status_key get_status set_status announce_content
    on_provided on_provide_failed reprovide_cid reprovide_all run_reprovide_loop stop run_event
    run_events after_pin after_unpin handle_pins status_parsed handle_dht serve_one serve
api = tt

abbrev cid_body : String → Body
cid_body cid_str = fields (λ name. if str_eq name "cid" then some cid_str else none)

abbrev fresh : ApiState texts wrapped by_status
fresh = record { node = idle []; pins_total = pos 0; last_announced_at = none; total_announced = 0 }

abbrev nothing_found : String → Finding
nothing_found cid = record { found = []; thrown = none; aborts = false }

pins_listed :
    (handle_pins texts wrapped by_status list
      (cid_body "")
      20
      (handle_pins texts wrapped by_status add (cid_body "one") 10 fresh).0).1
    ≡ ok (pins ("one" ∷ []) 1)
unfolding api
pins_listed = refl

handle_pins-Harmless_example :
    ((handle_pins texts wrapped by_status add (cid_body "") 10 fresh).0 ≡ fresh)
    × (◌≡◌ {A = ℕ} 400 400 ⊎ ◌≡◌ {A = ℕ} 400 500)
unfolding api
handle_pins-Harmless_example =
    handle_pins-Harmless texts wrapped by_status add (cid_body "") 10 fresh 400
      "Missing or invalid cid field" refl

abbrev pinned_once : ApiState texts wrapped by_status
pinned_once = (handle_pins texts wrapped by_status add (cid_body "one") 10 fresh).0

serve-announced_example :
    has "one" (
      map
        (λ (c : String). c)
        (serve texts wrapped by_status
          (pins_call add (cid_body "one") 10
            ∷ dht_call announce (cid_body "two") nothing_found 15
            ∷ happens (succeeds "one" 20)
            ∷ [])
          fresh).node.provided)
    ≡ true
unfolding api
serve-announced_example =
    serve-announced texts wrapped by_status wrapped-ValueLaws by_status-ReadsBack
      (pins_call add (cid_body "one") 10
        ∷ dht_call announce (cid_body "two") nothing_found 15
        ∷ happens (succeeds "one" 20)
        ∷ [])
      fresh "one" "one" (cid_body "") nothing_found 30 true (some 0) (some success)
      (λ cid r e h. absurd (cc)) refl refl

retrieving : Unit {0}
unfolding lookup is_miss split cid_part is_not_found failed_answer after_cat after_ls with_cid
    handle_blocks
retrieving = tt

handle_blocks-cat_example :
    (handle_blocks samples
      (network_source samples dictionary answers)
      10
      cat
      "/cat/one?a=/b"
      (record { state = empty_node; retrieved = 0 })).1
    ≡ some (ok (raw (9 ∷ 9 ∷ [])))
unfolding retrieving
handle_blocks-cat_example =
    handle_blocks-cat samples dictionary answers 10 "/cat/one?a=/b" "one" cid_one missing
      (record { state = empty_node; retrieved = 0 }) refl refl refl refl

handle_blocks-ls_endless_example :
    (handle_blocks samples (network_source samples dictionary answers) 1000 ls "/ls/one" (record {
      state = record empty_node { store = ("one", endless (7 ∷ [])) ∷ [] };
      retrieved = 0;
    })).1
    ≡ none
unfolding retrieving
handle_blocks-ls_endless_example =
    handle_blocks-ls_endless samples dictionary answers 1000 "/ls/one" "one" cid_one (7 ∷ [])
      (record {
        state = record empty_node { store = ("one", endless (7 ∷ [])) ∷ [] };
        retrieved = 0;
      })
      refl refl refl

route-cid_part_example :
    (seg : String) × ((cid_part "/cat/one?a=/b" ≡ some seg)
      × (before_query (chars "/cat/one?a=/b") ≡ chars "/cat/" ++ chars seg))
unfolding text_eq strip_prefix starts_with before_query segment is_below guards first_route route
route-cid_part_example = route-cid_part cat "GET" "/cat/one?a=/b" refl

handle_pins-is_pinned_example :
    (pinned_once.node.asked ≡ fresh.node.asked ++ ("one" ∷ []))
    × ((other : String)
        → is_pinned texts wrapped other pinned_once.node.store
          ≡ (if str_eq "one" other then true else is_pinned texts wrapped other fresh.node.store))
unfolding api
handle_pins-is_pinned_example =
    handle_pins-is_pinned texts wrapped by_status wrapped-DatastoreLaws (cid_body "one") 10 "one"
      "one" fresh refl refl
