-- ===== src/Handlers/Dht.antt =====
-- `handleDht` of src/api/dht.ts.
use ipfs_shard.Shared.{
  ℕ, suc, List, length, Bool, true, false, Option, none, some, String, str_eq, if◌then◌else◌,
}
use ipfs_shard.Multiformats.{Multiformats}
use ipfs_shard.InterfaceBlockstore.{Failure}
use ipfs_shard.Node.Pins.{Datastore, is_pinned}
use ipfs_shard.Announce.Status.{Status, pending, success, failed, AnnounceRecord, Json, get_status}
use ipfs_shard.Announce.Events.{announce_content}
use ipfs_shard.Handlers.Answers.{
  Body, BodyField, throws, no_text, text, text_field, checked, Answer, ok, refused, ApiState,
}

-- A provider with its addresses.
pub record Found : Type 0 where
  pub peer_id : String
  pub addrs : List String

-- What `findProviders` yields, and the exception that ends it, if one does; `aborts` says of an
-- exception that it is a `DOMException` with the name `AbortError`.
pub record Finding : Type 0 where
  pub found : List Found
  pub thrown : Option Failure
  pub aborts : Bool

pub data DhtContent : Type 0 where
  announced : DhtContent
  providers : List Found → ℕ → Bool → DhtContent
  status_of : String → (pinned : Bool) → (announced : Bool) → Option ℕ → Option Status → DhtContent

-- `undefined` is not among the errors: the text of the path has a part behind `/providers/`.
pub data DhtAction : Type 0 where
  providers_get : String → DhtAction
  providers_post announce : DhtAction
  status : String → DhtAction

abbrev pub is_success : Option AnnounceRecord → Bool
is_success none = false
is_success (some r) = elim r.status [ pending ↦ false | success ↦ true | failed ↦ false ]

abbrev pub announced_at_of : Option AnnounceRecord → Option ℕ
announced_at_of none = none
announced_at_of (some r) = some r.announced_at

abbrev pub status_field : Option AnnounceRecord → Option Status
status_field none = none
status_field (some r) = some r.status

-- Behind the loop over `findProviders`.
abbrev pub after_find : Finding → Option Failure → Answer DhtContent
after_find f none = ok (providers f.found (length f.found) false)
after_find f (some err) =
    if f.aborts
    then ok (providers f.found (length f.found) true)
    else if str_eq err.name "GetFailedError"
    then ok (providers f.found (length f.found) false)
    else refused 500 "Internal server error"

module _ (m : Multiformats) (d : Datastore) (json : Json) where
  abbrev pub announce_parsed :
      ℕ → Option m.Cid → ApiState m d json → ApiState m d json × Answer DhtContent
  announce_parsed now none w = (w, refused 500 "Failed to announce content")
  announce_parsed now (some cid) w = (
    record w {
      node = announce_content m d json cid now w.node;
      last_announced_at = some now;
      total_announced = suc w.total_announced;
    },
    ok announced,
  )

  abbrev pub announce_field :
      ℕ → BodyField → ApiState m d json → ApiState m d json × Answer DhtContent
  announce_field now throws w = (w, refused 500 "Internal server error")
  announce_field now no_text w = (w, refused 400 "Missing or invalid cid field")
  announce_field now (text cid_str) w = announce_parsed now (m.parse cid_str) w

  abbrev pub find_parsed : (m.Cid → Finding) → Option m.Cid → Answer DhtContent
  find_parsed net none = refused 400 "Invalid CID"
  find_parsed net (some cid) = after_find (net cid) (net cid).thrown

  abbrev pub find_field : (m.Cid → Finding) → BodyField → Answer DhtContent
  find_field net throws = refused 500 "Internal server error"
  find_field net no_text = refused 400 "Missing or invalid cid field"
  find_field net (text cid_str) = find_parsed net (m.parse cid_str)

  unfoldable pub status_parsed : String → Option m.Cid → d.Store → Answer DhtContent
  status_parsed cid_str none s = refused 400 "Invalid CID"
  status_parsed cid_str (some cid) s =
      let dht_record = get_status m d json cid s in
      ok (
        status_of cid_str (is_pinned m d cid s) (is_success dht_record) (announced_at_of dht_record)
          (status_field dht_record))

  unfoldable pub handle_dht :
      DhtAction
      → Body
      → (m.Cid → Finding)
      → ℕ
      → ApiState m d json
      → ApiState m d json × Answer DhtContent
  unfolding status_parsed
  handle_dht announce body net now w = announce_field now (text_field "cid" body) w
  handle_dht (providers_get cid_str) body net now w = (w, find_field net (checked (some cid_str)))
  handle_dht providers_post body net now w = (w, find_field net (text_field "cid" body))
  handle_dht (status cid_str) body net now w =
      (w, status_parsed cid_str (m.parse cid_str) w.node.store)
