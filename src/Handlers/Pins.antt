-- ===== src/Handlers/Pins.antt =====
-- `handlePins` of src/api/pins.ts. The look into the blockstore behind `pins.add` only decides on a
-- line of the log; the announcement, which is not awaited, is taken before the answer.
use ipfs_shard.Shared.{ℕ, List, map, length, Option, none, some, String}
use ipfs_shard.Shared.Int.{pos, negsuc, ◌+ℤ◌}
use ipfs_shard.Multiformats.{Multiformats}
use ipfs_shard.Node.Pins.{Tried, returned, threw, Datastore, pin_add, pin_rm, pin_ls}
use ipfs_shard.Announce.Status.{Json}
use ipfs_shard.Announce.Events.{announce_content}
use ipfs_shard.Handlers.Answers.{
  Body, BodyField, throws, no_text, text, text_field, Answer, ok, refused, ApiState,
}

pub data PinsAction : Type 0 where
  list add remove : PinsAction

-- `{ pins, count }` and `{ ok: true, cid }`.
pub data PinsContent : Type 0 where
  pins : List String → ℕ → PinsContent
  done : String → PinsContent

module _ (m : Multiformats) (d : Datastore) (json : Json) where
  abbrev pub with_store : d.Store → ApiState m d json → ApiState m d json
  with_store s w = record w { node = record w.node { store = s } }

  abbrev pub listed : Tried (List m.Cid) → Answer PinsContent
  listed (threw err) = refused 400 "Invalid request body"
  listed (returned cids) = let texts = map m.to_string cids in ok (pins texts (length texts))

  -- Behind `await ctx.node.pins.add(cid)`.
  unfoldable pub after_pin :
      m.Cid
      → String
      → ℕ
      → Tried d.Store
      → ApiState m d json
      → ApiState m d json × Answer PinsContent
  after_pin cid cid_str now (threw err) w = (w, refused 500 "Failed to pin content")
  after_pin cid cid_str now (returned s) w =
      let pinned = with_store s w in
      (
        record pinned {
          node = announce_content m d json cid now pinned.node;
          pins_total = w.pins_total +ℤ pos 1;
        },
        ok (done cid_str),
      )

  abbrev pub pin_parsed :
      String → ℕ → Option m.Cid → ApiState m d json → ApiState m d json × Answer PinsContent
  pin_parsed cid_str now none w = (w, refused 500 "Failed to pin content")
  pin_parsed cid_str now (some cid) w = after_pin cid cid_str now (pin_add m d cid w.node.store) w

  unfoldable pub after_unpin :
      String → Tried d.Store → ApiState m d json → ApiState m d json × Answer PinsContent
  after_unpin cid_str (threw err) w = (w, refused 500 "Failed to unpin content")
  after_unpin cid_str (returned s) w =
      (record (with_store s w) { pins_total = w.pins_total +ℤ negsuc 0 }, ok (done cid_str))

  abbrev pub unpin_parsed :
      String → Option m.Cid → ApiState m d json → ApiState m d json × Answer PinsContent
  unpin_parsed cid_str none w = (w, refused 500 "Failed to unpin content")
  unpin_parsed cid_str (some cid) w = after_unpin cid_str (pin_rm m d cid w.node.store) w

  abbrev pub add_field : ℕ → BodyField → ApiState m d json → ApiState m d json × Answer PinsContent
  add_field now throws w = (w, refused 400 "Invalid request body")
  add_field now no_text w = (w, refused 400 "Missing or invalid cid field")
  add_field now (text cid_str) w = pin_parsed cid_str now (m.parse cid_str) w

  abbrev pub remove_field : BodyField → ApiState m d json → ApiState m d json × Answer PinsContent
  remove_field throws w = (w, refused 400 "Invalid request body")
  remove_field no_text w = (w, refused 400 "Missing or invalid cid field")
  remove_field (text cid_str) w = unpin_parsed cid_str (m.parse cid_str) w

  unfoldable pub handle_pins :
      PinsAction → Body → ℕ → ApiState m d json → ApiState m d json × Answer PinsContent
  unfolding after_pin after_unpin
  handle_pins list body now w = (w, listed (pin_ls m d w.node.store))
  handle_pins add body now w = add_field now (text_field "cid" body) w
  handle_pins remove body now w = remove_field (text_field "cid" body) w
