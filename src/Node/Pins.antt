-- ===== src/Node/Pins.antt =====
-- The error handling of the datastore, and the pins, of src/ipfs-node.ts. The datastore, of the
-- package `interface-datastore`, is not part of the repository: it is an argument.
use Prim.Native.String.{len, slice, ◌++◌ as text_append}
use ipfs_shard.Shared.{
  ℕ, List, [], ◌∷◌, Bool, false, ◌||◌, Option, none, some, String, str_eq, if◌then◌else◌,
}
use ipfs_shard.Multiformats.{Multiformats}
use ipfs_shard.InterfaceBlockstore.{Failure}
use ipfs_shard.Blockstores.Network.{includes}

-- How an asynchronous call ends.
pub data Tried {ℓ} (A : Type ℓ) : Type ℓ where
  returned : A → Tried A
  threw : Failure → Tried A

pub record Datastore : Type 1 where
  pub Store : Type 0
  pub get : String → Store → Tried (List ℕ)
  pub has : String → Store → Tried Bool
  pub put : String → List ℕ → Store → Tried Store
  pub delete : String → Store → Tried Store
  -- the keys that start with a prefix
  pub query : String → Store → Tried (List String)

unfoldable pub is_no_such_key : Failure → Bool
is_no_such_key err =
    str_eq err.name "GetFailedError"
    || str_eq err.code "NoSuchKey"
    || includes err.message "NoSuchKey"

-- `new NotFoundError(key)`
abbrev pub not_found_error : String → Failure
not_found_error key = record { name = "NotFoundError"; code = ""; message = key }

unfoldable pub convert_get : String → Tried (List ℕ) → Tried (List ℕ)
unfolding is_no_such_key
convert_get key (returned content) = returned content
convert_get key (threw err) = if is_no_such_key err then threw (not_found_error key) else threw err

unfoldable pub convert_has : Tried Bool → Tried Bool
unfolding is_no_such_key
convert_has (returned there) = returned there
convert_has (threw err) = if is_no_such_key err then returned false else threw err

abbrev pub wrap_datastore_with_error_handler : Datastore → Datastore
wrap_datastore_with_error_handler d = record d {
  get = λ key s. convert_get key (d.get key s);
  has = λ key s. convert_has (d.has key s);
}

abbrev pub or_false : Tried Bool → Bool
or_false (returned there) = there
or_false (threw err) = false

-- `String(err)`
abbrev pub show_failure : Failure → String
show_failure err = text_append err.name (text_append ": " err.message)

abbrev pub rethrown : String → String → Failure → Failure
rethrown what cid err = record {
  name = "Error";
  code = "";
  message = text_append what (text_append cid (text_append ": " (show_failure err)));
}

module _ (m : Multiformats) (d : Datastore) where
  unfoldable pub pin_key : m.Cid → String
  pin_key cid = text_append "/local/pins/" (m.to_string cid)

  unfoldable pub is_pinned : m.Cid → d.Store → Bool
  unfolding pin_key
  is_pinned cid s = or_false (d.has (pin_key cid) s)

  abbrev pub after_put : m.Cid → Tried d.Store → Tried d.Store
  after_put cid (returned s) = returned s
  after_put cid (threw err) = threw (rethrown "Failed to pin " (m.to_string cid) err)

  unfoldable pub pin_add : m.Cid → d.Store → Tried d.Store
  unfolding pin_key
  pin_add cid s = after_put cid (d.put (pin_key cid) [] s)

  -- A pin that does not exist is not an error.
  abbrev pub after_delete : m.Cid → d.Store → Tried d.Store → Tried d.Store
  after_delete cid s (returned s') = returned s'
  after_delete cid s (threw err) =
      if includes err.message "not found"
      then returned s
      else threw (rethrown "Failed to unpin " (m.to_string cid) err)

  unfoldable pub pin_rm : m.Cid → d.Store → Tried d.Store
  unfolding pin_key
  pin_rm cid s = after_delete cid s (d.delete (pin_key cid) s)

  abbrev pub cons_some : Option m.Cid → List m.Cid → List m.Cid
  cons_some none cids = cids
  cons_some (some cid) cids = cid ∷ cids

  -- `key.substring('/local/pins/'.length)`
  unfoldable pub pin_name : String → String
  pin_name key = slice key (len "/local/pins/") (len key)

  -- A key that is no CID is skipped.
  unfoldable pub parse_keys : List String → List m.Cid
  unfolding pin_name
  parse_keys [] = []
  parse_keys (key ∷ keys) = cons_some (m.parse (pin_name key)) (parse_keys keys)

  abbrev pub after_query : Tried (List String) → Tried (List m.Cid)
  after_query (returned keys) = returned (parse_keys keys)
  after_query (threw err) = threw (rethrown "Failed to list pins" "" err)

  unfoldable pub pin_ls : d.Store → Tried (List m.Cid)
  unfolding parse_keys
  pin_ls s = after_query (d.query "/local/pins/" s)
