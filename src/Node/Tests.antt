-- ===== src/Node/Tests.antt =====
-- The pins over a datastore that is a dictionary.
use ipfs_shard.Shared.{[], ◌∷◌, true, ◌≡◌, refl}
use ipfs_shard.Shared.Assoc.{lookup, insert, remove}
use ipfs_shard.Samples.{samples, cid_one, cid_two}
use ipfs_shard.Node.Pins.{
  is_no_such_key, convert_get, convert_has, pin_key, is_pinned, pin_add, pin_rm, pin_name,
  parse_keys, pin_ls,
}
use ipfs_shard.Node.Pinning.{adds, removes, run_pin, done, call, is_pinned-Runs}
use ipfs_shard.Node.Dictionary.{wrapped, wrapped-DatastoreLaws}

pinning : Unit {0}
unfolding lookup insert remove is_no_such_key convert_get convert_has pin_key is_pinned pin_add
    pin_rm pin_name parse_keys pin_ls run_pin
pinning = tt

is_pinned-Runs_example :
    is_pinned samples wrapped cid_two
      (remove "/local/pins/one" (insert "/local/pins/two" [] (insert "/local/pins/one" [] [])))
    ≡ true
unfolding pinning
is_pinned-Runs_example =
    is_pinned-Runs samples wrapped wrapped-DatastoreLaws
      (adds cid_one ∷ adds cid_two ∷ removes cid_one ∷ []) cid_two []
      (remove "/local/pins/one" (insert "/local/pins/two" [] (insert "/local/pins/one" [] [])))
      (call refl (call refl (call refl done)))
