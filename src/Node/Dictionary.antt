-- ===== src/Node/Dictionary.antt =====
-- A datastore that is a dictionary and throws `NoSuchKey` for a missing key, as S3 does: the tests
-- and the examples run at it, behind `wrapDatastoreWithErrorHandler` of src/ipfs-node.ts.
use Prim.Native.String.{len, slice}
use ipfs_shard.Shared.{
  ℕ, List, [], ◌∷◌, Bool, true, Option, none, some, String, ◌≡◌, sym, ap, ◌∙◌, str_eq,
  if◌then◌else◌,
}
use ipfs_shard.Shared.Assoc.{
  lookup, insert, remove, lookup-insert_self, lookup-insert_ne, lookup-remove_self,
  lookup-remove_ne,
}
use ipfs_shard.InterfaceBlockstore.{Failure}
use ipfs_shard.Node.Pins.{
  Tried, returned, threw, Datastore, is_no_such_key, convert_has, wrap_datastore_with_error_handler,
}
use ipfs_shard.Node.Pinning.{DatastoreLaws}

abbrev pub Dictionary : Type 0
Dictionary = List (String × List ℕ)

abbrev pub no_such_key : Failure
no_such_key = record { name = "GetFailedError"; code = "NoSuchKey"; message = "" }

abbrev pub there : Option (List ℕ) → Tried Bool
there none = threw no_such_key
there (some v) = returned true

abbrev pub content : Option (List ℕ) → Tried (List ℕ)
content none = threw no_such_key
content (some v) = returned v

abbrev pub keys_of : String → Dictionary → List String
keys_of prefix [] = []
keys_of prefix ((k, v) ∷ s) =
    let rest = keys_of prefix s in if str_eq (slice k 0 (len prefix)) prefix then k ∷ rest else rest

abbrev pub s3 : Datastore
s3 = record {
  Store = Dictionary;
  get = λ k s. content (lookup k s);
  has = λ k s. there (lookup k s);
  put = λ k v s. returned (insert k v s);
  delete = λ k s. returned (remove k s);
  query = λ prefix s. returned (keys_of prefix s);
}

abbrev pub wrapped : Datastore
wrapped = wrap_datastore_with_error_handler s3

pub same_store : (a b : Dictionary) → ◌≡◌ {A = Tried Dictionary} (returned a) (returned b) → a ≡ b
same_store a b e = cc

pub wrapped-DatastoreLaws : DatastoreLaws wrapped
unfolding convert_has is_no_such_key
wrapped-DatastoreLaws = record {
  has_put = λ k v s s' e.
      ap (λ (o : Option (List ℕ)). convert_has (there o))
        (ap (lookup k) (sym (same_store (insert k v s) s' e)) ∙ lookup-insert_self k v s);
  has_put_ne = λ k j v s s' e d.
      ap (λ (o : Option (List ℕ)). convert_has (there o))
        (ap (lookup j) (sym (same_store (insert k v s) s' e)) ∙ lookup-insert_ne k j v s d);
  has_delete = λ k s s' e.
      ap (λ (o : Option (List ℕ)). convert_has (there o))
        (ap (lookup k) (sym (same_store (remove k s) s' e)) ∙ lookup-remove_self k s);
  has_delete_ne = λ k j s s' e d.
      ap (λ (o : Option (List ℕ)). convert_has (there o))
        (ap (lookup j) (sym (same_store (remove k s) s' e)) ∙ lookup-remove_ne k j s d);
  has_missing = λ k s err e missing. absurd (cc);
}
