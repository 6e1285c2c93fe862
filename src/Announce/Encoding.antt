-- ===== src/Announce/Encoding.antt =====
-- An encoding of the records that keeps their status, and a node that has announced nothing, for the
-- examples.
use ipfs_shard.Shared.{
  ℕ, List, [], ◌∷◌, false, Option, none, some, ◌==◌, if◌then◌else◌, ◌≡◌, refl, sym, ap, ◌∙◌,
}
use ipfs_shard.Shared.Assoc.{
  lookup, insert, remove, lookup-insert_self, lookup-insert_ne, lookup-remove_ne,
}
use ipfs_shard.Samples.{texts}
use ipfs_shard.Node.Pins.{convert_get}
use ipfs_shard.Node.Dictionary.{Dictionary, content, same_store, wrapped}
use ipfs_shard.Announce.Status.{Status, pending, success, failed, AnnounceRecord, Json}
use ipfs_shard.Announce.Events.{Announcing}
use ipfs_shard.Announce.Keys.{ValueLaws, ReadsBack}

abbrev status_number : Status → ℕ
status_number pending = 0
status_number success = 1
status_number failed = 2

abbrev numbered : ℕ → Status
numbered n = if n == 0 then pending else if n == 1 then success else failed

abbrev record_of : List ℕ → Option AnnounceRecord
record_of [] = none
record_of (n ∷ ns) = some (record { status = numbered n; announced_at = 0; error = none })

abbrev pub by_status : Json
by_status = record { stringify = λ r. status_number r.status ∷ []; parse = record_of }

pub by_status-ReadsBack : ReadsBack texts wrapped by_status
by_status-ReadsBack r = kept r.status
  where
    kept : (s : Status) → some (numbered (status_number s)) ≡ some s
    kept pending = refl
    kept success = refl
    kept failed = refl

pub wrapped-ValueLaws : ValueLaws wrapped
unfolding convert_get
wrapped-ValueLaws = record {
  get_put = λ k v s s' e.
      ap (λ (o : Option (List ℕ)). convert_get k (content o))
        (ap (lookup k) (sym (same_store (insert k v s) s' e)) ∙ lookup-insert_self k v s);
  get_put_ne = λ k j v s s' e d.
      ap (λ (o : Option (List ℕ)). convert_get j (content o))
        (ap (lookup j) (sym (same_store (insert k v s) s' e)) ∙ lookup-insert_ne k j v s d);
  get_delete_ne = λ k j s s' e d.
      ap (λ (o : Option (List ℕ)). convert_get j (content o))
        (ap (lookup j) (sym (same_store (remove k s) s' e)) ∙ lookup-remove_ne k j s d);
}

abbrev pub idle : Dictionary → Announcing texts wrapped by_status
idle s = record {
  store = s;
  asked = [];
  provided = [];
  stopped = false;
  reprovided = 0;
  reprovide_errors = 0;
  last_run = 0;
  duration_ms = 0;
}
