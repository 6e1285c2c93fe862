-- ===== src/DagPb/Tests.antt =====
-- Runs of the DAG-PB decoder.
use ipfs_shard.Shared.{[], ◌∷◌, ◌≡◌, refl, some}
use ipfs_shard.Shared.Int.{pos}
use ipfs_shard.Shared.Loop.{loop}
use ipfs_shard.DagPb.{
  read_short_varint, read_part, link_body, decode_link, node_body, decode_dag_pb, unix_fs_type,
}

-- A directory with one link, to the CID 5 6, named `a`, of size 300.
a_directory :
    decode_dag_pb 9
      (0x12 ∷ 10 ∷ 0x0a ∷ 2 ∷ 5 ∷ 6 ∷ 0x12 ∷ 1 ∷ b'a' ∷ 0x18 ∷ 0xac ∷ 2 ∷ 0x0a ∷ 2 ∷ 8 ∷ 1 ∷ [])
    ≡ some (record {
      links = record { hash = some (5 ∷ 6 ∷ []); name = b'a' ∷ []; size = 300 } ∷ [];
      content = some (8 ∷ 1 ∷ []);
    })
unfolding read_short_varint read_part link_body decode_link node_body decode_dag_pb loop
a_directory = refl

directory_type : unix_fs_type (some (8 ∷ 1 ∷ [])) ≡ pos 1
unfolding unix_fs_type
directory_type = refl
