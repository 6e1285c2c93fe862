-- ===== src/Bitswap/Tests.antt =====
-- Runs of the bitswap model, and its theorems at concrete inputs.
use ipfs_shard.Shared.{
  ℕ, ◌+◌, ◌≤◌, ◌<◌, ◌≡◌, refl, List, [], ◌∷◌, arith, length, none, some, false, not, ◌==◌,
}
use ipfs_shard.Shared.Loop.{loop}
use ipfs_shard.Shared.Assoc.{lookup, insert, remove, has, add}
use ipfs_shard.Samples.{samples, cid_one}
use ipfs_shard.Varint.{append_varint, read_varint}
use ipfs_shard.Codec.Fields.{concat_bytes, encode_with_length_prefix}
use ipfs_shard.Bitswap.Frames.{frame_body, read_chunk}
use ipfs_shard.Bitswap.FrameSteps.{IsIncomplete}
use ipfs_shard.Bitswap.Framing.{read_chunk-frames, read_chunk_loses}
use ipfs_shard.Bitswap.State.{inbound, outcome_of, settle, World, resolved}
use ipfs_shard.Bitswap.Streams.{opened, Network, send_message, on_inbound_stream}
use ipfs_shard.Bitswap.Streams.Sending.{Sends, send_message-Sends}
use ipfs_shard.Bitswap.Streams.Pool.{PoolIsOpen}
use ipfs_shard.Bitswap.Streams.Events.{
  arrives, disconnects, wants, run_events, run_events-PoolIsOpen,
}
use ipfs_shard.Bitswap.Wants.{want, on_abort, take_block, finish_store}
use ipfs_shard.Bitswap.Wants.Accounting.{AllAccounted, here, next, asks, takes, Reach-AllAccounted}
use ipfs_shard.Bitswap.Wants.Promises.{find_storing}
use ipfs_shard.Bitswap.Wants.StaleAbort.{IsFresh, AtLast, on_abort_loses}
use ipfs_shard.Bitswap.Wants.StaleAbort

framing : Unit {0}
unfolding frame_body read_chunk concat_bytes encode_with_length_prefix append_varint read_varint
    loop
framing = tt

-- Two messages and the start of a third: of the four bytes of the start none is kept.
bytes_lost :
    read_chunk 9 [] (2 ∷ 8 ∷ 8 ∷ 1 ∷ 7 ∷ 5 ∷ 1 ∷ 2 ∷ 3 ∷ [])
    ≡ some ([], (8 ∷ 8 ∷ []) ∷ (7 ∷ []) ∷ [])
unfolding framing
bytes_lost = refl

abbrev two_messages : List (List ℕ)
two_messages = (8 ∷ 8 ∷ []) ∷ (7 ∷ []) ∷ []

abbrev third_start : List ℕ
third_start = 5 ∷ 1 ∷ 2 ∷ 3 ∷ []

third_start-IsIncomplete : IsIncomplete third_start
unfolding framing
third_start-IsIncomplete = record {
  some_bytes = omega arith;
  positive = omega arith;
  cut = omega arith;
}

read_chunk-frames_example : read_chunk 3 (2 ∷ 8 ∷ []) (8 ∷ 1 ∷ 7 ∷ []) ≡ some ([], two_messages)
unfolding framing
read_chunk-frames_example =
    read_chunk-frames two_messages 3 (2 ∷ 8 ∷ []) (8 ∷ 1 ∷ 7 ∷ []) (omega arith) (omega arith) refl

read_chunk_loses_example :
    (kept : List ℕ) × (read_chunk 3 [] (2 ∷ 8 ∷ 8 ∷ 1 ∷ 7 ∷ third_start)
      ≡ some (kept, two_messages))
    × (length kept < length third_start)
unfolding framing
read_chunk_loses_example =
    read_chunk_loses two_messages 3 [] (2 ∷ 8 ∷ 8 ∷ 1 ∷ 7 ∷ third_start) (omega arith) (omega arith)
      third_start third_start-IsIncomplete refl (λ e. cc)

abbrev start : World samples
start = record {
  node = record {
    stream_pool = [];
    pending_wants = [];
    registrar_ids = "topology" ∷ [];
    unsupported_peers = [];
  };
  issued = 0;
  settled = [];
  storing = [];
  dials = 0;
  sent = [];
  hung_up = [];
}

-- The first stream opened, of number 7, is dead.
abbrev network : Network
network = record { dial = λ n peer. opened (7 + n); can_send = λ stream. not (stream == 7) }

sending : Unit {0}
unfolding send_message want lookup insert remove has add outcome_of settle take_block finish_store
    encode_with_length_prefix concat_bytes append_varint on_inbound_stream on_abort
sending = tt

send_message-Sends_example :
    Sends samples network 4 "p" (9 ∷ []) start (send_message samples network 4 "p" (9 ∷ []) start)
    × ((send_message samples network 4 "p" (9 ∷ []) start).0.dials ≤ 0 + 2)
send_message-Sends_example = send_message-Sends samples network 4 "p" (9 ∷ []) start

abbrev pooled : World samples
pooled = record start {
  node = record {
    stream_pool =
        (
          "p",
          record { stream = 1; direction = inbound; created_at = 0; last_used = 0; closed = false },
        )
        ∷ [];
    pending_wants = [];
    registrar_ids = "topology" ∷ [];
    unsupported_peers = [];
  };
}

run_events-PoolIsOpen_example :
    PoolIsOpen samples
      (run_events samples (arrives 5 1 "q" ∷ wants cid_one ∷ disconnects "p" ∷ []) pooled)
run_events-PoolIsOpen_example =
    run_events-PoolIsOpen samples (arrives 5 1 "q" ∷ wants cid_one ∷ disconnects "p" ∷ []) pooled
      (refl, tt)

Reach-AllAccounted_example :
    AllAccounted samples (take_block samples cid_one (1 ∷ 7 ∷ []) (want samples cid_one start).0)
Reach-AllAccounted_example =
    Reach-AllAccounted samples {s = start} (λ d h. elim h [ ])
      (next (next here (asks cid_one start))
        (takes cid_one (1 ∷ 7 ∷ []) (want samples cid_one start).0))

-- The first want for `cid_one` has been resolved; its listener runs while a second is waiting.
abbrev resolved_once : World samples
resolved_once = record start { issued = 1; settled = (0, resolved (1 ∷ 7 ∷ [])) ∷ [] }

resolved_once_lem :
    finish_store samples 0
      (1 ∷ 7 ∷ [])
      (take_block samples cid_one (1 ∷ 7 ∷ []) (want samples cid_one start).0)
    ≡ resolved_once
unfolding sending
resolved_once_lem = refl

on_abort_loses_example :
    outcome_of 1 (on_abort samples cid_one 0 (want samples cid_one resolved_once).0).settled ≡ none
unfolding outcome_of lookup find_storing
on_abort_loses_example =
    on_abort_loses samples cid_one 0 resolved_once
      (on_abort samples cid_one 0 (want samples cid_one resolved_once).0)
      (record { absent = tt; not_storing = refl; unsettled = refl }) refl (omega arith)
      StaleAbort.AtLast.here
