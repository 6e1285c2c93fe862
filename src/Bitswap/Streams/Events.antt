-- ===== src/Bitswap/Streams/Events.antt =====
-- The pool over whole sequences of events: calls of the methods and callbacks, in any order.
use ipfs_shard.Shared.{ℕ, List, [], ◌∷◌, refl, String, Option-cases, inl, inr}
use ipfs_shard.Shared.Assoc.{lookup, AllValues-insert}
use ipfs_shard.Multiformats.{Multiformats}
use ipfs_shard.Bitswap.State.{inbound, World}
use ipfs_shard.Bitswap.Streams.{
  Network, new_info, on_inbound_stream, send_message, broadcast_want, on_connect, on_disconnect,
  clear_unsupported_peers,
}
use ipfs_shard.Bitswap.Wants.Accounting.{want_known, want_new, take_block-none, take_block-some}
use ipfs_shard.Bitswap.Wants.{want, on_abort, take_block, finish_store, stop}
use ipfs_shard.Bitswap.Streams.Pool.{
  IsOpen, PoolIsOpen, cleanup_stream-PoolIsOpen, send_message-PoolIsOpen, broadcast_want-PoolIsOpen,
  on_connect-PoolIsOpen, on_inbound_stream_lem,
}

module _ (m : Multiformats) where
  arrives-PoolIsOpen :
      (stream now : ℕ) (peer : String) (w : World m)
      → PoolIsOpen m w
      → PoolIsOpen m (on_inbound_stream m stream now peer w)
  arrives-PoolIsOpen stream now peer w all = elim (on_inbound_stream_lem m stream now peer w) [
    | inl (info, found, out, same) ↦ rw same all
    | inr joined ↦
        rw joined
          (AllValues-insert IsOpen peer (new_info stream inbound now) w.node.stream_pool refl all)
  ]

  want-PoolIsOpen : (cid : m.Cid) (w : World m) → PoolIsOpen m w → PoolIsOpen m (want m cid w).0
  want-PoolIsOpen cid w all = elim (Option-cases (lookup (m.to_string cid) w.node.pending_wants)) [
    | inl free ↦ rw (want_new m cid w free) all
    | inr (p, found) ↦ rw (want_known m cid w p found) all
  ]

  take_block-PoolIsOpen :
      (cid : m.Cid) (content : List ℕ) (w : World m)
      → PoolIsOpen m w
      → PoolIsOpen m (take_block m cid content w)
  take_block-PoolIsOpen cid content w all =
      elim (Option-cases (lookup (m.to_string cid) w.node.pending_wants)) [
        | inl free ↦ rw (take_block-none m cid content w free) all
        | inr (p, found) ↦ rw (take_block-some m cid content w p found) all
      ]

  -- The methods that touch the pool or the wants, as events.
  pub data Event : Type 0 where
    sends : Network → ℕ → String → List ℕ → Event
    broadcasts : Network → ℕ → m.Cid → List String → Event
    connects : Network → ℕ → String → Event
    arrives : ℕ → ℕ → String → Event
    disconnects : String → Event
    wants : m.Cid → Event
    aborts : m.Cid → ℕ → Event
    takes : m.Cid → List ℕ → Event
    finishes : ℕ → List ℕ → Event
    clears : Event
    stops : Event

  unfoldable pub run_event : Event → World m → World m
  run_event (sends net now peer message) w = (send_message m net now peer message w).0
  run_event (broadcasts net now cid peers) w = broadcast_want m net now cid peers w
  run_event (connects net now peer) w = on_connect m net now peer w
  run_event (arrives stream now peer) w = on_inbound_stream m stream now peer w
  run_event (disconnects peer) w = on_disconnect m peer w
  run_event (wants cid) w = (want m cid w).0
  run_event (aborts cid d) w = on_abort m cid d w
  run_event (takes cid content) w = take_block m cid content w
  run_event (finishes d content) w = finish_store m d content w
  run_event clears w = clear_unsupported_peers m w
  run_event stops w = stop m w

  unfoldable pub run_events : List Event → World m → World m
  unfolding run_event
  run_events [] w = w
  run_events (e ∷ es) w = run_events es (run_event e w)

  run_event-PoolIsOpen : (e : Event) (w : World m) → PoolIsOpen m w → PoolIsOpen m (run_event e w)
  unfolding run_event
  run_event-PoolIsOpen (sends net now peer message) w all =
      send_message-PoolIsOpen m net now peer message w all
  run_event-PoolIsOpen (broadcasts net now cid peers) w all =
      broadcast_want-PoolIsOpen m net now cid peers w all
  run_event-PoolIsOpen (connects net now peer) w all = on_connect-PoolIsOpen m net now peer w all
  run_event-PoolIsOpen (arrives stream now peer) w all = arrives-PoolIsOpen stream now peer w all
  run_event-PoolIsOpen (disconnects peer) w all =
      unfold on_disconnect in cleanup_stream-PoolIsOpen m peer w all
  run_event-PoolIsOpen (wants cid) w all = want-PoolIsOpen cid w all
  run_event-PoolIsOpen (aborts cid d) w all = unfold on_abort in all
  run_event-PoolIsOpen (takes cid content) w all = take_block-PoolIsOpen cid content w all
  run_event-PoolIsOpen (finishes d content) w all = unfold finish_store in all
  run_event-PoolIsOpen clears w all = unfold clear_unsupported_peers in all
  run_event-PoolIsOpen stops w all = unfold stop in tt

  -- From a pool without a closed stream, no sequence of events leads to one with: a stream is taken
  -- out of the pool when it is closed, so the test `existing.closed` never fails.
  pub run_events-PoolIsOpen :
      (es : List Event) (w : World m) → PoolIsOpen m w → PoolIsOpen m (run_events es w)
  unfolding run_events
  run_events-PoolIsOpen [] w all = all
  run_events-PoolIsOpen (e ∷ es) w all =
      run_events-PoolIsOpen es (run_event e w) (run_event-PoolIsOpen e w all)
