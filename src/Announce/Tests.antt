-- ===== src/Announce/Tests.antt =====
-- Announcements over a datastore that is a dictionary, with an encoding of the records that keeps
-- their status.
use ipfs_shard.Shared.{ℕ, ◌+◌, List, [], ◌∷◌, none, some, ◌==◌, if◌then◌else◌, ◌≡◌, refl}
use ipfs_shard.Shared.Assoc.{has, lookup, insert, remove}
use ipfs_shard.Samples.{texts}
use ipfs_shard.Node.Pins.{
  pin_key, pin_add, pin_rm, pin_ls, is_pinned, pin_name, parse_keys, convert_get, convert_has,
  is_no_such_key,
}
use ipfs_shard.Node.Dictionary.{Dictionary, wrapped}
use ipfs_shard.Announce.Status.{status_key, get_status, set_status}
use ipfs_shard.Announce.Events.{
  Provide, success_at, announce_content, on_provided, on_provide_failed, reprovide_cid,
  reprovide_all, run_reprovide_loop, stop,
}
use ipfs_shard.Announce.Encoding.{by_status, idle}
use ipfs_shard.Announce.Soundness.{Event, announces, succeeds, fails, pins, run_event, run_events}
use ipfs_shard.Announce.Reproviding.{run_reprovide_loop-Did}

announcing : Unit {0}
unfolding lookup insert remove is_no_such_key convert_get convert_has pin_key is_pinned pin_add
    pin_rm pin_name parse_keys pin_ls has status_key get_status set_status announce_content
    on_provided on_provide_failed reprovide_cid reprovide_all run_reprovide_loop stop run_event
    run_events
announcing = tt

-- The first provide fails, and `stop` is called during the second.
abbrev second_stops : ℕ → Provide
second_stops n = record {
  error = if n == 0 then some "no peers" else none;
  stops = n == 1;
  now = 5000;
}

abbrev three_pins : Dictionary
three_pins = ("/local/pins/one", []) ∷ ("/local/pins/two", []) ∷ ("/local/pins/three", []) ∷ []

abbrev two_announced : List (Event texts wrapped by_status)
two_announced =
    pins "one"
    ∷ announces "one" 100
    ∷ announces "two" 200
    ∷ succeeds "one" 300
    ∷ fails "two" "no peers" 400
    ∷ []

run_ends :
    (run_reprovide_loop texts wrapped by_status second_stops 3000 9500 (idle three_pins)).asked
    ≡ "one" ∷ "two" ∷ []
unfolding announcing
run_ends = refl

announced_status :
    get_status texts wrapped by_status "one"
      (run_events texts wrapped by_status two_announced (idle [])).store
    ≡ some (success_at 0)
unfolding announcing
announced_status = refl

run_reprovide_loop-Did_example :
    ((run_reprovide_loop texts wrapped by_status second_stops 3000 9500 (idle three_pins)).asked
      ≡ "one" ∷ "two" ∷ [])
    × ((run_reprovide_loop texts wrapped by_status second_stops 3000 9500
          (idle three_pins)).provided
        ≡ "two" ∷ [])
    × ((run_reprovide_loop texts wrapped by_status second_stops 3000 9500
            (idle three_pins)).reprovided
          + (run_reprovide_loop texts wrapped by_status second_stops 3000 9500
              (idle three_pins)).reprovide_errors
        ≡ 2)
unfolding announcing
run_reprovide_loop-Did_example =
    run_reprovide_loop-Did texts wrapped by_status (λ cid. refl) second_stops 3000 9500
      ("one" ∷ "two" ∷ "three" ∷ []) (idle three_pins) refl refl
