-- ===== src/Handlers/DispatchTests.antt =====
-- Requests to the whole API at concrete inputs.
use ipfs_shard.Shared.{[], ◌∷◌, true, false, none, some, String, ◌≡◌, refl}
use ipfs_shard.Shared.Int.{pos}
use ipfs_shard.Shared.Assoc.{lookup, insert}
use ipfs_shard.Samples.{texts}
use ipfs_shard.Multiaddrs.{Multiaddrs}
use ipfs_shard.Node.Dictionary.{wrapped}
use ipfs_shard.Node.Pins.{pin_key, pin_add}
use ipfs_shard.Announce.Status.{status_key, set_status}
use ipfs_shard.Announce.Events.{announce_content}
use ipfs_shard.Announce.Encoding.{by_status, idle}
use ipfs_shard.InterfaceBlockstore.{whole}
use ipfs_shard.Api.Text.{text_eq, strip_prefix, starts_with, before_query, segment}
use ipfs_shard.Api.Router.{is_below, guards, first_route, route}
use ipfs_shard.Handlers.Answers.{fields}
use ipfs_shard.Handlers.Pins.{after_pin, handle_pins}
use ipfs_shard.Handlers.Blocks.{BlockSource}
use ipfs_shard.Handlers.Counts.{count, some_text}
use ipfs_shard.Handlers.Dispatch.{
  Program, Incoming, answered, by_pins, run_route, create_api_router,
}
use ipfs_shard.Handlers.Safe.{Kept, create_api_router-Kept}

abbrev text_addrs : Multiaddrs
text_addrs = record {
  Addr = String;
  peer_id = λ a. some a;
  to_string = λ a. a;
  parse = λ s. some s;
}

abbrev one_block : BlockSource texts
one_block = record {
  State = Unit;
  has = λ cid s. some true;
  get = λ cid s. (s, whole (7 ∷ 8 ∷ []));
}

abbrev program : Program texts text_addrs wrapped by_status one_block
program = record {
  api = record {
    node = idle [];
    pins_total = pos 0;
    last_announced_at = none;
    total_announced = 0;
  };
  serving = record { state = tt; retrieved = 0 };
  contacts = record { dialled = []; pinged = [] };
  gauges = record { dht_last_announce = pos 0; known_peers = 0; agent_versions = [] };
}

abbrev incoming : String → String → Incoming texts text_addrs wrapped by_status one_block
incoming method url = record {
  method = method;
  url = url;
  body = fields (λ name. some "one");
  cid_in_path = "one";
  peer_in_path = "a";
  arg = some "one";
  now = 100;
  fuel = 10;
  finds = λ cid. record { found = []; thrown = none; aborts = false };
  net = record { open_connections = []; dials = λ a. true; has_ping = true; pings = λ a. none };
  connections = [];
  directions = [];
  known_peers = [];
  accepts = λ slot. elim slot [ count n ↦ true | some_text ↦ false ];
  metrics_status = 200;
}

dispatching : Unit {0}
unfolding text_eq strip_prefix starts_with before_query segment is_below guards first_route route
    lookup insert pin_key pin_add status_key set_status announce_content after_pin handle_pins
    by_pins run_route create_api_router
dispatching = tt

pin_request :
    (create_api_router texts text_addrs wrapped by_status one_block
      (incoming "POST" "/pin?x=1")
      program).1
    ≡ answered 200
unfolding dispatching
pin_request = refl

create_api_router-Kept_example :
    Kept texts text_addrs wrapped by_status one_block program
      (create_api_router texts text_addrs wrapped by_status one_block
        (incoming "GET" "/cat/one")
        program).0
create_api_router-Kept_example =
    create_api_router-Kept texts text_addrs wrapped by_status one_block (incoming "GET" "/cat/one")
      program refl
