-- ===== src/Startup/Logging.antt =====
-- Which lines the three loggers of src/logger.ts write, by `LOG_LEVEL`; writing them is left to the
-- package pino.
use ipfs_shard.Shared.{
  Bool, true, false, ◌||◌, Option, none, some, String, str_eq, ◌≡◌, refl, if◌then◌else◌,
}

pub data Channel : Type 0 where
  peer bitswap dht : Channel

-- `process.env.LOG_LEVEL || 'info'`
abbrev pub log_level : Option String → String
log_level none = "info"
log_level (some s) = if str_eq s "" then "info" else s

abbrev pub channel_name : Channel → String
channel_name peer = "peer"
channel_name bitswap = "bitswap"
channel_name dht = "dht"

-- `shouldLogPeer`, `shouldLogBitswap` and `shouldLogDHT`.
unfoldable pub should_log : Channel → String → Bool
should_log channel level = str_eq level (channel_name channel) || str_eq level "trace"

-- The level that pino is given.
unfoldable pub pino_level : String → String
pino_level level =
    if str_eq level "peer" || (str_eq level "bitswap" || str_eq level "dht") then "debug" else level

-- With the level `debug`, unlike with `trace`, no line of the three channels is written.
pub should_log-debug :
    (channel : Channel) → (should_log channel "debug" ≡ false) × (should_log channel "trace" ≡ true)
unfolding should_log
should_log-debug peer = (refl, refl)
should_log-debug bitswap = (refl, refl)
should_log-debug dht = (refl, refl)
