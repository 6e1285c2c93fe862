-- ===== src/Handlers/Health.antt =====
-- `handleHealth` of src/api/health.ts.
use Prim.Native.String.{◌++◌ as text_append}
use ipfs_shard.Shared.{ℕ, List, Bool, String, if◌then◌else◌}
use ipfs_shard.Handlers.Answers.{Answer, ok}

pub data S3Status : Type 0 where
  healthy degraded unknown : S3Status

-- There is no `checkS3Health`, or it throws, or it gives a Boolean.
pub data HealthCheck : Type 0 where
  no_check check_throws : HealthCheck
  checks : Bool → HealthCheck

pub record HealthContent : Type 0 where
  pub peer_id : String
  pub agent_version : String
  pub connections : ℕ
  pub uptime : ℕ
  pub multiaddrs : List String
  pub s3 : S3Status

abbrev pub s3_status : HealthCheck → S3Status
s3_status no_check = unknown
s3_status check_throws = degraded
s3_status (checks b) = if b then healthy else degraded

unfoldable pub handle_health :
    HealthCheck
    → (version peer_id : String) → (connections uptime : ℕ) → List String
    → Answer HealthContent
handle_health check version peer_id connections uptime multiaddrs = ok (record {
  peer_id = peer_id;
  agent_version = text_append "ipfs-shard/" version;
  connections = connections;
  uptime = uptime;
  multiaddrs = multiaddrs;
  s3 = s3_status check;
})
