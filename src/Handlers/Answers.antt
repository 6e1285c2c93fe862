-- ===== src/Handlers/Answers.antt =====
-- What the handlers of src/api/ share: the JSON body of a request as `parseJsonBody` of
-- src/api/helpers.ts gives it, the answer, and the state that the handlers change. The details of an
-- error answer, which quote an exception, are left out.
use ipfs_shard.Shared.{ℕ, Option, none, some, String, str_eq, if◌then◌else◌}
use ipfs_shard.Shared.Int.{ℤ}
use ipfs_shard.Multiformats.{Multiformats}
use ipfs_shard.Node.Pins.{Datastore}
use ipfs_shard.Announce.Status.{Json}
use ipfs_shard.Announce.Events.{Announcing}

-- A body that is no JSON or could not be received, the JSON `null`, and any other: its fields, each
-- the text that it holds. A number or an array has no text under any name.
pub data Body : Type 0 where
  unreadable null_body : Body
  fields : (String → Option String) → Body

-- `body.name`, which throws for `null`, behind `await parseJsonBody(req)`.
pub data BodyField : Type 0 where
  throws : BodyField
  no_text : BodyField
  text : String → BodyField

-- `!value || typeof value !== 'string'`
abbrev pub checked : Option String → BodyField
checked none = no_text
checked (some s) = if str_eq s "" then no_text else text s

abbrev pub text_field : String → Body → BodyField
text_field name unreadable = throws
text_field name null_body = throws
text_field name (fields get) = checked (get name)

-- An answer with status 200 and its content, or another status and the text under `error`.
pub data Answer {ℓ} (A : Type ℓ) : Type ℓ where
  ok : A → Answer A
  refused : ℕ → String → Answer A

abbrev pub status_code {ℓ} : {A : Type ℓ} → Answer A → ℕ
status_code (ok a) = 200
status_code (refused status error) = status

-- The node, the gauge `pinsTotalGauge`, and `lastAnnouncedAt` and `totalProvidersAnnounced` of
-- src/api/dht.ts.
pub record ApiState (m : Multiformats) (d : Datastore) (json : Json) : Type 0 where
  pub node : Announcing m d json
  pub pins_total : ℤ
  pub last_announced_at : Option ℕ
  pub total_announced : ℕ
