-- ===== src/Messaging/State.antt =====
-- What the messaging service reads and writes: the envelope of a message, the settings, and the tables.
use open_agent_net.Prelude.{ℕ, String, Bool, Option, none, some, List, if◌then◌else◌}
use open_agent_net.Identifiers.{Uuid, is_empty}
use open_agent_net.Tasks.{Task, Payload, Constraints}
use open_agent_net.Agents.{Agent}
use open_agent_net.Negotiation.State.{TaskContract}
use open_agent_net.Teams.State.{Team, TeamMember}
use open_agent_net.Db.{Table, Tx}

-- `task`, `body` or `payload` of an envelope: a text or an object.
pub data Body : Type 0 where
  text : String → Body
  object : Payload → Body

-- An envelope without `ttl_seconds` has 60; times to live are not negative.
pub record Envelope : Type 0 where
  pub to : String
  pub message_id : Option String
  pub conversation_id : Option String
  pub task : Option Body
  pub body : Option Body
  pub payload : Option Payload
  pub constraints : Constraints
  pub ttl_seconds : ℕ
  pub signature : Option String
  pub contract_id : Option String

pub record Settings : Type 0 where
  pub require_message_signatures : Bool
  pub validate_task_payloads : Bool
  pub heartbeat_interval_seconds : ℕ
  pub heartbeat_miss_threshold : ℕ

-- The libraries: SHA-256 of the canonical JSON, the signature of a body under a public key (`none` is
-- a key that cannot be read), JSON Schema, and the text of a JSON object.
pub record Libraries : Type 0 where
  pub uuid : Uuid
  pub hash : Envelope → String
  pub verify : String → String → Envelope → Option Bool
  pub satisfies : String → String → Bool
  pub dumps : Payload → String

-- What the deliveries after the commit meet: HTTP answers below 400, and NATS.
pub record Network : Type 0 where
  pub post : String → Envelope → Bool
  pub publish_to_agent : ℕ → Envelope → Bool
  pub publish_to_team : ℕ → Envelope → Bool

pub data DeliveryMode : Type 0 where
  queued http nats team_nats team_http : DeliveryMode

pub record MessagingDb : Type 0 where
  pub tasks : Table Task
  pub agents : Table Agent
  pub contracts : Table TaskContract
  pub teams : Table Team
  pub members : List TeamMember

pub data MessagingError : Type 0 where
  invalid_agent agent_not_found duplicate_message_id duplicate_message ttl_expired : MessagingError
  recipient_not_found sender_not_found signature_required invalid_key invalid_signature :
      MessagingError
  payload_invalid invalid_contract contract_not_active contract_mismatch : MessagingError
  invalid_team team_not_found no_active_members invalid_conversation : MessagingError
  multiple_results database_error : MessagingError

abbrev pub Action : Type 0 → Type 0
Action A = Tx MessagingDb MessagingError A

-- A text that is neither `None` nor empty.
abbrev pub truthy : Option String → Option String
truthy none = none
truthy (some s) = if is_empty s then none else some s
