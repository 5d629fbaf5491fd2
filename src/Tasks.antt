-- ===== src/Tasks.antt =====
-- The rows of the `tasks` table (backend/app/models/task.py), which messaging, the marketplace,
-- orchestration, trust and the workers share.
use open_agent_net.Prelude.{ℕ, String, Bool, true, false, Option}

pub data TaskStatus : Type 0 where
  pending acked running success partial failed declined cancelled timeout : TaskStatus

-- The keys of the JSON columns that the services read; the others are kept as a text.
pub record Payload : Type 0 where
  pub name : Option String
  pub slug : Option String
  pub payload : Option String
  pub others : String

pub record Constraints : Type 0 where
  pub max_latency_ms : Option ℕ
  pub latency_target_ms : Option ℕ
  pub sla_max_latency_ms : Option ℕ
  pub others : String

pub record TaskResult : Type 0 where
  pub delivery_attempts : Option ℕ
  pub others : String

-- The columns that the services read or write.
pub record Task : Type 0 where
  pub from_agent_id : ℕ
  pub to_agent_id : ℕ
  pub capability_name : String
  pub payload : Payload
  pub constraints : Constraints
  pub conversation_id : Option ℕ
  pub status : TaskStatus
  pub result : Option TaskResult
  pub error_code : Option String
  pub error_message : Option String
  pub negotiation_id : Option ℕ
  pub contract_id : Option ℕ
  pub execution_ms : Option ℕ
  pub created_at : ℕ
  pub completed_at : Option ℕ
  pub ttl_seconds : ℕ
  pub envelope_hash : Option String

abbrev pub is_success : TaskStatus → Bool
is_success success = true
is_success _ = false

abbrev pub is_waiting : TaskStatus → Bool
is_waiting pending = true
is_waiting _ = false
