-- ===== src/Agents.antt =====
-- The rows of the `agents` table (backend/app/models/agent.py), which the registry, messaging, trust
-- and the workers share.
use open_agent_net.Prelude.{ℕ, String, Bool, true, false, Option, List}

pub data AgentStatus : Type 0 where
  active inactive suspended deregistered : AgentStatus

-- One entry of `capabilities`: the keys that the services read.
pub record Capability : Type 0 where
  pub name : String
  pub input_schema : Option String
  pub latency_estimate_ms : Option ℕ
  pub others : String

-- The columns that the services read or write; the other JSON columns are kept as a text.
pub record Agent : Type 0 where
  pub did : String
  pub name : String
  pub version : String
  pub status : AgentStatus
  pub endpoint : String
  pub public_key : String
  pub key_id : String
  pub capabilities : List Capability
  pub metadata : String
  pub others : String
  pub last_seen_at : Option ℕ
  pub created_at : ℕ
  pub updated_at : ℕ
  pub deleted_at : Option ℕ

pub record ApiKey : Type 0 where
  pub agent_id : ℕ
  pub key_hash : String
  pub key_prefix : String
  pub is_active : Bool
  pub last_used_at : Option ℕ

abbrev pub is_active : AgentStatus → Bool
is_active active = true
is_active _ = false
