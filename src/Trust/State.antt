-- ===== src/Trust/State.antt =====
-- The tables of backend/app/models/trust.py. A trust record is keyed by its agent, which is unique;
-- the anomalies are those events of the audit log that the service reads again.
use open_agent_net.Prelude.{ℕ, String, Bool, Option, List}
use open_agent_net.Db.{Table, Tx}
use open_agent_net.Tasks.{Task}
use open_agent_net.Agents.{Agent}

pub record TrustRecord (F : Type 0) : Type 0 where
  pub trust_score : F
  pub outcome_rate : F
  pub endorsement_score : F
  pub age_factor : F
  pub dispute_penalty : F
  pub component_scores : List (String × F)
  pub total_tasks : ℕ
  pub successful_tasks : ℕ
  pub dispute_count : ℕ
  pub last_computed_at : ℕ
  pub created_at : ℕ
  pub updated_at : ℕ

pub record Endorsement (F : Type 0) : Type 0 where
  pub from_agent_id : ℕ
  pub to_agent_id : ℕ
  pub capability : String
  pub comment : Option String
  pub weight : F
  pub created_at : ℕ

pub data DisputeStatus : Type 0 where
  open_ under_review resolved_valid resolved_invalid withdrawn : DisputeStatus

pub record Dispute : Type 0 where
  pub reported_agent_id : ℕ
  pub reporter_agent_id : ℕ
  pub task_id : Option ℕ
  pub reason : String
  pub status : DisputeStatus
  pub resolution_notes : Option String
  pub resolved_by : Option ℕ
  pub reviewed_at : Option ℕ
  pub verified : Option Bool
  pub created_at : ℕ

pub data Anomaly : Type 0 where
  endorsement_ring endorsement_burst failure_rate_high success_spike_after_dormancy : Anomaly

pub record TrustDb (F : Type 0) : Type 0 where
  pub records : Table (TrustRecord F)
  pub endorsements : Table (Endorsement F)
  pub disputes : Table Dispute
  pub anomalies : List (ℕ × Anomaly)
  pub tasks : Table Task
  pub agents : Table Agent

pub data Verdict : Type 0 where
  valid invalid withdrawn unknown : Verdict

pub data TrustError : Type 0 where
  self_endorsement invalid_agent endorsement_exists integrity_error self_report invalid_uuid :
      TrustError
  unknown_verdict dispute_not_found : TrustError
  cannot_resolve cannot_review : DisputeStatus → TrustError

abbrev pub Action : Type 0 → Type 0 → Type 0
Action F A = Tx (TrustDb F) TrustError A
