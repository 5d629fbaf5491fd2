-- ===== src/Workers/Tests.antt =====
-- A task whose recipient never answers, and one that has ended.
use open_agent_net.Prelude.{
  ℕ, ◌+◌, ◌≡◌, refl, String, length, false, none, some, List, [], ◌∷◌, arith,
}
use open_agent_net.Tasks.{Task, TaskStatus}
use open_agent_net.Agents.{Agent, AgentStatus}
use open_agent_net.Db.{lookup, select, update, KeysDiffer}
use open_agent_net.Trust.State.{TrustDb}
use open_agent_net.Trust.Samples.{thousandths, components}
use open_agent_net.Workers.Passes.{
  Round, Turn, delivering, expiring, delivery, delivery_due, delivery_pass, take_turns, settle,
  settle_all, retry, take_turn,
}
use open_agent_net.Workers.Rows.{IsPage}
use open_agent_net.Workers.Delivery.{Pages, Serves, Ends, deliveries, settled_stays, pending-Ends}
use open_agent_net.Workers.Outcomes.{counts, is_blamed, delivery_counts}

abbrev task : TaskStatus → Task
task s = record {
  from_agent_id = 1;
  to_agent_id = 2;
  capability_name = "sum";
  payload = record { name = none; slug = none; payload = none; others = "" };
  constraints = record {
    max_latency_ms = none;
    latency_target_ms = none;
    sla_max_latency_ms = none;
    others = "";
  };
  conversation_id = none;
  status = s;
  result = none;
  error_code = none;
  error_message = none;
  negotiation_id = none;
  contract_id = none;
  execution_ms = none;
  created_at = 5;
  completed_at = none;
  ttl_seconds = 60;
  envelope_hash = none;
}

abbrev agent : Agent
agent = record {
  did = "did:oan:a2";
  name = "adder";
  version = "1.0.0";
  status = AgentStatus.active;
  endpoint = "http://a2";
  public_key = "";
  key_id = "";
  capabilities = [];
  metadata = "";
  others = "";
  last_seen_at = none;
  created_at = 0;
  updated_at = 0;
  deleted_at = none;
}

abbrev db : TrustDb ℕ
db = record {
  records = [];
  endorsements = [];
  disputes = [];
  anomalies = [];
  tasks = (7, task TaskStatus.pending) ∷ (8, task TaskStatus.success) ∷ [];
  agents = (2, agent) ∷ [];
}

abbrev round : ℕ → Round
round now = record { now = now; accepts = λ id t e. false; page = λ rows. rows }

whole-IsPage : IsPage (λ rows. rows)
whole-IsPage = record { differ = λ t d. d; within = λ t k v e. e }

abbrev describe : String → ℕ → String
describe e n = e

abbrev describe_ttl : ℕ → String
describe_ttl n = "late"

abbrev turns : List Turn
turns = delivering (round 10) ∷ delivering (round 20) ∷ delivering (round 30) ∷ expiring 40 ∷ []

db-KeysDiffer : KeysDiffer db.tasks
unfolding lookup
db-KeysDiffer = (refl, (refl, tt))

turns-Pages : Pages turns
unfolding Pages
turns-Pages = (whole-IsPage, (whole-IsPage, (whole-IsPage, tt)))

turns-Serves : Serves thousandths components describe describe_ttl 300 7 turns db
unfolding Serves take_turn delivery_pass settle_all settle delivery retry lookup select update
turns-Serves = (λ t e w. e, (λ t e w. e, (λ t e w. e, tt)))

settled_stays_example :
    lookup 8 (take_turns thousandths components describe describe_ttl 300 turns db).tasks
    ≡ some (task TaskStatus.success)
unfolding lookup
settled_stays_example =
    settled_stays thousandths components describe describe_ttl 300 turns db 8
      (task TaskStatus.success) turns-Pages db-KeysDiffer refl refl

pending-Ends_example : Ends thousandths components describe describe_ttl 300 turns db 7
unfolding lookup deliveries
pending-Ends_example =
    pending-Ends thousandths components describe describe_ttl 300 turns db 7
      (task TaskStatus.pending) turns-Pages db-KeysDiffer turns-Serves refl (omega arith)

delivery_counts_example :
    counts thousandths components 2 (delivery_pass thousandths components describe (round 10) db)
    ≡ (
      (counts thousandths components 2 db).0
          + length (
              select
                (is_blamed (round 10) (lookup 2 db.agents) 2)
                (select (delivery_due 10) db.tasks)),
      (counts thousandths components 2 db).1,
    )
delivery_counts_example =
    delivery_counts thousandths components describe (round 10) 2 db whole-IsPage db-KeysDiffer
