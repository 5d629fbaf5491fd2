-- ===== src/Messaging/Tests.antt =====
-- One message from agent 1 to agent 2, a team of both, heartbeats and listings.
use open_agent_net.Prelude.{
  ℕ, ◌+◌, ◌≤◌, ◌≡◌, refl, String, true, false, none, some, List, [], ◌∷◌, str_eq, ◌==◌, ◌||◌, ltb,
  any, if◌then◌else◌,
}
use open_agent_net.Identifiers.{parse_agent_id, drop_chars}
use open_agent_net.Tasks.{Task, TaskStatus, is_success}
use open_agent_net.Agents.{Agent, AgentStatus, is_active}
use open_agent_net.Teams.State.{Team, TeamStatus, MemberRole}
use open_agent_net.Db.{Result, ok, err, get_db, lookup, select, add_row, KeysDiffer, Tx}
use open_agent_net.Messaging.State.{
  object, Envelope, Settings, Libraries, Network, queued, team_http, MessagingDb, MessagingError,
}
use open_agent_net.Messaging.Guards.{
  sender_row, check_duplicate, fresh_key, check_signature, check_payload, find_contract, task_data,
  capability_input_schema,
}
use open_agent_net.Messaging.Send.{send_to_agent, send_between, add_task}
use open_agent_net.Messaging.Team.{
  Broadcast, active_members, broadcast_to_team, broadcast_between, conversation, add_tasks,
  is_active_team,
}
use open_agent_net.Messaging.Presence.{
  send_heartbeat, mark_inactive_agents, patience, heartbeat_then_sweep,
}
use open_agent_net.Messaging.Sent.{Parties, Added, IsNamed, send_to_agent_sound}
use open_agent_net.Messaging.Growth.{Reached}
use open_agent_net.Messaging.Spread.{broadcast_reaches}
use open_agent_net.Messaging.Reports.{
  ReportBody, ReportError, reported_status, report_task_result, report_counts,
}
use open_agent_net.Trust.State.{TrustDb}
use open_agent_net.Trust.Samples.{thousandths, components}
use open_agent_net.Workers.Outcomes.{counts, after_outcome}
use open_agent_net.Messaging.Replay.{Request, sending, beating, sweeping, run, accepted_once}

abbrev lib : Libraries
lib = record {
  uuid = record {
    parse = λ s.
        if str_eq s "a1"
        then some 1
        else if str_eq s "a2"
        then some 2
        else if str_eq s "t9"
        then some 9
        else none;
    uuid5 = λ s. 0;
  };
  hash = λ e. e.to;
  verify = λ key s e. some true;
  satisfies = λ p s. true;
  dumps = λ p. p.others;
}

abbrev net : Network
net = record {
  post = λ a e. false;
  publish_to_agent = λ id e. false;
  publish_to_team = λ id e. false;
}

abbrev settings : Settings
settings = record {
  require_message_signatures = false;
  validate_task_payloads = true;
  heartbeat_interval_seconds = 30;
  heartbeat_miss_threshold = 3;
}

abbrev to : String → Envelope
to s = record {
  to = s;
  message_id = none;
  conversation_id = none;
  task = some (object (record { name = some "sum"; slug = none; payload = none; others = "" }));
  body = none;
  payload = none;
  constraints = record {
    max_latency_ms = none;
    latency_target_ms = none;
    sla_max_latency_ms = none;
    others = "";
  };
  ttl_seconds = 60;
  signature = none;
  contract_id = none;
}

abbrev agent : String → Agent
agent did = record {
  did = did;
  name = "adder";
  version = "1.0.0";
  status = AgentStatus.active;
  endpoint = "http://agent";
  public_key = "";
  key_id = "";
  capabilities = [];
  metadata = "";
  others = "";
  last_seen_at = none;
  created_at = 0;
  updated_at = 0;
  deleted_at = none;
}

abbrev team9 : Team
team9 = record {
  name = "adders";
  description = none;
  owner_agent_id = 1;
  status = TeamStatus.active;
  created_at = 0;
  updated_at = 0;
}

abbrev db : MessagingDb
db = record {
  tasks = [];
  agents = (1, agent "did:oan:a1") ∷ (2, agent "did:oan:a2") ∷ [];
  contracts = [];
  teams = (9, team9) ∷ [];
  members = record { team_id = 9; agent_id = 2; role = MemberRole.member; joined_at = 0 } ∷ [];
}

abbrev result_db : {A : Type 0} → Result MessagingError (A × MessagingDb) → MessagingDb
result_db (ok x) = x.1
result_db (err e) = db

abbrev after : MessagingDb
after = result_db (send_to_agent lib settings net 10 100 (to "a2") "a1" db)

db-KeysDiffer : KeysDiffer db.agents
unfolding lookup
db-KeysDiffer = (refl, (refl, tt))

sent_now : send_to_agent lib settings net 10 100 (to "a2") "a1" db ≡ ok ((100, queued), after)
unfolding send_to_agent send_between check_duplicate fresh_key check_signature check_payload
    find_contract add_task task_data lookup select add_row parse_agent_id capability_input_schema
sent_now = refl

send_to_agent_sound_example :
    (recipient sender : ℕ × Agent) × Parties lib settings net (to "a2") "a1" db recipient sender
    × Added lib settings net 10 (to "a2") recipient sender db after 100
    × IsNamed lib (to "a2") 100
send_to_agent_sound_example =
    send_to_agent_sound lib settings net 10 100 (to "a2") "a1" db after 100 queued db-KeysDiffer
      sent_now

abbrev traffic : List Request
traffic = beating 20 "a1" ∷ sending 21 (λ n. 200 + n) (to "team:t9") "a1" ∷ sweeping 150 ∷ []

accepted_once_example :
    (b : MessagingError) × (send_to_agent lib settings net 30 300
        (to "a2")
        "a2"
        (run lib settings net traffic after)
      ≡ err b)
accepted_once_example =
    accepted_once lib settings net traffic 10 100 (to "a2") "a1" db after (100, queued) 30 300 "a2"
      sent_now

abbrev broadcast_after : Broadcast × MessagingDb
broadcast_after =
    elim (broadcast_to_team lib settings net 10 (λ n. 200 + n) (to "team:t9") "a1" db) [
      | ok x ↦ x
      | err e ↦
          (record { delivery = team_http; member_count = 0; http_delivered = 0; task_ids = [] }, db)
    ]

broadcast_now :
    broadcast_to_team lib settings net 10 (λ n. 200 + n) (to "team:t9") "a1" db ≡ ok broadcast_after
unfolding broadcast_to_team broadcast_between check_signature conversation add_tasks add_task
    task_data active_members lookup select add_row parse_agent_id drop_chars any
broadcast_now = refl

broadcast_reaches_example :
    (team : ℕ) × (sender : ℕ × Agent) × (lib.uuid.parse (drop_chars 5 "team:t9") ≡ some team)
    × (1 ≤ 60)
    × (sender_row lib "a1" db ≡ some sender)
    × (is_active_team (lookup team db.teams) ≡ true)
    × Reached lib settings net 10
        (to "team:t9")
        sender
        (active_members team db)
        broadcast_after.0
        db
        broadcast_after.1
broadcast_reaches_example =
    broadcast_reaches lib settings net 10 (λ n. 200 + n) (to "team:t9") "a1" db broadcast_after.1
      broadcast_after.0 broadcast_now

abbrev beaten_db : MessagingDb
beaten_db = result_db (send_heartbeat lib.uuid 50 "a2" after)

beat_now : send_heartbeat lib.uuid 50 "a2" after ≡ ok (50, beaten_db)
unfolding send_heartbeat send_to_agent send_between check_duplicate fresh_key check_signature
    check_payload find_contract add_task task_data lookup select add_row parse_agent_id
    capability_input_schema
beat_now = refl

heartbeat_then_sweep_example :
    (a : Agent) × (lookup 2 beaten_db.agents ≡ some a)
    × (is_active a.status ≡ true)
    × (lookup 2 (get_db (mark_inactive_agents settings 200) beaten_db).agents
        ≡ some (
            if ltb (50 + patience settings) 200
            then record a { status = AgentStatus.inactive; updated_at = 200 }
            else a))
unfolding parse_agent_id
heartbeat_then_sweep_example =
    heartbeat_then_sweep lib.uuid settings 50 200 "a2" 2 after (50, beaten_db) refl beat_now

abbrev reported_db : TrustDb ℕ
reported_db = record {
  records = [];
  endorsements = [];
  disputes = [];
  anomalies = [];
  tasks = [];
  agents = [];
}

abbrev body : ReportBody
body = record {
  status = some "success";
  result = none;
  error_code = none;
  error_message = none;
  execution_ms = some 40;
}

abbrev report : Tx (TrustDb ℕ) ReportError Task
report = report_task_result thousandths components lib.uuid 60 "t9" body "a2"

abbrev a_task : Task
a_task = record {
  from_agent_id = 1;
  to_agent_id = 2;
  capability_name = "sum";
  payload = record { name = some "sum"; slug = none; payload = none; others = "" };
  constraints = (to "a2").constraints;
  conversation_id = none;
  status = TaskStatus.running;
  result = none;
  error_code = none;
  error_message = none;
  negotiation_id = none;
  contract_id = none;
  execution_ms = none;
  created_at = 5;
  completed_at = none;
  ttl_seconds = 60;
  envelope_hash = none;
}

abbrev task9 : TrustDb ℕ
task9 = record reported_db { tasks = (9, a_task) ∷ [] }

abbrev report_after : Task × TrustDb ℕ
report_after = elim (report task9) [ ok x ↦ x | err e ↦ (a_task, task9) ]

reported_now : report task9 ≡ ok report_after
unfolding report_task_result parse_agent_id lookup
reported_now = refl

report_counts_example :
    (reporter id : ℕ) × (t : Task) × (parse_agent_id lib.uuid "a2" ≡ some reporter)
    × (lookup id task9.tasks ≡ some t)
    × ((t.from_agent_id == reporter || t.to_agent_id == reporter) ≡ true)
    × (lookup id report_after.1.tasks ≡ some report_after.0)
    × (reported_status (some "success") ≡ some report_after.0.status)
    × (counts thousandths components 2 report_after.1
        ≡ after_outcome thousandths components
            (is_success report_after.0.status)
            (t.to_agent_id == 2)
            (counts thousandths components 2 task9))
report_counts_example =
    report_counts thousandths components lib.uuid 60 "t9" body "a2" 2 task9 report_after
      reported_now
