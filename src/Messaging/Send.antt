-- ===== src/Messaging/Send.antt =====
-- `send_message` to one agent (backend/app/services/messaging/service.py). Publishing and posting
-- follow the commit and change no row.
use open_agent_net.Prelude.{ℕ, String, Option, none, some, ◌==◌, if◌then◌else◌, is_some}
use open_agent_net.Tasks.{Task, TaskStatus, Payload}
use open_agent_net.Agents.{Agent}
use open_agent_net.Negotiation.State.{TaskContract}
use open_agent_net.Db.{ok, err, pure, raise_if, gets, or_raise, ◌>>=◌, ◌>>◌, lookup, add_row}
use open_agent_net.Messaging.State.{
  Envelope, Settings, Libraries, Network, DeliveryMode, queued, http, nats, ttl_expired,
  recipient_not_found, sender_not_found, database_error, Action,
}
use open_agent_net.Messaging.Guards.{
  envelope_hash, check_duplicate, recipient_row, sender_row, check_signature, task_data,
  check_payload, find_contract,
}

-- A row with the defaults of the columns that are not given.
abbrev pub new_task :
    Libraries → ℕ → Envelope → ℕ → ℕ → String → Payload → Option (ℕ × TaskContract) → Task
new_task lib now e sender recipient capability p contract = record {
  from_agent_id = sender;
  to_agent_id = recipient;
  capability_name = capability;
  payload = p;
  constraints = e.constraints;
  conversation_id = none;
  status = TaskStatus.pending;
  result = none;
  error_code = none;
  error_message = none;
  negotiation_id = elim contract [ none ↦ none | some c ↦ some c.1.negotiation_id ];
  contract_id = elim contract [ none ↦ none | some c ↦ some c.0 ];
  execution_ms = none;
  created_at = now;
  completed_at = none;
  ttl_seconds = e.ttl_seconds;
  envelope_hash = some (envelope_hash lib e);
}

-- `db.add(task)` and the flush, which refuses a key that is no UUID or taken.
unfoldable pub add_task : Option ℕ → Task → Action ℕ
add_task none t db = err database_error
add_task (some id) t db =
    if is_some (lookup id db.tasks)
    then err database_error
    else ok (id, record db { tasks = add_row id t db.tasks })

abbrev pub delivery_mode : Network → ℕ → Agent → Envelope → DeliveryMode
delivery_mode net recipient a e =
    if net.post a.endpoint e
    then http
    else if net.publish_to_agent recipient e
    then nats
    else queued

-- From the signature to the insertion, once the two parties are known.
unfoldable pub send_between :
    Libraries
    → Settings
    → Network
    → ℕ
    → Option ℕ
    → Envelope
    → ℕ × Agent
    → ℕ × Agent
    → Action (ℕ × DeliveryMode)
send_between lib settings net now key e recipient sender = do
  check_signature lib settings sender.1 e
  check_payload lib settings recipient.1 (task_data lib e).0 (task_data lib e).1
  contract ← find_contract lib e sender.0 recipient.0 (task_data lib e).0
  id ←
      add_task key
        (new_task lib now e sender.0 recipient.0 (task_data lib e).0 (task_data lib e).1 contract)
  pure (id, delivery_mode net recipient.0 recipient.1 e)

unfoldable pub send_to_agent :
    Libraries → Settings → Network → ℕ → ℕ → Envelope → String → Action (ℕ × DeliveryMode)
send_to_agent lib settings net now draw e spelled = do
  key ← check_duplicate lib draw e
  raise_if (e.ttl_seconds == 0) ttl_expired
  found ← gets (recipient_row lib e.to)
  recipient ← or_raise found recipient_not_found
  known ← gets (sender_row lib spelled)
  sender ← or_raise known sender_not_found
  send_between lib settings net now key e recipient sender
