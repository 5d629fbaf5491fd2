-- ===== src/Messaging/Guards.antt =====
-- The checks of `send_message` and `broadcast_to_team` (backend/app/services/messaging/service.py).
use open_agent_net.Prelude.{
  ℕ, String, Bool, true, false, not, ◌&&◌, ◌||◌, Option, none, some, List, [], ◌∷◌, ◌==◌, str_eq,
  if◌then◌else◌, is_some,
}
use open_agent_net.Identifiers.{is_empty, parse_agent_id}
use open_agent_net.Tasks.{Task, Payload}
use open_agent_net.Agents.{Agent, Capability, is_active}
use open_agent_net.Negotiation.State.{TaskContract, ContractStatus}
use open_agent_net.Db.{ok, err, Table, lookup, select, find_row}
use open_agent_net.Messaging.State.{
  Body, text, object, Envelope, Settings, Libraries, MessagingDb, duplicate_message_id,
  duplicate_message, signature_required, invalid_key, invalid_signature, payload_invalid,
  invalid_contract, contract_not_active, contract_mismatch, multiple_results, Action, truthy,
}

abbrev pub unsigned : Envelope → Envelope
unsigned e = record e { signature = none }

abbrev pub envelope_hash : Libraries → Envelope → String
envelope_hash lib e = lib.hash (unsigned e)

abbrev pub has_hash : String → Task → Bool
has_hash h t = elim t.envelope_hash [ none ↦ false | some g ↦ str_eq g h ]

-- Without a `message_id`: the drawn key, where no task has the hash.
unfoldable pub fresh_key : ℕ → Table Task → Action (Option ℕ)
fresh_key draw [] db = ok (some draw, db)
fresh_key draw (x ∷ []) db = err duplicate_message
fresh_key draw (x ∷ y ∷ rest) db = err multiple_results

-- The deduplication. A `message_id` that is no UUID is not looked up, and the insertion refuses it.
unfoldable pub check_duplicate : Libraries → ℕ → Envelope → Action (Option ℕ)
check_duplicate lib draw e db = elim (truthy e.message_id) [
  | some spelled ↦ elim (lib.uuid.parse spelled) [
    | none ↦ ok (none, db)
    | some id ↦ if is_some (lookup id db.tasks) then err duplicate_message_id else ok (some id, db)
  ]
  | none ↦ fresh_key draw (select (λ id t. has_hash (envelope_hash lib e) t) db.tasks) db
]

abbrev pub is_present : Agent → Bool
is_present a = not (is_some a.deleted_at)

abbrev pub is_reachable : Agent → Bool
is_reachable a = is_present a && is_active a.status

abbrev pub filtered : (Agent → Bool) → ℕ → Option Agent → Option (ℕ × Agent)
filtered p id none = none
filtered p id (some a) = if p a then some (id, a) else none

abbrev pub recipient_row : Libraries → String → MessagingDb → Option (ℕ × Agent)
recipient_row lib did db = elim (parse_agent_id lib.uuid did) [
  | some id ↦ filtered is_reachable id (lookup id db.agents)
  | none ↦ find_row (λ a. is_reachable a && str_eq a.did did) db.agents
]

abbrev pub sender_row : Libraries → String → MessagingDb → Option (ℕ × Agent)
sender_row lib spelled db = elim (parse_agent_id lib.uuid spelled) [
  | none ↦ none
  | some id ↦ filtered is_present id (lookup id db.agents)
]

-- The signature, where there is one or one is required.
unfoldable pub check_signature : Libraries → Settings → Agent → Envelope → Action (Unit {0})
check_signature lib settings sender e db = elim (truthy e.signature) [
  | none ↦ if settings.require_message_signatures then err signature_required else ok (tt, db)
  | some s ↦ elim (lib.verify sender.public_key s (unsigned e)) [
    | none ↦ err invalid_key
    | some good ↦ if good then ok (tt, db) else err invalid_signature
  ]
]

abbrev pub empty_payload : Payload
empty_payload = record { name = none; slug = none; payload = none; others = "" }

abbrev pub is_empty_object : Payload → Bool
is_empty_object p = not (is_some p.name || is_some p.slug || is_some p.payload) && is_empty p.others

abbrev pub truthy_body : Option Body → Option Body
truthy_body none = none
truthy_body (some (text s)) = if is_empty s then none else some (text s)
truthy_body (some (object p)) = if is_empty_object p then none else some (object p)

abbrev pub or_else : Option Body → Option Body → Option Body
or_else none later = later
or_else (some b) later = some b

abbrev pub object_of : Option Payload → Option Body
object_of none = none
object_of (some p) = truthy_body (some (object p))

-- `task_data.get("name", task_data.get("slug", ""))`
abbrev pub name_of : Payload → String
name_of p = elim p.name [ some n ↦ n | none ↦ elim p.slug [ some s ↦ s | none ↦ "" ] ]

abbrev pub text_payload : Libraries → Envelope → Option String
text_payload lib e = elim e.payload [ none ↦ some "{}" | some p ↦ some (lib.dumps p) ]

-- The capability and the data of the task.
unfoldable pub task_data : Libraries → Envelope → String × Payload
task_data lib e =
    elim (or_else (truthy_body e.task) (or_else (truthy_body e.body) (object_of e.payload))) [
      | none ↦ ("", empty_payload)
      | some (text s) ↦
          (s, record { name = some s; slug = none; payload = text_payload lib e; others = "" })
      | some (object p) ↦ (name_of p, p)
    ]

-- `_capability_input_schema`: the first entry with the name decides.
unfoldable pub capability_input_schema : String → List Capability → Option String
capability_input_schema name [] = none
capability_input_schema name (c ∷ cs) =
    if str_eq c.name name then c.input_schema else capability_input_schema name cs

abbrev pub inner_payload : Payload → String
inner_payload p = elim p.payload [ none ↦ "{}" | some s ↦ s ]

unfoldable pub check_payload : Libraries → Settings → Agent → String → Payload → Action (Unit {0})
unfolding capability_input_schema
check_payload lib settings recipient capability p db =
    if not settings.validate_task_payloads
    then ok (tt, db)
    else elim (capability_input_schema capability recipient.capabilities) [
      | none ↦ ok (tt, db)
      | some schema ↦
          if lib.satisfies (inner_payload p) schema then ok (tt, db) else err payload_invalid
    ]

abbrev pub is_active_contract : TaskContract → Bool
is_active_contract c = elim c.status [
  | ContractStatus.active ↦ true
  | ContractStatus.consumed ↦ false
  | ContractStatus.cancelled ↦ false
]

abbrev pub fits_contract : ℕ → ℕ → String → TaskContract → Bool
fits_contract sender recipient capability c =
    c.requester_id == sender && c.target_id == recipient && str_eq c.capability capability

unfoldable pub find_contract :
    Libraries → Envelope → ℕ → ℕ → String → Action (Option (ℕ × TaskContract))
find_contract lib e sender recipient capability db = elim (truthy e.contract_id) [
  | none ↦ ok (none, db)
  | some spelled ↦ elim (lib.uuid.parse spelled) [
    | none ↦ err invalid_contract
    | some id ↦ elim (lookup id db.contracts) [
      | none ↦ err contract_not_active
      | some c ↦
          if not (is_active_contract c)
          then err contract_not_active
          else if fits_contract sender recipient capability c
          then ok (some (id, c), db)
          else err contract_mismatch
    ]
  ]
]
