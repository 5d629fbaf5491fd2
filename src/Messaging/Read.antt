-- ===== src/Messaging/Read.antt =====
-- `get_message` and `list_messages` (backend/app/services/messaging/service.py), which read the tasks.
use open_agent_net.Prelude.{
  ℕ, String, Bool, true, not, ◌&&◌, ◌||◌, Option, none, some, List, [], ◌∷◌, ◌==◌, leb, str_eq,
  if◌then◌else◌, length, take, drop,
}
use open_agent_net.Identifiers.{Uuid, parse_agent_id}
use open_agent_net.Tasks.{Task, TaskStatus, Payload}
use open_agent_net.Db.{pure, gets, or_raise, ◌>>=◌, Table, lookup, select}
use open_agent_net.Messaging.State.{MessagingDb, invalid_agent, Action, truthy}
use open_agent_net.Messaging.Guards.{name_of}

pub record Message : Type 0 where
  pub message_id : ℕ
  pub from_agent_id : ℕ
  pub to_agent_id : ℕ
  pub contract_id : Option ℕ
  pub capability : String
  pub kind : String
  pub payload : Payload
  pub status : TaskStatus
  pub created_at : ℕ
  pub delivered_at : Option ℕ

-- `_task_to_dict`
abbrev pub task_to_dict : ℕ → Task → Message
task_to_dict id t = record {
  message_id = id;
  from_agent_id = t.from_agent_id;
  to_agent_id = t.to_agent_id;
  contract_id = t.contract_id;
  capability = name_of t.payload;
  kind = "task.request";
  payload = t.payload;
  status = t.status;
  created_at = t.created_at;
  delivered_at = t.completed_at;
}

abbrev pub readable : ℕ → ℕ → Option Task → Option Message
readable agent id none = none
readable agent id (some t) =
    if not (t.from_agent_id == agent) && not (t.to_agent_id == agent)
    then none
    else some (task_to_dict id t)

unfoldable pub get_message : Uuid → String → String → MessagingDb → Option Message
get_message uuid message agent db = elim (parse_agent_id uuid agent) [
  | none ↦ none
  | some reader ↦ elim (uuid.parse message) [
    | none ↦ none
    | some id ↦ readable reader id (lookup id db.tasks)
  ]
]

pub data Direction : Type 0 where
  sent received both : Direction

abbrev pub is_party : Direction → ℕ → Task → Bool
is_party sent agent t = t.from_agent_id == agent
is_party received agent t = t.to_agent_id == agent
is_party both agent t = t.from_agent_id == agent || t.to_agent_id == agent

abbrev pub is_since : Option ℕ → ℕ → Bool
is_since none created = true
is_since (some s) created = leb s created

abbrev pub is_until : Option ℕ → ℕ → Bool
is_until none created = true
is_until (some u) created = leb created u

abbrev pub in_listing : Direction → Option ℕ → Option ℕ → ℕ → ℕ → Task → Bool
in_listing d since until agent id t =
    is_party d agent t && is_since since t.created_at && is_until until t.created_at

unfoldable pub to_dicts : Table Task → List Message
to_dicts [] = []
to_dicts ((id, t) ∷ rows) = task_to_dict id t ∷ to_dicts rows

abbrev pub of_type : Option String → List Message → List Message
of_type none items = items
of_type (some k) [] = []
of_type (some k) (m ∷ ms) =
    let rest = of_type (some k) ms in if str_eq m.kind k then m ∷ rest else rest

pub record Page : Type 0 where
  pub total : ℕ
  pub limit : ℕ
  pub offset : ℕ
  pub items : List Message

-- `order` is what the database makes of `order_by(Task.created_at.desc())`.
unfoldable pub list_messages :
    Uuid
    → (Table Task → Table Task)
    → String
    → Direction
    → Option String
    → Option ℕ
    → Option ℕ
    → ℕ
    → ℕ
    → Action Page
unfolding to_dicts
list_messages uuid order spelled d type since until limit offset = do
  agent ← or_raise (parse_agent_id uuid spelled) invalid_agent
  rows ← gets (λ db. select (in_listing d since until agent) db.tasks)
  pure (record {
    total = length rows;
    limit = limit;
    offset = offset;
    items = of_type (truthy type) (to_dicts (take limit (drop offset (order rows))));
  })
