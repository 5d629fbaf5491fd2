-- ===== src/Messaging/Team.antt =====
-- `broadcast_to_team` and `send_message` as a whole (backend/app/services/messaging/service.py).
use text.Mathlib.Text.{starts_with}
use open_agent_net.Prelude.{
  ℕ, suc, ◌+◌, String, Bool, true, false, not, ◌&&◌, Option, none, some, List, [], ◌∷◌, ◌==◌,
  if◌then◌else◌, length, any,
}
use open_agent_net.Identifiers.{drop_chars}
use open_agent_net.Tasks.{Task}
use open_agent_net.Agents.{Agent}
use open_agent_net.Teams.State.{Team, TeamStatus, is_row}
use open_agent_net.Db.{ok, err, pure, raise_if, gets, or_raise, ◌>>=◌, ◌>>◌, Table, lookup, select}
use open_agent_net.Messaging.State.{
  Envelope, Settings, Libraries, Network, DeliveryMode, team_nats, team_http, MessagingDb,
  ttl_expired, invalid_team, sender_not_found, team_not_found, no_active_members,
  invalid_conversation, Action, truthy,
}
use open_agent_net.Messaging.Guards.{is_reachable, sender_row, check_signature, task_data}
use open_agent_net.Messaging.Send.{new_task, add_task, send_to_agent}

abbrev pub is_team : String → Bool
is_team to = starts_with to "team:"

abbrev pub is_active_team : Option Team → Bool
is_active_team none = false
is_active_team (some t) = elim t.status [ TeamStatus.active ↦ true | TeamStatus.archived ↦ false ]

-- The join of the agents with the members of the team.
unfoldable pub active_members : ℕ → MessagingDb → Table Agent
active_members team db =
    select (λ id a. is_reachable a && any (is_row team id) db.members) db.agents

-- `uuid.UUID(envelope["conversation_id"]) if envelope.get("conversation_id") else None`
unfoldable pub conversation : Libraries → Envelope → Action (Option ℕ)
conversation lib e db = elim (truthy e.conversation_id) [
  | none ↦ ok (none, db)
  | some spelled ↦ elim (lib.uuid.parse spelled) [
    | none ↦ err invalid_conversation
    | some id ↦ ok (some id, db)
  ]
]

-- The loop over the members, with the drawn keys `draws n`, `draws (n + 1)`, …; the ids of the tasks.
unfoldable pub add_tasks : (ℕ → Task) → (ℕ → ℕ) → ℕ → Table Agent → Action (List ℕ)
add_tasks row draws n [] = pure []
add_tasks row draws n ((id, a) ∷ members) = do
  first ← add_task (some (draws n)) (row id)
  others ← add_tasks row draws (suc n) members
  pure (first ∷ others)

abbrev pub posted : Network → Envelope → Table Agent → ℕ
posted net e [] = 0
posted net e ((id, a) ∷ members) = (if net.post a.endpoint e then 1 else 0) + posted net e members

pub record Broadcast : Type 0 where
  pub delivery : DeliveryMode
  pub member_count : ℕ
  pub http_delivered : ℕ
  pub task_ids : List ℕ

abbrev pub is_empty_table : Table Agent → Bool
is_empty_table [] = true
is_empty_table (x ∷ xs) = false

abbrev pub broadcast_row : Libraries → ℕ → Envelope → ℕ → Option ℕ → ℕ → Task
broadcast_row lib now e sender talk member =
    record (new_task lib now e sender member (task_data lib e).0 (task_data lib e).1 none) {
      conversation_id = talk;
    }

-- From the signature to the answer, once the sender, the team and its members are known.
unfoldable pub broadcast_between :
    Libraries
    → Settings
    → Network
    → ℕ
    → (ℕ → ℕ)
    → Envelope
    → ℕ
    → ℕ × Agent
    → Table Agent
    → Action Broadcast
broadcast_between lib settings net now draws e team sender members = do
  check_signature lib settings sender.1 e
  talk ← conversation lib e
  ids ← add_tasks (broadcast_row lib now e sender.0 talk) draws 0 members
  pure (record {
    delivery = if net.publish_to_team team e then team_nats else team_http;
    member_count = length members;
    http_delivered = posted net e members;
    task_ids = ids;
  })

unfoldable pub broadcast_to_team :
    Libraries → Settings → Network → ℕ → (ℕ → ℕ) → Envelope → String → Action Broadcast
broadcast_to_team lib settings net now draws e spelled = do
  raise_if (not (is_team e.to)) invalid_team
  team ← or_raise (lib.uuid.parse (drop_chars 5 e.to)) invalid_team
  raise_if (e.ttl_seconds == 0) ttl_expired
  known ← gets (sender_row lib spelled)
  sender ← or_raise known sender_not_found
  found ← gets (λ db. lookup team db.teams)
  raise_if (not (is_active_team found)) team_not_found
  members ← gets (active_members team)
  raise_if (is_empty_table members) no_active_members
  broadcast_between lib settings net now draws e team sender members

-- What `send_message` answers.
pub data Reply : Type 0 where
  sent : ℕ → DeliveryMode → Reply
  broadcast : Broadcast → Reply

abbrev pub direct : ℕ × DeliveryMode → Action Reply
direct r = pure (sent r.0 r.1)

abbrev pub spread : Broadcast → Action Reply
spread b = pure (broadcast b)

unfoldable pub send_message :
    Libraries → Settings → Network → ℕ → (ℕ → ℕ) → Envelope → String → Action Reply
send_message lib settings net now draws e spelled =
    if is_team e.to
    then broadcast_to_team lib settings net now draws e spelled >>= spread
    else send_to_agent lib settings net now (draws 0) e spelled >>= direct
