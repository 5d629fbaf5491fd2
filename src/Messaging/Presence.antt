-- ===== src/Messaging/Presence.antt =====
-- Heartbeats and missed heartbeats (backend/app/services/messaging/service.py and `heartbeat_worker`
-- of backend/app/core/workers.py). Times count seconds.
use open_agent_net.Prelude.{
  ℕ, ◌+◌, ◌*◌, ◌≡◌, refl, ◌∙◌, String, Bool, true, false, ◌&&◌, none, some, ltb, if◌then◌else◌,
  length, arith, inl, inr, Bool-cases, Option-cases,
}
use open_agent_net.Identifiers.{Uuid, parse_agent_id}
use open_agent_net.Agents.{Agent, AgentStatus, is_active}
use open_agent_net.Db.{
  ok, get_db, pure, gets, modify, or_raise, ◌>>=◌, ◌>>◌, lookup, update, map_rows, select,
  lookup-update, lookup-map_rows,
}
use open_agent_net.Messaging.State.{Settings, MessagingDb, invalid_agent, agent_not_found, Action}
use open_agent_net.Messaging.Guards.{is_present, filtered}

abbrev pub beaten : ℕ → Agent → Agent
beaten now a = record a { last_seen_at = some now; updated_at = now; status = AgentStatus.active }

abbrev pub put_agent : ℕ → Agent → MessagingDb → MessagingDb
put_agent id a db = record db { agents = update id a db.agents }

unfoldable pub send_heartbeat : Uuid → ℕ → String → Action ℕ
send_heartbeat uuid now spelled = do
  id ← or_raise (parse_agent_id uuid spelled) invalid_agent
  found ← gets (λ db. filtered is_present id (lookup id db.agents))
  agent ← or_raise found agent_not_found
  modify (put_agent id (beaten now agent.1))
  pure now

abbrev pub patience : Settings → ℕ
patience settings = settings.heartbeat_interval_seconds * settings.heartbeat_miss_threshold

-- `agent.last_seen_at < utcnow() - timedelta(...)`, with the difference brought to the other side.
abbrev pub has_missed : Settings → ℕ → Agent → Bool
has_missed settings now a =
    is_active a.status
    && is_present a
    && (elim a.last_seen_at [ none ↦ false | some s ↦ ltb (s + patience settings) now ])

abbrev pub silence : Settings → ℕ → Agent → Agent
silence settings now a =
    if has_missed settings now a
    then record a { status = AgentStatus.inactive; updated_at = now }
    else a

unfoldable pub mark_inactive_agents : Settings → ℕ → Action ℕ
mark_inactive_agents settings now = do
  missed ← gets (λ db. length (select (λ id a. has_missed settings now a) db.agents))
  modify (λ db. record db { agents = map_rows (silence settings now) db.agents })
  pure missed

-- A heartbeat makes an agent active, and a sweep leaves it so up to the number of missed intervals
-- that the settings allow after it; the first sweep later than that marks the agent inactive.
pub heartbeat_then_sweep :
    (uuid : Uuid) (settings : Settings) (now later : ℕ) (spelled : String) (id : ℕ)
    (db : MessagingDb) (x : ℕ × MessagingDb)
    → parse_agent_id uuid spelled ≡ some id
    → send_heartbeat uuid now spelled db ≡ ok x
    → (a : Agent) × (lookup id x.1.agents ≡ some a)
      × (is_active a.status ≡ true)
      × (lookup id (get_db (mark_inactive_agents settings later) x.1).agents
          ≡ some (
              if ltb (now + patience settings) later
              then record a { status = AgentStatus.inactive; updated_at = later }
              else a))
unfolding send_heartbeat mark_inactive_agents get_db
heartbeat_then_sweep uuid settings now later spelled id db x parsed h =
    elim (Option-cases (lookup id db.agents)) [
      | inl missing ↦ absurd (ground arith)
      | inr (a, there) ↦ elim (Bool-cases (is_present a)) [
        | inr gone ↦ absurd (ground arith)
        | inl here ↦
            let b = beaten now a in
            let row : lookup id x.1.agents ≡ some b =
              ground (arith, lookup-update id id b db.agents) in
            (
              b,
              row,
              refl,
              lookup-map_rows (silence settings later) id x.1.agents ∙ ground (arith, row),
            )
      ]
    ]
