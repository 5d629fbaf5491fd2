-- ===== src/Messaging/Spread.antt =====
-- What a broadcast to a team has left behind, and that it only adds tasks.
use open_agent_net.Prelude.{ℕ, ◌≤◌, ◌≡◌, String, true, some, arith, inl, inr, Option-cases}
use open_agent_net.Agents.{Agent}
use open_agent_net.Identifiers.{drop_chars}
use open_agent_net.Db.{ok, lookup}
use open_agent_net.Messaging.State.{Envelope, Settings, Libraries, Network, MessagingDb}
use open_agent_net.Messaging.Guards.{sender_row}
use open_agent_net.Messaging.Team.{
  is_active_team, active_members, Broadcast, broadcast_between, broadcast_to_team,
}
use open_agent_net.Messaging.Growth.{Grows, Reached, broadcast_between-Reached}

module _ (lib : Libraries) (settings : Settings) (net : Network) where
  -- A broadcast is answered only within its time to live, from an existing sender with a good
  -- signature, where one is given or required, to an active team; then every active member of the team
  -- that is not deleted has a pending task from the sender, the members are counted, no task that was
  -- there has changed, and no other table.
  pub broadcast_reaches :
      (now : ℕ) (draws : ℕ → ℕ) (e : Envelope) (spelled : String) (db db' : MessagingDb)
      (b : Broadcast)
      → broadcast_to_team lib settings net now draws e spelled db ≡ ok (b, db')
      → (team : ℕ) × (sender : ℕ × Agent) × (lib.uuid.parse (drop_chars 5 e.to) ≡ some team)
        × (1 ≤ e.ttl_seconds)
        × (sender_row lib spelled db ≡ some sender)
        × (is_active_team (lookup team db.teams) ≡ true)
        × Reached lib settings net now e sender (active_members team db) b db db'
  unfolding broadcast_to_team
  broadcast_reaches now draws e spelled db db' b h =
      elim (Option-cases (lib.uuid.parse (drop_chars 5 e.to))) [
        | inl bad ↦ absurd (ground arith)
        | inr (team, parsed) ↦ elim (Option-cases (sender_row lib spelled db)) [
          | inl unknown ↦ absurd (ground arith)
          | inr (sender, known) ↦
              let rest : broadcast_between lib settings net now draws e team sender
                    (active_members team db) db
                  ≡ ok (b, db') =
                ground arith in
              (
                team,
                sender,
                parsed,
                ground arith,
                known,
                ground arith,
                broadcast_between-Reached lib settings net now draws e team sender
                    (active_members team db) b db db' rest,
              )
        ]
      ]

  pub broadcast_to_team-Grows :
      (now : ℕ) (draws : ℕ → ℕ) (e : Envelope) (spelled : String) (db : MessagingDb)
      (x : Broadcast × MessagingDb)
      → broadcast_to_team lib settings net now draws e spelled db ≡ ok x
      → Grows db.tasks x.1.tasks
  broadcast_to_team-Grows now draws e spelled db x h =
      let (team, sender, parsed, alive, known, active, reached) =
        broadcast_reaches now draws e spelled db x.1 x.0 h in
      reached.spread.grows
