-- ===== src/Messaging/Replay.antt =====
-- Sequences of messages and heartbeats: no message to an agent is accepted twice.
use open_agent_net.Prelude.{
  ℕ, ◌≡◌, refl, ap, ◌∙◌, String, Bool, true, false, none, some, List, [], ◌∷◌, is_some, arith, inl,
  inr, Bool-cases, Option-cases, eq_iff,
}
use open_agent_net.Tasks.{Task}
use open_agent_net.Db.{
  ok, err, Result-cases, get_db, get_db_inv, Table, lookup, select, add_row, any_row,
}
use open_agent_net.Messaging.State.{
  Envelope, Settings, Libraries, Network, DeliveryMode, MessagingDb, MessagingError,
  duplicate_message_id, truthy,
}
use open_agent_net.Messaging.Guards.{
  envelope_hash, has_hash, fresh_key, check_duplicate, filtered, is_present,
}
use open_agent_net.Messaging.Send.{send_to_agent}
use open_agent_net.Messaging.Team.{is_team, broadcast_to_team, Reply, send_message}
use open_agent_net.Messaging.Presence.{send_heartbeat, mark_inactive_agents}
use open_agent_net.Messaging.Growth.{Grows, same, more, is_some-add_row, send_to_agent-Grows}
use open_agent_net.Messaging.Spread.{broadcast_to_team-Grows}
use open_agent_net.Messaging.Sent.{
  IsNamed, send_between-Added, send_to_agent-Checked, check_duplicate-IsNamed,
}
use open_agent_net.Identifiers.{parse_agent_id}

pub data Request : Type 0 where
  sending : ℕ → (ℕ → ℕ) → Envelope → String → Request
  beating : ℕ → String → Request
  sweeping : ℕ → Request

module _ (lib : Libraries) (settings : Settings) (net : Network) where
  unfoldable pub step : Request → MessagingDb → MessagingDb
  step (sending now draws e spelled) db =
      get_db (send_message lib settings net now draws e spelled) db
  step (beating now spelled) db = get_db (send_heartbeat lib.uuid now spelled) db
  step (sweeping now) db = get_db (mark_inactive_agents settings now) db

  unfoldable pub run : List Request → MessagingDb → MessagingDb
  run [] db = db
  run (q ∷ qs) db = run qs (step q db)

  -- The deduplication would find the message.
  abbrev seen : Envelope → Table Task → Bool
  seen e tasks = elim (truthy e.message_id) [
    | some m ↦ elim (lib.uuid.parse m) [ none ↦ false | some id ↦ is_some (lookup id tasks) ]
    | none ↦ any_row (has_hash (envelope_hash lib e)) tasks
  ]

  any_row-more :
      (p : Task → Bool) (id : ℕ) (v : Task) (t : Table Task)
      → any_row p t ≡ true
      → any_row p (add_row id v t) ≡ true
  unfolding any_row add_row
  any_row-more p id v [] h = absurd (ground arith)
  any_row-more p id v ((j, w) ∷ t) h = ground (arith, any_row-more p id v t)

  any_row-last :
      (p : Task → Bool) (id : ℕ) (v : Task) (t : Table Task)
      → p v ≡ true
      → any_row p (add_row id v t) ≡ true
  unfolding any_row add_row
  any_row-last p id v [] h = ground arith
  any_row-last p id v ((j, w) ∷ t) h = ground (arith, any_row-last p id v t)

  seen-more :
      (e : Envelope) (id : ℕ) (v : Task) (t : Table Task)
      → seen e t ≡ true
      → seen e (add_row id v t) ≡ true
  seen-more e id v t h = elim (Option-cases (truthy e.message_id)) [
    | inl absent ↦ ground (arith, any_row-more (has_hash (envelope_hash lib e)) id v t)
    | inr (m, given) ↦ elim (Option-cases (lib.uuid.parse m)) [
      | inl bad ↦ absurd (ground arith)
      | inr (k, parsed) ↦ ground (arith, is_some-add_row k id v t)
    ]
  ]

  seen-Grows : (e : Envelope) {t u : Table Task} → Grows t u → seen e t ≡ true → seen e u ≡ true
  seen-Grows e same h = h
  seen-Grows e (more {t} {u} id v rest) h = seen-Grows e rest (seen-more e id v t h)

  -- A message that the deduplication finds is refused.
  any_row-select :
      (p : Task → Bool) (t : Table Task)
      → any_row p t ≡ true
      → (x : ℕ × Task) × (rest : Table Task) × (select (λ id v. p v) t ≡ x ∷ rest)
  unfolding any_row select
  any_row-select p [] h = absurd (ground arith)
  any_row-select p ((j, w) ∷ t) h = elim (Bool-cases (p w)) [
    | inl fits ↦ ((j, w), select (λ id v. p v) t, rw fits refl)
    | inr misfit ↦ rw misfit (any_row-select p t (ground arith))
  ]

  fresh_key-err :
      (draw : ℕ) (x : ℕ × Task) (rest : Table Task) (db : MessagingDb)
      → (b : MessagingError) × (fresh_key draw (x ∷ rest) db ≡ err b)
  unfolding fresh_key
  fresh_key-err draw x [] db = (_, refl)
  fresh_key-err draw x (y ∷ rest) db = (_, refl)

  seen-refused :
      (draw : ℕ) (e : Envelope) (db : MessagingDb)
      → seen e db.tasks ≡ true
      → (b : MessagingError) × (check_duplicate lib draw e db ≡ err b)
  unfolding check_duplicate
  seen-refused draw e db h = elim (Option-cases (truthy e.message_id)) [
    | inl absent ↦
        let (x, rest, is) =
          any_row-select (has_hash (envelope_hash lib e)) db.tasks (ground arith) in
        let (b, refused) = fresh_key-err draw x rest db in (b, ground arith)
    | inr (m, given) ↦ elim (Option-cases (lib.uuid.parse m)) [
      | inl bad ↦ absurd (ground arith)
      | inr (k, parsed) ↦ (duplicate_message_id, ground arith)
    ]
  ]

  -- A message that has been accepted would be found.
  is_some-last : (id : ℕ) (v : Task) (t : Table Task) → is_some (lookup id (add_row id v t)) ≡ true
  unfolding lookup add_row
  is_some-last id v [] = ground arith
  is_some-last id v ((j, w) ∷ t) = ground (arith, is_some-last id v t)

  has_hash_self : (h : String) (v : Task) → v.envelope_hash ≡ some h → has_hash h v ≡ true
  has_hash_self h v is = ground (arith, eq_iff h h)

  added-seen :
      (e : Envelope) (id : ℕ) (v : Task) (t : Table Task)
      → v.envelope_hash ≡ some (envelope_hash lib e)
      → IsNamed lib e id
      → seen e (add_row id v t) ≡ true
  unfolding IsNamed
  added-seen e id v t hashed named = elim (Option-cases (truthy e.message_id)) [
    | inl absent ↦ ground (
      arith,
      any_row-last (has_hash (envelope_hash lib e)) id v t
          (has_hash_self (envelope_hash lib e) v hashed),
    )
    | inr (m, given) ↦
        let is : lib.uuid.parse m ≡ some id = rw (given, IsNamed) at named in
        ground (arith, is_some-last id v t)
  ]

  sent-seen :
      (now : ℕ) (draws : ℕ → ℕ) (o e : Envelope) (spelled : String) (db : MessagingDb)
      (x : Reply × MessagingDb)
      → seen e db.tasks ≡ true
      → send_message lib settings net now draws o spelled db ≡ ok x
      → seen e x.1.tasks ≡ true
  unfolding send_message
  sent-seen now draws o e spelled db x h is = elim (Bool-cases (is_team o.to)) [
    | inl team ↦ elim (Result-cases (broadcast_to_team lib settings net now draws o spelled db)) [
      | inl bad ↦ absurd (ground arith)
      | inr (r, done) ↦
          let end : x.1 ≡ r.1 = ground arith in
          rw end (
            seen-Grows e (broadcast_to_team-Grows lib settings net now draws o spelled db r done) h)
    ]
    | inr agent ↦ elim (Result-cases (send_to_agent lib settings net now (draws 0) o spelled db)) [
      | inl bad ↦ absurd (ground arith)
      | inr (r, done) ↦
          let end : x.1 ≡ r.1 = ground arith in
          rw end (
            seen-Grows e (send_to_agent-Grows lib settings net now (draws 0) o spelled db r done) h)
    ]
  ]

  heartbeat-tasks :
      (now : ℕ) (spelled : String) (db : MessagingDb) (x : ℕ × MessagingDb)
      → send_heartbeat lib.uuid now spelled db ≡ ok x
      → x.1.tasks ≡ db.tasks
  unfolding send_heartbeat
  heartbeat-tasks now spelled db x h = elim (Option-cases (parse_agent_id lib.uuid spelled)) [
    | inl bad ↦ absurd (ground arith)
    | inr (id, parsed) ↦ elim (Option-cases (filtered is_present id (lookup id db.agents))) [
      | inl missing ↦ absurd (ground arith)
      | inr (a, there) ↦ ground arith
    ]
  ]

  step-seen :
      (q : Request) (e : Envelope) (db : MessagingDb)
      → seen e db.tasks ≡ true
      → seen e (step q db).tasks ≡ true
  unfolding step get_db mark_inactive_agents
  step-seen (sending now draws o spelled) e db h =
      get_db_inv (λ s. seen e s.tasks ≡ true) (send_message lib settings net now draws o spelled) db
        (λ x. sent-seen now draws o e spelled db x h) h
  step-seen (beating now spelled) e db h =
      get_db_inv (λ s. seen e s.tasks ≡ true) (send_heartbeat lib.uuid now spelled) db
        (λ x is. ap (seen e) (heartbeat-tasks now spelled db x is) ∙ h) h
  step-seen (sweeping now) e db h = h

  run-seen :
      (qs : List Request) (e : Envelope) (db : MessagingDb)
      → seen e db.tasks ≡ true
      → seen e (run qs db).tasks ≡ true
  unfolding run
  run-seen [] e db h = h
  run-seen (q ∷ qs) e db h = run-seen qs e (step q db) (step-seen q e db h)

  -- No message to an agent is accepted twice: once it has been accepted, and whatever messages,
  -- broadcasts, heartbeats and sweeps come after it, the same envelope is refused, whoever sends it.
  pub accepted_once :
      (qs : List Request) (now draw : ℕ) (e : Envelope) (spelled : String) (db db' : MessagingDb)
      (r : ℕ × DeliveryMode) (later again : ℕ) (sender : String)
      → send_to_agent lib settings net now draw e spelled db ≡ ok (r, db')
      → (b : MessagingError) × (send_to_agent lib settings net later again e sender (run qs db')
          ≡ err b)
  unfolding send_to_agent
  accepted_once qs now draw e spelled db db' r later again sender h =
      let c = send_to_agent-Checked lib settings net now draw e spelled db db' r h in
      let (is_key, added) =
        send_between-Added lib settings net now c.key e c.recipient c.sender db db' r.0 r.1
          c.inserted in
      let named = check_duplicate-IsNamed lib draw e db r.0 db (rw is_key at c.fresh) in
      let first : seen e db'.tasks ≡ true =
        rw added.added (added-seen e r.0 _ db.tasks refl named) in
      let (b, refused) = seen-refused again e (run qs db') (run-seen qs e db' first) in
      (b, ground arith)
