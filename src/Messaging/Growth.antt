-- ===== src/Messaging/Growth.antt =====
-- Messages only add tasks.
use open_agent_net.Prelude.{
  ℕ, suc, ◌≡◌, refl, ap, ◌∙◌, String, true, Option, none, some, List, [], ◌∷◌, ◌==◌, eq_of_==,
  is_some, length, arith, inl, inr, Bool-cases, Option-cases,
}
use open_agent_net.Tasks.{Task}
use open_agent_net.Agents.{Agent}
use open_agent_net.Db.{ok, Result-cases, Table, lookup, add_row}
use open_agent_net.Messaging.State.{
  Envelope, Settings, Libraries, Network, DeliveryMode, MessagingDb, truthy,
}
use open_agent_net.Messaging.Guards.{check_signature}
use open_agent_net.Messaging.Send.{add_task, send_to_agent}
use open_agent_net.Messaging.Team.{
  conversation, add_tasks, Broadcast, broadcast_row, broadcast_between,
}
use open_agent_net.Messaging.Sent.{
  IsSigned, check_signature-ok, add_task-ok, send_between-Added, send_to_agent-Checked,
}

pub data Grows : Table Task → Table Task → Type 0 where
  same : {t : Table Task} → Grows t t
  more : {t u : Table Task} (id : ℕ) (v : Task) → Grows (add_row id v t) u → Grows t u

pub is_some-add_row :
    (k id : ℕ) (v : Task) (t : Table Task)
    → is_some (lookup k t) ≡ true
    → is_some (lookup k (add_row id v t)) ≡ true
unfolding lookup add_row
is_some-add_row k id v [] h = absurd (ground arith)
is_some-add_row k id v ((j, w) ∷ t) h = ground (arith, is_some-add_row k id v t)

lookup-add_row-some :
    (k id : ℕ) (w v : Task) (t : Table Task)
    → lookup k t ≡ some w
    → lookup k (add_row id v t) ≡ some w
unfolding lookup add_row
lookup-add_row-some k id w v [] h = cc
lookup-add_row-some k id w v ((j, x) ∷ t) h = ground (arith, lookup-add_row-some k id w v t)

lookup-add_row-here :
    (id : ℕ) (v : Task) (t : Table Task) → lookup id t ≡ none → lookup id (add_row id v t) ≡ some v
unfolding lookup add_row
lookup-add_row-here id v [] h = ground arith
lookup-add_row-here id v ((j, x) ∷ t) h = ground (arith, lookup-add_row-here id v t)

-- A row that is there stays as it is.
pub lookup-Grows :
    (k : ℕ) (w : Task) {t u : Table Task} → Grows t u → lookup k t ≡ some w → lookup k u ≡ some w
lookup-Grows k w same h = h
lookup-Grows k w (more {t} {u} id v rest) h =
    lookup-Grows k w rest (lookup-add_row-some k id w v t h)

module _ (lib : Libraries) (settings : Settings) (net : Network) where
  pub send_to_agent-Grows :
      (now draw : ℕ) (e : Envelope) (spelled : String) (db : MessagingDb)
      (x : (ℕ × DeliveryMode) × MessagingDb)
      → send_to_agent lib settings net now draw e spelled db ≡ ok x
      → Grows db.tasks x.1.tasks
  send_to_agent-Grows now draw e spelled db x h =
      let c = send_to_agent-Checked lib settings net now draw e spelled db x.1 x.0 h in
      let (is_key, added) =
        send_between-Added lib settings net now c.key e c.recipient c.sender db x.1 x.0.0 x.0.1
          c.inserted in
      rw added.added (more x.0.0 _ same)

  -- The tasks of the members, one for each.
  pub record Spread (row : ℕ → Task) (members : Table Agent) (db db' : MessagingDb) : Type 0 where
    pub grows : Grows db.tasks db'.tasks
    pub rest : db' ≡ record db { tasks = db'.tasks }
    pub reached :
        (k : ℕ) (a : Agent)
        → lookup k members ≡ some a
        → (id : ℕ) × (lookup id db'.tasks ≡ some (row k))

  add_tasks-Spread :
      (row : ℕ → Task) (draws : ℕ → ℕ) (n : ℕ) (members : Table Agent) (db db' : MessagingDb)
      (ids : List ℕ)
      → add_tasks row draws n members db ≡ ok (ids, db')
      → Spread row members db db'
  unfolding add_tasks lookup
  add_tasks-Spread row draws n [] db db' ids h =
      let is : db' ≡ db = ground arith in
      rw is (record { grows = same; rest = refl; reached = λ k a e. absurd (ground arith) })
  add_tasks-Spread row draws n ((j, b) ∷ members) db db' ids h =
      elim (Result-cases (add_task (some (draws n)) (row j) db)) [
        | inl bad ↦ absurd (ground arith)
        | inr ((id, s), first) ↦
            let (is_id, free, added) = add_task-ok lib (some (draws n)) (row j) db (id, s) first in
            elim (Result-cases (add_tasks row draws (suc n) members s)) [
              | inl bad ↦ absurd (ground arith)
              | inr ((others, u), later) ↦
                  let is : db' ≡ u = ground arith in
                  let spread = add_tasks-Spread row draws (suc n) members s u others later in
                  let step : s.tasks ≡ add_row id (row j) db.tasks = ap (λ x. x.tasks) added in
                  let here : lookup id s.tasks ≡ some (row j) =
                    ground (arith, step, lookup-add_row-here id (row j) db.tasks free) in
                  rw is (record {
                    grows = more id (row j) (rw step at spread.grows);
                    rest = rw added at spread.rest;
                    reached = λ k a e. elim (Bool-cases (j == k)) [
                      | inl this ↦ (
                        id,
                        lookup-Grows id (row j) spread.grows here
                            ∙ ap (λ i. some (row i)) (eq_of_== j k this),
                      )
                      | inr other ↦ spread.reached k a (ground arith)
                    ];
                  })
            ]
      ]

  conversation-ok :
      (e : Envelope) (db : MessagingDb) (x : Option ℕ × MessagingDb)
      → conversation lib e db ≡ ok x
      → x.1 ≡ db
  unfolding conversation
  conversation-ok e db x h = elim (Option-cases (truthy e.conversation_id)) [
    | inl absent ↦ ground arith
    | inr (s, given) ↦ elim (Option-cases (lib.uuid.parse s)) [
      | inl bad ↦ absurd (ground arith)
      | inr (id, parsed) ↦ ground arith
    ]
  ]

  -- What a broadcast that returned has done.
  pub record Reached (now : ℕ) (e : Envelope) (sender : ℕ × Agent) (members : Table Agent)
      (b : Broadcast) (db db' : MessagingDb) : Type 0 where
    pub talk : Option ℕ
    pub signed : IsSigned lib settings sender.1 e
    pub spread : Spread (broadcast_row lib now e sender.0 talk) members db db'
    pub counted : b.member_count ≡ length members

  pub broadcast_between-Reached :
      (now : ℕ) (draws : ℕ → ℕ) (e : Envelope) (team : ℕ) (sender : ℕ × Agent)
      (members : Table Agent) (b : Broadcast) (db db' : MessagingDb)
      → broadcast_between lib settings net now draws e team sender members db ≡ ok (b, db')
      → Reached now e sender members b db db'
  unfolding broadcast_between
  broadcast_between-Reached now draws e team sender members b db db' h =
      elim (Result-cases (check_signature lib settings sender.1 e db)) [
        | inl bad ↦ absurd (ground arith)
        | inr ((u, s1), sig) ↦
            let (same1, signed) = check_signature-ok lib settings sender.1 e db (u, s1) sig in
            elim (Result-cases (conversation lib e db)) [
              | inl bad ↦ absurd (ground arith)
              | inr ((talk, s2), con) ↦
                  let same2 = conversation-ok e db (talk, s2) con in
                  elim (Result-cases
                    (add_tasks (broadcast_row lib now e sender.0 talk) draws 0 members db)) [
                      | inl bad ↦ absurd (ground arith)
                      | inr ((ids, s3), all) ↦
                          let is : db' ≡ s3 = ground arith in
                          record {
                            talk = talk;
                            signed = signed;
                            spread = rw is (add_tasks-Spread _ draws 0 members db s3 ids all);
                            counted = ground arith;
                          }
                    ]
            ]
      ]
