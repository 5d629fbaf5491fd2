-- ===== src/Messaging/Sent.antt =====
-- What a message that was sent to one agent has left behind.
use open_agent_net.Prelude.{
  ℕ, ◌≤◌, ◌≡◌, refl, ◌∙◌, String, Bool, true, false, ◌&&◌, Option, none, some, [], ◌∷◌, str_eq,
  arith, inl, inr, ◌⊎◌, Bool-cases, Option-cases,
}
use open_agent_net.Identifiers.{parse_agent_id}
use open_agent_net.Tasks.{Task, Payload}
use open_agent_net.Agents.{Agent}
use open_agent_net.Negotiation.State.{TaskContract}
use open_agent_net.Db.{
  ok, Result-cases, Table, lookup, select, add_row, find_row, find_row_fits, find_row-lookup,
  KeysDiffer,
}
use open_agent_net.Messaging.State.{
  Envelope, Settings, Libraries, Network, DeliveryMode, MessagingDb, truthy,
}
use open_agent_net.Messaging.Guards.{
  unsigned, has_hash, envelope_hash, fresh_key, check_duplicate, is_present, is_reachable, filtered,
  recipient_row, sender_row, check_signature, task_data, check_payload, capability_input_schema,
  is_active_contract, find_contract,
}
use open_agent_net.Messaging.Send.{new_task, add_task, send_between, send_to_agent}

module _ (lib : Libraries) where
  fresh_key-ok :
      (draw : ℕ) (rows : Table Task) (db : MessagingDb) (x : Option ℕ × MessagingDb)
      → fresh_key draw rows db ≡ ok x
      → x.1 ≡ db
  unfolding fresh_key
  fresh_key-ok draw [] db x h = ground arith
  fresh_key-ok draw (r ∷ []) db x h = absurd (ground arith)
  fresh_key-ok draw (r ∷ s ∷ rest) db x h = absurd (ground arith)

  check_duplicate-ok :
      (draw : ℕ) (e : Envelope) (db : MessagingDb) (x : Option ℕ × MessagingDb)
      → check_duplicate lib draw e db ≡ ok x
      → x.1 ≡ db
  unfolding check_duplicate
  check_duplicate-ok draw e db x h = elim (Option-cases (truthy e.message_id)) [
    | inr (m, given) ↦ ground arith
    | inl absent ↦
        fresh_key-ok draw (select (λ id t. has_hash (envelope_hash lib e) t) db.tasks) db x
          (ground arith)
  ]

  -- The key of the task is the `message_id`, where there is one.
  unfoldable pub IsNamed : Envelope → ℕ → Type 0
  IsNamed e id = elim (truthy e.message_id) [ none ↦ Unit | some m ↦ lib.uuid.parse m ≡ some id ]

  pub check_duplicate-IsNamed :
      (draw : ℕ) (e : Envelope) (db : MessagingDb) (id : ℕ) (s : MessagingDb)
      → check_duplicate lib draw e db ≡ ok (some id, s)
      → IsNamed e id
  unfolding check_duplicate IsNamed
  check_duplicate-IsNamed draw e db id s h = elim (Option-cases (truthy e.message_id)) [
    | inl absent ↦ rw (absent, IsNamed) tt
    | inr (m, given) ↦ elim (Option-cases (lib.uuid.parse m)) [
      | inl bad ↦ absurd (ground arith)
      | inr (k, parsed) ↦ rw (given, IsNamed) (ground arith)
    ]
  ]

  -- The signature is good, or there is none and none is required.
  pub IsSigned : Settings → Agent → Envelope → Type 0
  IsSigned settings a e =
      ((truthy e.signature ≡ none) × (settings.require_message_signatures ≡ false))
      ⊎ ((s : String) × (truthy e.signature ≡ some s)
          × (lib.verify a.public_key s (unsigned e) ≡ some true))

  pub check_signature-ok :
      (settings : Settings) (a : Agent) (e : Envelope) (db : MessagingDb) (x : Unit × MessagingDb)
      → check_signature lib settings a e db ≡ ok x
      → (x.1 ≡ db) × IsSigned settings a e
  unfolding check_signature IsSigned
  check_signature-ok settings a e db x h = elim (Option-cases (truthy e.signature)) [
    | inl absent ↦ (ground arith, inl (absent, ground arith))
    | inr (s, given) ↦ elim (Option-cases (lib.verify a.public_key s (unsigned e))) [
      | inl bad ↦ absurd (ground arith)
      | inr (good, is) ↦ (ground arith, inr (s, given, ground arith))
    ]
  ]

  check_payload-ok :
      (settings : Settings) (a : Agent) (c : String) (p : Payload) (db : MessagingDb)
      (x : Unit × MessagingDb)
      → check_payload lib settings a c p db ≡ ok x
      → x.1 ≡ db
  unfolding check_payload
  check_payload-ok settings a c p db x h =
      elim (Option-cases (capability_input_schema c a.capabilities)) [
        | inl absent ↦ ground arith
        | inr (s, there) ↦ ground arith
      ]

  -- The task stands under no contract, or under an active one between the two for this capability.
  pub IsCovered : Envelope → ℕ → ℕ → String → MessagingDb → Option (ℕ × TaskContract) → Type 0
  IsCovered e sender recipient capability db none = truthy e.contract_id ≡ none
  IsCovered e sender recipient capability db (some (id, c)) =
      (lookup id db.contracts ≡ some c)
      × (is_active_contract c ≡ true)
      × (c.requester_id ≡ sender)
      × (c.target_id ≡ recipient)
      × (str_eq c.capability capability ≡ true)

  find_contract-ok :
      (e : Envelope) (sender recipient : ℕ) (capability : String) (db : MessagingDb)
      (x : Option (ℕ × TaskContract) × MessagingDb)
      → find_contract lib e sender recipient capability db ≡ ok x
      → (x.1 ≡ db) × IsCovered e sender recipient capability db x.0
  unfolding find_contract IsCovered
  find_contract-ok e sender recipient capability db x h =
      elim (Option-cases (truthy e.contract_id)) [
        | inl absent ↦ let is : x ≡ (none, db) = ground arith in rw is (refl, absent)
        | inr (s, given) ↦ elim (Option-cases (lib.uuid.parse s)) [
          | inl bad ↦ absurd (ground arith)
          | inr (id, parsed) ↦ elim (Option-cases (lookup id db.contracts)) [
            | inl missing ↦ absurd (ground arith)
            | inr (c, there) ↦
                let is : x ≡ (some (id, c), db) = ground arith in
                rw is (refl, (there, ground arith, ground arith, ground arith, ground arith))
          ]
        ]
      ]

  pub add_task-ok :
      (key : Option ℕ) (t : Task) (db : MessagingDb) (x : ℕ × MessagingDb)
      → add_task key t db ≡ ok x
      → (key ≡ some x.0)
        × (lookup x.0 db.tasks ≡ none)
        × (x.1 ≡ record db { tasks = add_row x.0 t db.tasks })
  unfolding add_task
  add_task-ok none t db x h = cc
  add_task-ok (some id) t db x h = elim (Option-cases (lookup id db.tasks)) [
    | inl free ↦
        let is : x ≡ (id, record db { tasks = add_row id t db.tasks }) = ground arith in
        rw is (refl, free, refl)
    | inr (o, taken) ↦ absurd (ground arith)
  ]

  -- The row with this key, which fits.
  filtered-some :
      (p : Agent → Bool) (id : ℕ) (o : Option Agent) (x : ℕ × Agent)
      → filtered p id o ≡ some x
      → (x.0 ≡ id) × (o ≡ some x.1) × (p x.1 ≡ true)
  filtered-some p id none x h = cc
  filtered-some p id (some a) x h = elim (Bool-cases (p a)) [
    | inl fits ↦ ground arith
    | inr misfit ↦ absurd (ground arith)
  ]

  recipient_row-some :
      (did : String) (db : MessagingDb) (x : ℕ × Agent)
      → KeysDiffer db.agents
      → recipient_row lib did db ≡ some x
      → (lookup x.0 db.agents ≡ some x.1) × (is_reachable x.1 ≡ true)
  recipient_row-some did db x d h = elim (Option-cases (parse_agent_id lib.uuid did)) [
    | inl unread ↦
        let p = λ (a : Agent). is_reachable a && str_eq a.did did in
        let is : find_row p db.agents ≡ some x = ground arith in
        (find_row-lookup p x.0 x.1 db.agents d is, ground (arith, find_row_fits p db.agents x is))
    | inr (id, e) ↦ ground (arith, filtered-some is_reachable id (lookup id db.agents) x)
  ]

  sender_row-some :
      (spelled : String) (db : MessagingDb) (x : ℕ × Agent)
      → sender_row lib spelled db ≡ some x
      → (parse_agent_id lib.uuid spelled ≡ some x.0)
        × (lookup x.0 db.agents ≡ some x.1)
        × (is_present x.1 ≡ true)
  sender_row-some spelled db x h = elim (Option-cases (parse_agent_id lib.uuid spelled)) [
    | inl unread ↦ absurd (ground arith)
    | inr (id, e) ↦ ground (arith, filtered-some is_present id (lookup id db.agents) x)
  ]

  module _ (settings : Settings) (net : Network) where
    -- The message is signed and covered, and all that has changed is one new pending task.
    pub record Added (now : ℕ) (e : Envelope) (recipient sender : ℕ × Agent) (db db' : MessagingDb)
        (id : ℕ) : Type 0 where
      pub contract : Option (ℕ × TaskContract)
      pub signed : IsSigned settings sender.1 e
      pub covered : IsCovered e sender.0 recipient.0 (task_data lib e).0 db contract
      pub free : lookup id db.tasks ≡ none
      pub added : db' ≡ record db {
        tasks =
            add_row id
              (new_task lib now e sender.0 recipient.0
                (task_data lib e).0
                (task_data lib e).1
                contract)
              db.tasks;
      }

    pub send_between-Added :
        (now : ℕ) (key : Option ℕ) (e : Envelope) (recipient sender : ℕ × Agent)
        (db db' : MessagingDb) (id : ℕ) (mode : DeliveryMode)
        → send_between lib settings net now key e recipient sender db ≡ ok ((id, mode), db')
        → (key ≡ some id) × Added now e recipient sender db db' id
    unfolding send_between
    send_between-Added now key e recipient sender db db' id mode h =
        let c = (task_data lib e).0 in
        let p = (task_data lib e).1 in
        elim (Result-cases (check_signature lib settings sender.1 e db)) [
          | inl bad ↦ absurd (ground arith)
          | inr ((u, s1), sig) ↦
              let (same1, signed) = check_signature-ok settings sender.1 e db (u, s1) sig in
              elim (Result-cases (check_payload lib settings recipient.1 c p db)) [
                | inl bad ↦ absurd (ground arith)
                | inr ((v, s2), pay) ↦
                    let same2 = check_payload-ok settings recipient.1 c p db (v, s2) pay in
                    elim (Result-cases (find_contract lib e sender.0 recipient.0 c db)) [
                      | inl bad ↦ absurd (ground arith)
                      | inr ((contract, s3), con) ↦
                          let (same3, covered) =
                            find_contract-ok e sender.0 recipient.0 c db (contract, s3) con in
                          let t = new_task lib now e sender.0 recipient.0 c p contract in
                          elim (Result-cases (add_task key t db)) [
                            | inl bad ↦ absurd (ground arith)
                            | inr ((k, s4), stored) ↦
                                let (row, free, added) = add_task-ok key t db (k, s4) stored in
                                let same_id : id ≡ k = ground arith in
                                let same_db : db' ≡ s4 = ground arith in
                                rw same_id (
                                  row,
                                  record {
                                    contract = contract;
                                    signed = signed;
                                    covered = covered;
                                    free = free;
                                    added = same_db ∙ added;
                                  },
                                )
                          ]
                    ]
              ]
        ]

    -- The checks that a message has passed before its insertion.
    pub record Checked (now draw : ℕ) (e : Envelope) (spelled : String) (db db' : MessagingDb)
        (r : ℕ × DeliveryMode) : Type 0 where
      pub key : Option ℕ
      pub recipient : ℕ × Agent
      pub sender : ℕ × Agent
      pub fresh : check_duplicate lib draw e db ≡ ok (key, db)
      pub alive : 1 ≤ e.ttl_seconds
      pub is_recipient : recipient_row lib e.to db ≡ some recipient
      pub is_sender : sender_row lib spelled db ≡ some sender
      pub inserted : send_between lib settings net now key e recipient sender db ≡ ok (r, db')

    pub send_to_agent-Checked :
        (now draw : ℕ) (e : Envelope) (spelled : String) (db db' : MessagingDb)
        (r : ℕ × DeliveryMode)
        → send_to_agent lib settings net now draw e spelled db ≡ ok (r, db')
        → Checked now draw e spelled db db' r
    unfolding send_to_agent
    send_to_agent-Checked now draw e spelled db db' r h =
        elim (Result-cases (check_duplicate lib draw e db)) [
          | inl bad ↦ absurd (ground arith)
          | inr ((key, s0), dup) ↦
              let same : s0 ≡ db = check_duplicate-ok draw e db (key, s0) dup in
              elim (Option-cases (recipient_row lib e.to db)) [
                | inl missing ↦ absurd (ground arith)
                | inr (recipient, found) ↦ elim (Option-cases (sender_row lib spelled db)) [
                  | inl unknown ↦ absurd (ground arith)
                  | inr (sender, known) ↦ record {
                    key = key;
                    recipient = recipient;
                    sender = sender;
                    fresh = ground arith;
                    alive = ground arith;
                    is_recipient = found;
                    is_sender = known;
                    inserted = ground arith;
                  }
                ]
              ]
        ]

    -- The message is alive, the sender exists and the recipient is active and not deleted.
    pub record Parties (e : Envelope) (spelled : String) (db : MessagingDb)
        (recipient sender : ℕ × Agent) : Type 0 where
      pub alive : 1 ≤ e.ttl_seconds
      pub is_sender : parse_agent_id lib.uuid spelled ≡ some sender.0
      pub known : lookup sender.0 db.agents ≡ some sender.1
      pub present : is_present sender.1 ≡ true
      pub found : lookup recipient.0 db.agents ≡ some recipient.1
      pub reachable : is_reachable recipient.1 ≡ true

    -- A message to one agent is accepted only within its time to live, from an existing sender with a
    -- good signature, where one is given or required, to an active agent that is not deleted and, where
    -- it names a contract, under an active contract of the two for its capability; then exactly one
    -- pending task is added, its key fresh and the message_id where there is one, and nothing else
    -- changes.
    pub send_to_agent_sound :
        (now draw : ℕ) (e : Envelope) (spelled : String) (db db' : MessagingDb) (id : ℕ)
        (mode : DeliveryMode)
        → KeysDiffer db.agents
        → send_to_agent lib settings net now draw e spelled db ≡ ok ((id, mode), db')
        → (recipient sender : ℕ × Agent) × Parties e spelled db recipient sender
          × Added now e recipient sender db db' id
          × IsNamed e id
    send_to_agent_sound now draw e spelled db db' id mode d h =
        let c = send_to_agent-Checked now draw e spelled db db' (id, mode) h in
        let to = recipient_row-some e.to db c.recipient d c.is_recipient in
        let from = sender_row-some spelled db c.sender c.is_sender in
        let (is_key, added) =
          send_between-Added now c.key e c.recipient c.sender db db' id mode c.inserted in
        (
          c.recipient,
          c.sender,
          record {
            alive = c.alive;
            is_sender = from.0;
            known = from.1;
            present = from.2;
            found = to.0;
            reachable = to.1;
          },
          added,
          check_duplicate-IsNamed draw e db id db (rw is_key at c.fresh),
        )
