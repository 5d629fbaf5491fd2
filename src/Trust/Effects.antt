-- ===== src/Trust/Effects.antt =====
-- What each operation of the trust service does to the table of records.
use open_agent_net.Prelude.{
  ℕ, ◌+◌, ◌≤◌, ◌≡◌, refl, String, Bool, true, Option, none, some, List, [], ◌∙◌, sym, arith, inl,
  inr, ◌⊎◌, Option-cases,
}
use open_agent_net.Identifiers.{Uuid, parse_agent_id}
use open_agent_net.Tasks.{Task}
use open_agent_net.Db.{ok, Result-cases, Table, lookup, update, add_row}
use open_agent_net.Trust.Numbers.{Float, Rounds}
use open_agent_net.Trust.State.{TrustRecord, Endorsement, Dispute, TrustDb, Verdict}
use open_agent_net.Trust.Score.{Component, rescore}
use open_agent_net.Trust.Service.{
  new_record, ensure_record, counted, check_anomalies, record_for, record_known, record_outcome,
  after_endorsement, recompute, endorse, flag, count_dispute, judge, get_trust_record, penalized,
  resolve_dispute, mark_dispute_under_review, first_of, status_after, with_endorsement, weight_of,
  weights_to, endorsement_mean, latency_seen, with_dispute, put_dispute, truthy_id, is_resolvable,
}
use open_agent_net.Trust.Bounds.{IsSound, Moves, done, create, change, rescore-IsSound}

module _ (f : Float) (components : List (Component f.F)) where
  open f use {F}

  -- What a dispute that was resolved had been.
  pub record Resolved (uuid : Uuid) (text : String) (v : Verdict) (db : TrustDb F) (k : ℕ)
      : Type 0 where
    pub id : ℕ
    pub before : Dispute
    pub is_id : uuid.parse text ≡ some id
    pub stored : lookup id db.disputes ≡ some before
    pub was_open : is_resolvable f components before.status ≡ true
    pub against : before.reported_agent_id ≡ k
    pub is_valid : v ≡ Verdict.valid

  pub check_anomalies-records :
      (now agent : ℕ) (r : TrustRecord F) (db : TrustDb F)
      → (check_anomalies f components now agent r db).records ≡ db.records
  unfolding check_anomalies
  check_anomalies-records now agent r db = ground arith

module _ (f : Float) (components : List (Component f.F)) (rounds : Rounds f) where
  open f use {F}

  abbrev MovesOf : (ℕ → Type 0) → TrustDb F → TrustDb F → Type 0
  MovesOf judged a b = Moves f components rounds judged a.records b.records

  ensure_record-Moves :
      (judged : ℕ → Type 0) (now agent : ℕ) (db u : TrustDb F)
      → MovesOf judged (ensure_record f components now agent db) u
      → MovesOf judged db u
  unfolding ensure_record
  ensure_record-Moves judged now agent db u m = elim (Option-cases (lookup agent db.records)) [
    | inl absent ↦
        let is : (ensure_record f components now agent db).records
            ≡ add_row agent (new_record f components now) db.records =
          ground arith in
        create now agent absent (rw is at m)
    | inr (r, there) ↦
        let is : (ensure_record f components now agent db).records ≡ db.records = ground arith in
        rw is at m
  ]

  rescore-penalty :
      (now : ℕ) (o : Option F) (r : TrustRecord F)
      → (rescore f now components o r).dispute_penalty ≡ r.dispute_penalty
  unfolding rescore
  rescore-penalty now o r = refl

  -- A row rewritten with a new score and the same penalty, and with counters that stay in order.
  put-Moves :
      (judged : ℕ → Type 0) (agent : ℕ) (r q r' : TrustRecord F) (now : ℕ) (o : Option F)
      (db db' : TrustDb F)
      → lookup agent db.records ≡ some r
      → db'.records ≡ update agent r' db.records
      → (r.successful_tasks ≤ r.total_tasks → q.successful_tasks ≤ q.total_tasks)
      → (q.dispute_penalty ≡ r.dispute_penalty) ⊎ judged agent
      → (IsSound f components rounds (rescore f now components o q)
          → IsSound f components rounds r')
      → r'.dispute_penalty ≡ q.dispute_penalty
      → MovesOf judged db db'
  put-Moves judged agent r q r' now o db db' at is counts pen sound kept = rw is (
      change agent r r' at
        (λ v. sound (rescore-IsSound f components rounds now components o q (counts v.counts)))
        (elim pen [ inl same ↦ inl (kept ∙ same) | inr j ↦ inr j ]) done)

  record_known-Moves :
      (judged : ℕ → Type 0) (now : ℕ) (t : Task) (success : Bool) (ms : Option ℕ) (db : TrustDb F)
      → MovesOf judged db (record_known f components now t success ms db)
  unfolding record_known record_for
  record_known-Moves judged now t success ms db =
      elim (Option-cases (lookup t.to_agent_id db.records)) [
        | inl absent ↦
            let is : (record_known f components now t success ms db).records ≡ db.records =
              ground arith in
            rw is done
        | inr (r, there) ↦
            let q = counted f components success r in
            let o = some (latency_seen f components t ms db) in
            let r' = record (rescore f now components o q) {
              last_computed_at = now;
              updated_at = now;
            } in
            put-Moves judged t.to_agent_id r q r' now o db
              (record_known f components now t success ms db) there
              (ground (arith, check_anomalies-records f components now t.to_agent_id q db))
              (λ h. ground arith) (inl refl) (λ v. record { counts = v.counts; score = v.score })
              (rescore-penalty now o q)
      ]

  pub record_outcome-Moves :
      (judged : ℕ → Type 0) (now id : ℕ) (success : Bool) (ms : Option ℕ) (db : TrustDb F)
      → MovesOf judged db (record_outcome f components now id success ms db)
  unfolding record_outcome
  record_outcome-Moves judged now id success ms db = elim (Option-cases (lookup id db.tasks)) [
    | inl absent ↦
        let is : (record_outcome f components now id success ms db).records ≡ db.records =
          ground arith in
        rw is done
    | inr (t, there) ↦
        let mid = ensure_record f components now t.to_agent_id db in
        let is : record_outcome f components now id success ms db
            ≡ record_known f components now t success (first_of ms t.execution_ms) mid =
          ground arith in
        ensure_record-Moves judged now t.to_agent_id db
          (record_outcome f components now id success ms db)
          (rw is (record_known-Moves judged now t success (first_of ms t.execution_ms) mid))
  ]

  recompute-Moves :
      (judged : ℕ → Type 0) (now agent : ℕ) (db db' : TrustDb F)
      → db'.records ≡ db.records
      → MovesOf judged db (recompute f components now agent db')
  unfolding recompute
  recompute-Moves judged now agent db db' same = elim (Option-cases (lookup agent db.records)) [
    | inl absent ↦
        let is : (recompute f components now agent db').records ≡ db.records = ground arith in
        rw is done
    | inr (r, there) ↦
        let q = record r {
          endorsement_score =
              endorsement_mean f components (weights_to f components agent [] db'.endorsements);
        } in
        put-Moves judged agent r q (record (rescore f now components none q) { updated_at = now })
          now none db (recompute f components now agent db') there (ground arith) (λ h. h)
          (inl refl) (λ v. record { counts = v.counts; score = v.score })
          (rescore-penalty now none q)
  ]

  after_endorsement-Moves :
      (judged : ℕ → Type 0) (now from to : ℕ) (db : TrustDb F)
      → MovesOf judged db (after_endorsement f components now from to db)
  unfolding after_endorsement
  after_endorsement-Moves judged now from to db = recompute-Moves judged now to db _ (ground arith)

  pub endorse-Moves :
      (judged : ℕ → Type 0) (uuid : Uuid) (now id : ℕ) (a b skill : String)
      (comment : Option String) (db : TrustDb F) (x : Endorsement F × TrustDb F)
      → endorse f components uuid now id a b skill comment db ≡ ok x
      → MovesOf judged db x.1
  unfolding endorse
  endorse-Moves judged uuid now id a b skill comment db x h =
      elim (Option-cases (parse_agent_id uuid a)) [
        | inl bad ↦ absurd (ground arith)
        | inr (from, e) ↦ elim (Option-cases (parse_agent_id uuid b)) [
          | inl bad ↦ absurd (ground arith)
          | inr (to, g) ↦
              let mid = ensure_record f components now to db in
              let row : Endorsement F = record {
                from_agent_id = from;
                to_agent_id = to;
                capability = skill;
                comment = comment;
                weight = weight_of f components (lookup from mid.records);
                created_at = now;
              } in
              let is : x.1
                  ≡ after_endorsement f components now from to
                      (with_endorsement f components id row mid) =
                ground arith in
              ensure_record-Moves judged now to db x.1 (
                rw is (
                  after_endorsement-Moves judged now from to
                    (with_endorsement f components id row mid)))
        ]
      ]

  count_dispute-Moves :
      (judged : ℕ → Type 0) (agent : ℕ) (db db' : TrustDb F)
      → db'.records ≡ db.records
      → MovesOf judged db (count_dispute f components agent db')
  unfolding count_dispute
  count_dispute-Moves judged agent db db' same = elim (Option-cases (lookup agent db.records)) [
    | inl absent ↦
        let is : (count_dispute f components agent db').records ≡ db.records = ground arith in
        rw is done
    | inr (r, there) ↦
        let r' = record r { dispute_count = r.dispute_count + 1 } in
        let is : (count_dispute f components agent db').records ≡ update agent r' db.records =
          ground arith in
        rw is (
          change agent r r' there (λ v. record { counts = v.counts; score = v.score }) (inl refl)
            done)
  ]

  pub flag-Moves :
      (judged : ℕ → Type 0) (uuid : Uuid) (now id : ℕ) (a b reason : String) (task : Option String)
      (db : TrustDb F) (x : Dispute × TrustDb F)
      → flag f components uuid now id a b reason task db ≡ ok x
      → MovesOf judged db x.1
  unfolding flag
  flag-Moves judged uuid now id a b reason task db x h = elim (Option-cases (uuid.parse a)) [
    | inl bad ↦ absurd (ground arith)
    | inr (reported, e) ↦ elim (Option-cases (uuid.parse b)) [
      | inl bad ↦ absurd (ground arith)
      | inr (reporter, g) ↦ elim (Result-cases (truthy_id f components uuid task)) [
        | inl bad ↦ absurd (ground arith)
        | inr (t, k) ↦ elim (Option-cases (parse_agent_id uuid a)) [
          | inl bad ↦ absurd (ground arith)
          | inr (agent, q) ↦
              let is : x.1
                  ≡ count_dispute f components agent (with_dispute f components id x.0 db) =
                ground arith in
              rw is (count_dispute-Moves judged agent db (with_dispute f components id x.0 db) refl)
        ]
      ]
    ]
  ]

  judge-Moves :
      (now : ℕ) (v : Verdict) (agent : ℕ) (db db' : TrustDb F)
      → db'.records ≡ db.records
      → MovesOf (λ k. (k ≡ agent) × (v ≡ Verdict.valid)) db (judge f components now v agent db')
  unfolding judge
  judge-Moves now v agent db db' same = elim (Option-cases (lookup agent db.records)) [
    | inl absent ↦
        let is : (judge f components now v agent db').records ≡ db.records = ground arith in
        rw is done
    | inr (r, there) ↦
        let q = penalized f components v r in
        put-Moves (λ k. (k ≡ agent) × (v ≡ Verdict.valid)) agent r q
          (record (rescore f now components none q) { updated_at = now }) now none db
          (judge f components now v agent db') there (ground arith) (keeps_counts v r) (spared v r)
          (λ s. record { counts = s.counts; score = s.score }) (rescore-penalty now none q)
  ]
    where
      keeps_counts :
          (w : Verdict) (r : TrustRecord F)
          → r.successful_tasks ≤ r.total_tasks
          → (penalized f components w r).successful_tasks ≤ (penalized f components w r).total_tasks
      keeps_counts Verdict.valid r h = h
      keeps_counts Verdict.invalid r h = h
      keeps_counts Verdict.withdrawn r h = h
      keeps_counts Verdict.unknown r h = h

      spared :
          (w : Verdict) (r : TrustRecord F)
          → ((penalized f components w r).dispute_penalty ≡ r.dispute_penalty)
            ⊎ ((agent ≡ agent) × (w ≡ Verdict.valid))
      spared Verdict.valid r = inr (refl, refl)
      spared Verdict.invalid r = inl refl
      spared Verdict.withdrawn r = inl refl
      spared Verdict.unknown r = inl refl

  Moves-mono :
      (a b : ℕ → Type 0) {t u : Table (TrustRecord F)}
      → ((k : ℕ) → a k → b k)
      → Moves f components rounds a t u
      → Moves f components rounds b t u
  Moves-mono a b h done = done
  Moves-mono a b h (create now agent free rest) = create now agent free (Moves-mono a b h rest)
  Moves-mono a b h (change agent r r' at sound pen rest) =
      change agent r r' at sound (elim pen [ inl same ↦ inl same | inr j ↦ inr (h agent j) ])
        (Moves-mono a b h rest)

  pub resolve_dispute-Moves :
      (uuid : Uuid) (now : ℕ) (text : String) (v : Verdict) (notes : Option String)
      (operator : Option ℕ) (db : TrustDb F) (x : Dispute × TrustDb F)
      → resolve_dispute f components uuid now text v notes operator db ≡ ok x
      → MovesOf (Resolved f components uuid text v db) db x.1
  unfolding resolve_dispute
  resolve_dispute-Moves uuid now text v notes operator db x h =
      elim (Option-cases (status_after f components v)) [
        | inl bad ↦ absurd (ground arith)
        | inr (s, e) ↦ elim (Option-cases (uuid.parse text)) [
          | inl bad ↦ absurd (ground arith)
          | inr (id, g) ↦ elim (Option-cases (lookup id db.disputes)) [
            | inl absent ↦ absurd (ground arith)
            | inr (d, there) ↦
                let db' = put_dispute f components id x.0 db in
                let is : x.1 ≡ judge f components now v d.reported_agent_id db' = ground arith in
                let open_before : is_resolvable f components d.status ≡ true = ground arith in
                rw is (
                  Moves-mono (λ k. (k ≡ d.reported_agent_id) × (v ≡ Verdict.valid))
                    (Resolved f components uuid text v db)
                    (λ k j. record {
                      id = id;
                      before = d;
                      is_id = g;
                      stored = there;
                      was_open = open_before;
                      against = sym j.0;
                      is_valid = j.1;
                    })
                    (judge-Moves now v d.reported_agent_id db db' refl))
          ]
        ]
      ]

  pub review-Moves :
      (judged : ℕ → Type 0) (uuid : Uuid) (text : String) (db : TrustDb F) (x : Dispute × TrustDb F)
      → mark_dispute_under_review f components uuid text db ≡ ok x
      → MovesOf judged db x.1
  unfolding mark_dispute_under_review
  review-Moves judged uuid text db x h = elim (Option-cases (uuid.parse text)) [
    | inl bad ↦ absurd (ground arith)
    | inr (id, g) ↦ elim (Option-cases (lookup id db.disputes)) [
      | inl absent ↦ absurd (ground arith)
      | inr (d, there) ↦ (let is : x.1.records ≡ db.records = ground arith in rw is done)
    ]
  ]

  pub view-Moves :
      (judged : ℕ → Type 0) (uuid : Uuid) (now : ℕ) (text : String) (db : TrustDb F)
      (x : Option (TrustRecord F) × TrustDb F)
      → get_trust_record f components uuid now text db ≡ ok x
      → MovesOf judged db x.1
  unfolding get_trust_record
  view-Moves judged uuid now text db x h = elim (Option-cases (parse_agent_id uuid text)) [
    | inl bad ↦ absurd (ground arith)
    | inr (agent, e) ↦
        let is : x.1 ≡ ensure_record f components now agent db = ground arith in
        ensure_record-Moves judged now agent db x.1 (rw is done)
  ]
