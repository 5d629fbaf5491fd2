-- ===== src/Trust/Requests.antt =====
-- Sequences of requests to the trust service: what becomes of the records and of the disputes.
use open_agent_net.Prelude.{
  ℕ, ◌≡◌, String, Bool, false, Option, some, List, [], ◌∷◌, arith, inl, inr, ◌⊎◌, Option-cases,
}
use open_agent_net.Identifiers.{Uuid, parse_agent_id}
use open_agent_net.Db.{
  ok, Result-cases, get_db, get_db_inv, lookup, add_row, lookup-update, lookup-add_row,
}
use open_agent_net.Trust.Numbers.{Float, Rounds}
use open_agent_net.Trust.State.{TrustRecord, Endorsement, Dispute, TrustDb, Verdict}
use open_agent_net.Trust.Score.{Component}
use open_agent_net.Trust.Service.{
  ensure_record, check_anomalies, record_for, record_known, record_outcome, after_endorsement,
  recompute, endorse, flag, count_dispute, judge, get_trust_record, resolve_dispute,
  mark_dispute_under_review, status_after, truthy_id, is_resolvable, put_dispute, with_dispute,
}
use open_agent_net.Trust.Bounds.{Moves, done, Sound, Moves-Sound, Moves-penalty}
use open_agent_net.Trust.Effects.{
  Resolved, record_outcome-Moves, endorse-Moves, flag-Moves, resolve_dispute-Moves, review-Moves,
  view-Moves,
}

-- Who asks, the drawn key, and what is asked; an outcome comes from a worker or a report.
pub data Request : Type 0 where
  outcome : ℕ → ℕ → Bool → Option ℕ → Request
  endorsing : ℕ → ℕ → String → String → String → Option String → Request
  flagging : ℕ → ℕ → String → String → String → Option String → Request
  resolving : ℕ → String → Verdict → Option String → Option ℕ → Request
  reviewing : String → Request
  viewing : ℕ → String → Request

module _ (f : Float) (components : List (Component f.F)) (uuid : Uuid) where
  open f use {F}

  unfoldable pub step : Request → TrustDb F → TrustDb F
  step (outcome now id success ms) db = record_outcome f components now id success ms db
  step (endorsing now id a b skill comment) db =
      get_db (endorse f components uuid now id a b skill comment) db
  step (flagging now id a b reason task) db =
      get_db (flag f components uuid now id a b reason task) db
  step (resolving now text v notes operator) db =
      get_db (resolve_dispute f components uuid now text v notes operator) db
  step (reviewing text) db = get_db (mark_dispute_under_review f components uuid text) db
  step (viewing now text) db = get_db (get_trust_record f components uuid now text) db

  unfoldable pub run : List Request → TrustDb F → TrustDb F
  run [] db = db
  run (q ∷ qs) db = run qs (step q db)

  -- The request is the verdict `valid` on an open dispute against the agent.
  abbrev pub Judges : Request → TrustDb F → ℕ → Type 0
  Judges (resolving now text v notes operator) db k = Resolved f components uuid text v db k
  Judges _ db k = ⊥

  -- A resolved or withdrawn dispute.
  record_outcome-disputes :
      (now id : ℕ) (success : Bool) (ms : Option ℕ) (db : TrustDb F)
      → (record_outcome f components now id success ms db).disputes ≡ db.disputes
  unfolding record_outcome ensure_record record_known record_for check_anomalies
  record_outcome-disputes now id success ms db = ground arith

  after_endorsement-disputes :
      (now from to : ℕ) (db : TrustDb F)
      → (after_endorsement f components now from to db).disputes ≡ db.disputes
  unfolding after_endorsement recompute
  after_endorsement-disputes now from to db = ground arith

  ensure_record-disputes :
      (now agent : ℕ) (db : TrustDb F)
      → (ensure_record f components now agent db).disputes ≡ db.disputes
  unfolding ensure_record
  ensure_record-disputes now agent db = ground arith

  count_dispute-disputes :
      (agent : ℕ) (db : TrustDb F) → (count_dispute f components agent db).disputes ≡ db.disputes
  unfolding count_dispute
  count_dispute-disputes agent db = ground arith

  judge-disputes :
      (now : ℕ) (v : Verdict) (agent : ℕ) (db : TrustDb F)
      → (judge f components now v agent db).disputes ≡ db.disputes
  unfolding judge
  judge-disputes now v agent db = ground arith

  module _ (id : ℕ) (d : Dispute) (closed : is_resolvable f components d.status ≡ false) where
    abbrev At : TrustDb F → Type 0
    At db = lookup id db.disputes ≡ some d

    endorse-At :
        (now k : ℕ) (a b skill : String) (comment : Option String) (db : TrustDb F)
        (x : Endorsement F × TrustDb F)
        → At db
        → endorse f components uuid now k a b skill comment db ≡ ok x
        → At x.1
    unfolding endorse
    endorse-At now k a b skill comment db x at h = elim (Option-cases (parse_agent_id uuid a)) [
      | inl bad ↦ absurd (ground arith)
      | inr (from, e) ↦ elim (Option-cases (parse_agent_id uuid b)) [
        | inl bad ↦ absurd (ground arith)
        | inr (to, g) ↦ ground (
          arith,
          ensure_record-disputes now to db,
          after_endorsement-disputes now from to (record (ensure_record f components now to db) {
            endorsements = add_row k x.0 (ensure_record f components now to db).endorsements;
          }),
        )
      ]
    ]

    flag-At :
        (now k : ℕ) (a b reason : String) (task : Option String) (db : TrustDb F)
        (x : Dispute × TrustDb F)
        → At db
        → flag f components uuid now k a b reason task db ≡ ok x
        → At x.1
    unfolding flag
    flag-At now k a b reason task db x at h = elim (Option-cases (uuid.parse a)) [
      | inl bad ↦ absurd (ground arith)
      | inr (reported, e) ↦ elim (Option-cases (uuid.parse b)) [
        | inl bad ↦ absurd (ground arith)
        | inr (reporter, g) ↦ elim (Result-cases (truthy_id f components uuid task)) [
          | inl bad ↦ absurd (ground arith)
          | inr (t, q) ↦ elim (Option-cases (parse_agent_id uuid a)) [
            | inl bad ↦ absurd (ground arith)
            | inr (agent, p) ↦ ground (
              arith,
              count_dispute-disputes agent (with_dispute f components k x.0 db),
              lookup-add_row k id x.0 db.disputes,
            )
          ]
        ]
      ]
    ]

    resolve-At :
        (now : ℕ) (text : String) (v : Verdict) (notes : Option String) (operator : Option ℕ)
        (db : TrustDb F) (x : Dispute × TrustDb F)
        → At db
        → resolve_dispute f components uuid now text v notes operator db ≡ ok x
        → At x.1
    unfolding resolve_dispute
    resolve-At now text v notes operator db x at h =
        elim (Option-cases (status_after f components v)) [
          | inl bad ↦ absurd (ground arith)
          | inr (s, e) ↦ elim (Option-cases (uuid.parse text)) [
            | inl bad ↦ absurd (ground arith)
            | inr (k, g) ↦ elim (Option-cases (lookup k db.disputes)) [
              | inl absent ↦ absurd (ground arith)
              | inr (o, there) ↦ ground (
                arith,
                judge-disputes now v o.reported_agent_id (put_dispute f components k x.0 db),
                lookup-update k id x.0 db.disputes,
              )
            ]
          ]
        ]

    review-At :
        (text : String) (db : TrustDb F) (x : Dispute × TrustDb F)
        → At db
        → mark_dispute_under_review f components uuid text db ≡ ok x
        → At x.1
    unfolding mark_dispute_under_review
    review-At text db x at h = elim (Option-cases (uuid.parse text)) [
      | inl bad ↦ absurd (ground arith)
      | inr (k, g) ↦ elim (Option-cases (lookup k db.disputes)) [
        | inl absent ↦ absurd (ground arith)
        | inr (o, there) ↦ ground (arith, lookup-update k id x.0 db.disputes)
      ]
    ]

    view-At :
        (now : ℕ) (text : String) (db : TrustDb F) (x : Option (TrustRecord F) × TrustDb F)
        → At db
        → get_trust_record f components uuid now text db ≡ ok x
        → At x.1
    unfolding get_trust_record
    view-At now text db x at h = elim (Option-cases (parse_agent_id uuid text)) [
      | inl bad ↦ absurd (ground arith)
      | inr (agent, e) ↦ ground (arith, ensure_record-disputes now agent db)
    ]

    step-At : (q : Request) (db : TrustDb F) → At db → At (step q db)
    unfolding step
    step-At (outcome now k success ms) db at =
        ground (arith, record_outcome-disputes now k success ms db)
    step-At (endorsing now k a b skill comment) db at =
        get_db_inv At (endorse f components uuid now k a b skill comment) db
          (λ x. endorse-At now k a b skill comment db x at) at
    step-At (flagging now k a b reason task) db at =
        get_db_inv At (flag f components uuid now k a b reason task) db
          (λ x. flag-At now k a b reason task db x at) at
    step-At (resolving now text v notes operator) db at =
        get_db_inv At (resolve_dispute f components uuid now text v notes operator) db
          (λ x. resolve-At now text v notes operator db x at) at
    step-At (reviewing text) db at =
        get_db_inv At (mark_dispute_under_review f components uuid text) db
          (λ x. review-At text db x at) at
    step-At (viewing now text) db at =
        get_db_inv At (get_trust_record f components uuid now text) db
          (λ x. view-At now text db x at) at

    -- A dispute that has been resolved or withdrawn is final: no sequence of outcomes, endorsements,
    -- flags, verdicts, reviews and views changes its row.
    pub dispute_final :
        (qs : List Request) (db : TrustDb F)
        → lookup id db.disputes ≡ some d
        → lookup id (run qs db).disputes ≡ some d
    unfolding run
    dispute_final [] db at = at
    dispute_final (q ∷ qs) db at = dispute_final qs (step q db) (step-At q db at)

  module _ (rounds : Rounds f) where
    step-Moves :
        (q : Request) (db : TrustDb F)
        → Moves f components rounds (Judges q db) db.records (step q db).records
    unfolding step
    step-Moves (outcome now k success ms) db =
        record_outcome-Moves f components rounds (λ j. ⊥) now k success ms db
    step-Moves (endorsing now k a b skill comment) db =
        get_db_inv (λ s. Moves f components rounds (λ j. ⊥) db.records s.records)
          (endorse f components uuid now k a b skill comment) db
          (λ x. endorse-Moves f components rounds (λ j. ⊥) uuid now k a b skill comment db x) done
    step-Moves (flagging now k a b reason task) db =
        get_db_inv (λ s. Moves f components rounds (λ j. ⊥) db.records s.records)
          (flag f components uuid now k a b reason task) db
          (λ x. flag-Moves f components rounds (λ j. ⊥) uuid now k a b reason task db x) done
    step-Moves (resolving now text v notes operator) db =
        get_db_inv
          (λ s.
            Moves f components rounds (Resolved f components uuid text v db) db.records s.records)
          (resolve_dispute f components uuid now text v notes operator) db
          (λ x. resolve_dispute-Moves f components rounds uuid now text v notes operator db x) done
    step-Moves (reviewing text) db =
        get_db_inv (λ s. Moves f components rounds (λ j. ⊥) db.records s.records)
          (mark_dispute_under_review f components uuid text) db
          (λ x. review-Moves f components rounds (λ j. ⊥) uuid text db x) done
    step-Moves (viewing now text) db =
        get_db_inv (λ s. Moves f components rounds (λ j. ⊥) db.records s.records)
          (get_trust_record f components uuid now text) db
          (λ x. view-Moves f components rounds (λ j. ⊥) uuid now text db x) done

    -- From records that count no more successes than tasks and whose scores are from 0 to 1, every
    -- sequence of outcomes, endorsements, flags, verdicts, reviews and views leads to such records, where 0,
    -- 1/2 and 1 are ordered and rounding stays between 0 and 1.
    pub records_stay-Sound :
        (qs : List Request) (db : TrustDb F)
        → Sound f components rounds db.records
        → Sound f components rounds (run qs db).records
    unfolding run
    records_stay-Sound [] db v = v
    records_stay-Sound (q ∷ qs) db v =
        records_stay-Sound qs (step q db) (Moves-Sound f components rounds (step-Moves q db) v)

    -- No request removes a record, and the penalty in it changes only by the verdict `valid` on an open
    -- or reviewed dispute against its agent: flags, reviews and other verdicts leave it as it is.
    pub penalty_only_valid :
        (q : Request) (db : TrustDb F) (agent : ℕ) (r : TrustRecord F)
        → lookup agent db.records ≡ some r
        → (r' : TrustRecord F) × (lookup agent (step q db).records ≡ some r')
          × ((r'.dispute_penalty ≡ r.dispute_penalty) ⊎ Judges q db agent)
    penalty_only_valid q db agent r at =
        Moves-penalty f components rounds agent r (step-Moves q db) at
