-- ===== src/Trust/Service.antt =====
-- `TrustService` (backend/app/services/trust/service.py): outcomes, endorsements and disputes.
-- Execution times are not negative; times count seconds.
use open_agent_net.Prelude.{
  ℕ, ◌+◌, ◌-◌, ◌%◌, String, Bool, true, false, not, ◌&&◌, ◌||◌, Option, none, some, List, [], ◌∷◌,
  ◌++◌, ◌==◌, leb, ltb, str_eq, if◌then◌else◌, is_some, length,
}
use open_agent_net.Prelude.Occurs.{occurs}
use open_agent_net.Identifiers.{Uuid, is_empty, parse_agent_id}
use open_agent_net.Tasks.{Task}
use open_agent_net.Agents.{Agent, Capability}
use open_agent_net.Db.{
  Result, ok, err, pure, raise_if, gets, modify, or_raise, ◌>>=◌, ◌>>◌, Table, lookup, update,
  add_row, select, find_row,
}
use open_agent_net.Trust.Numbers.{Float, zero_f, one_f, half_f, min_f}
use open_agent_net.Trust.State.{
  TrustRecord, Endorsement, Dispute, DisputeStatus, open_, under_review, resolved_valid,
  resolved_invalid, Anomaly, endorsement_ring, endorsement_burst, failure_rate_high,
  success_spike_after_dormancy, TrustDb, Verdict, TrustError, self_endorsement, invalid_agent,
  endorsement_exists, integrity_error, self_report, invalid_uuid, unknown_verdict,
  dispute_not_found, cannot_resolve, cannot_review, Action,
}
use open_agent_net.Trust.Score.{Component, rescore, latency_adherence}

-- A positive number of a JSON value.
abbrev pub positive : Option ℕ → Option ℕ
positive none = none
positive (some n) = if ltb 0 n then some n else none

abbrev pub first_of : Option ℕ → Option ℕ → Option ℕ
first_of (some n) later = some n
first_of none later = later

unfoldable pub declared_latency : String → List Capability → Option ℕ
declared_latency name [] = none
declared_latency name (c ∷ cs) =
    let rest = declared_latency name cs in
    if str_eq c.name name then first_of (positive c.latency_estimate_ms) rest else rest

abbrev pub capabilities_of : Option Agent → List Capability
capabilities_of none = []
capabilities_of (some a) = a.capabilities

-- `_latency_target_ms`
unfoldable pub latency_target : Task → Option Agent → Option ℕ
unfolding declared_latency
latency_target t agent = first_of (positive t.constraints.max_latency_ms) (
    first_of (positive t.constraints.latency_target_ms) (
      first_of (positive t.constraints.sla_max_latency_ms)
        (declared_latency t.capability_name (capabilities_of agent))))

module _ (f : Float) (components : List (Component f.F)) where
  open f use {F, ratio, add, sub, div, lt, round3}

  -- A row with the defaults of its columns.
  abbrev pub new_record : ℕ → TrustRecord F
  new_record now = record {
    trust_score = half_f f;
    outcome_rate = half_f f;
    endorsement_score = half_f f;
    age_factor = ratio 1 10;
    dispute_penalty = zero_f f;
    component_scores = [];
    total_tasks = 0;
    successful_tasks = 0;
    dispute_count = 0;
    last_computed_at = now;
    created_at = now;
    updated_at = now;
  }

  abbrev pub put_record : ℕ → TrustRecord F → TrustDb F → TrustDb F
  put_record agent r db = record db { records = update agent r db.records }

  -- The record of the agent, which is created where there is none.
  unfoldable pub ensure_record : ℕ → ℕ → TrustDb F → TrustDb F
  ensure_record now agent db = elim (lookup agent db.records) [
    | some r ↦ db
    | none ↦ record db { records = add_row agent (new_record now) db.records }
  ]

  -- `get_trust_record`: a missing record is created by the reader.
  unfoldable pub get_trust_record : Uuid → ℕ → String → Action F (Option (TrustRecord F))
  get_trust_record uuid now text = do
    agent ← or_raise (parse_agent_id uuid text) invalid_agent
    modify (ensure_record now agent)
    gets (λ db. lookup agent db.records)

  abbrev pub emit : ℕ → Anomaly → TrustDb F → TrustDb F
  emit agent a db = record db { anomalies = db.anomalies ++ (agent, a) ∷ [] }

  abbrev pub emit_if : Bool → ℕ → Anomaly → TrustDb F → TrustDb F
  emit_if true agent a db = emit agent a db
  emit_if false agent a db = db

  -- The counters and the rate after an outcome.
  abbrev pub counted : Bool → TrustRecord F → TrustRecord F
  counted success r =
      let total = r.total_tasks + 1 in
      let good = if success then r.successful_tasks + 1 else r.successful_tasks in
      record r { total_tasks = total; successful_tasks = good; outcome_rate = ratio good total }

  abbrev pub fails_often : TrustRecord F → Bool
  fails_often r =
      leb 5 r.total_tasks
      && r.total_tasks % 5 == 0
      && not (lt (sub (one_f f) r.outcome_rate) (ratio 60 100))

  abbrev pub recent_tasks : ℕ → ℕ → TrustDb F → ℕ
  recent_tasks now agent db =
      length (select (λ id t. t.to_agent_id == agent && leb (now - 3600) t.created_at) db.tasks)

  abbrev pub spikes : ℕ → ℕ → TrustRecord F → TrustDb F → Bool
  spikes now agent r db =
      leb 5 r.total_tasks
      && leb (r.last_computed_at + 604800) now
      && leb 3 (recent_tasks now agent db)

  -- `_check_anomalies`
  unfoldable pub check_anomalies : ℕ → ℕ → TrustRecord F → TrustDb F → TrustDb F
  check_anomalies now agent r db =
      emit_if (spikes now agent r db) agent success_spike_after_dormancy
        (emit_if (fails_often r) agent failure_rate_high db)

  abbrev pub latency_seen : Task → Option ℕ → TrustDb F → F
  latency_seen t ms db = latency_adherence f ms (latency_target t (lookup t.to_agent_id db.agents))

  -- `record_outcome` after the record has been found.
  unfoldable pub record_for : ℕ → Task → Bool → Option ℕ → TrustRecord F → TrustDb F → TrustDb F
  unfolding check_anomalies
  record_for now t success ms r db =
      let r' = counted success r in
      let done = record (rescore f now components (some (latency_seen t ms db)) r') {
        last_computed_at = now;
        updated_at = now;
      } in
      put_record t.to_agent_id done (check_anomalies now t.to_agent_id r' db)

  unfoldable pub record_known : ℕ → Task → Bool → Option ℕ → TrustDb F → TrustDb F
  unfolding record_for
  record_known now t success ms db = elim (lookup t.to_agent_id db.records) [
    | none ↦ db
    | some r ↦ record_for now t success ms r db
  ]

  unfoldable pub record_outcome : ℕ → ℕ → Bool → Option ℕ → TrustDb F → TrustDb F
  unfolding ensure_record
  record_outcome now id success ms db = elim (lookup id db.tasks) [
    | none ↦ db
    | some t ↦
        record_known now t success (first_of ms t.execution_ms) (ensure_record now t.to_agent_id db)
  ]

  -- `weight = endorser_score if endorser_score >= 0.3 else 0.0`
  abbrev pub weight_of : Option (TrustRecord F) → F
  weight_of none = half_f f
  weight_of (some r) = if lt r.trust_score (ratio 3 10) then zero_f f else r.trust_score

  abbrev pub same_endorsement : ℕ → ℕ → String → Endorsement F → Bool
  same_endorsement from to skill e =
      e.from_agent_id == from && e.to_agent_id == to && str_eq e.capability skill

  -- The rows of the target in the order of their creation, which is that of the table: one weight for
  -- each endorser.
  unfoldable pub weights_to : ℕ → List ℕ → Table (Endorsement F) → List F
  weights_to to seen [] = []
  weights_to to seen ((id, e) ∷ es) =
      let others = weights_to to seen es in
      let counted_too = e.weight ∷ weights_to to (e.from_agent_id ∷ seen) es in
      if not (e.to_agent_id == to)
      then others
      else if occurs e.from_agent_id seen || (e.from_agent_id == to && occurs to seen)
      then others
      else counted_too

  -- `sum(...)`, from the left.
  unfoldable pub sum_f : F → List F → F
  sum_f acc [] = acc
  sum_f acc (x ∷ xs) = sum_f (add acc x) xs

  -- `sum(weights) / len(weights) if weights else 0.5`, at most 1 and rounded.
  unfoldable pub endorsement_mean : List F → F
  unfolding sum_f
  endorsement_mean [] = half_f f
  endorsement_mean (w ∷ ws) =
      round3 (min_f f (div (sum_f (zero_f f) (w ∷ ws)) (ratio (length (w ∷ ws)) 1)) (one_f f))

  -- `_recompute_endorsement_score`, where there is an endorsement.
  unfoldable pub recompute : ℕ → ℕ → TrustDb F → TrustDb F
  unfolding weights_to endorsement_mean
  recompute now agent db = elim (lookup agent db.records) [
    | none ↦ db
    | some r ↦
        let r' = record r {
          endorsement_score = endorsement_mean (weights_to agent [] db.endorsements);
        } in
        put_record agent (record (rescore f now components none r') { updated_at = now }) db
  ]

  abbrev pub with_endorsement : ℕ → Endorsement F → TrustDb F → TrustDb F
  with_endorsement id e db = record db { endorsements = add_row id e db.endorsements }

  abbrev pub in_ring : ℕ → ℕ → TrustDb F → Bool
  in_ring from to db =
      is_some (find_row (λ e. e.from_agent_id == to && e.to_agent_id == from) db.endorsements)

  abbrev pub in_burst : ℕ → ℕ → TrustDb F → Bool
  in_burst now to db = leb 3 (
      length (select (λ id e. e.to_agent_id == to && leb (now - 300) e.created_at) db.endorsements))

  -- What follows the insertion of an endorsement.
  unfoldable pub after_endorsement : ℕ → ℕ → ℕ → TrustDb F → TrustDb F
  unfolding recompute
  after_endorsement now from to db =
      let ringed = emit_if (in_ring from to db) to endorsement_ring db in
      recompute now to (emit_if (in_burst now to db) to endorsement_burst ringed)

  unfoldable pub endorse :
      Uuid → ℕ → ℕ → String → String → String → Option String → Action F (Endorsement F)
  unfolding ensure_record after_endorsement
  endorse uuid now id from_text to_text skill comment = do
    raise_if (str_eq from_text to_text) self_endorsement
    from ← or_raise (parse_agent_id uuid from_text) invalid_agent
    to ← or_raise (parse_agent_id uuid to_text) invalid_agent
    modify (ensure_record now to)
    endorser ← gets (λ db. lookup from db.records)
    existing ← gets (λ db. find_row (same_endorsement from to skill) db.endorsements)
    raise_if (is_some existing) endorsement_exists
    taken ← gets (λ db. lookup id db.endorsements)
    raise_if (is_some taken || from == to) integrity_error
    let row : Endorsement F = record {
      from_agent_id = from;
      to_agent_id = to;
      capability = skill;
      comment = comment;
      weight = weight_of endorser;
      created_at = now;
    } in
        do modify (with_endorsement id row); modify (after_endorsement now from to); pure row

  abbrev pub truthy_id : Uuid → Option String → Result TrustError (Option ℕ)
  truthy_id uuid none = ok none
  truthy_id uuid (some text) =
      if is_empty text
      then ok none
      else elim (uuid.parse text) [ none ↦ err invalid_uuid | some id ↦ ok (some id) ]

  abbrev pub of_result : {A : Type 0} → Result TrustError A → Action F A
  of_result (ok a) s = ok (a, s)
  of_result (err e) s = err e

  -- The number of the disputes is raised where there is a record; the penalty is left alone.
  unfoldable pub count_dispute : ℕ → TrustDb F → TrustDb F
  count_dispute agent db = elim (lookup agent db.records) [
    | none ↦ db
    | some r ↦ put_record agent (record r { dispute_count = r.dispute_count + 1 }) db
  ]

  abbrev pub with_dispute : ℕ → Dispute → TrustDb F → TrustDb F
  with_dispute id d db = record db { disputes = add_row id d db.disputes }

  unfoldable pub flag : Uuid → ℕ → ℕ → String → String → String → Option String → Action F Dispute
  unfolding count_dispute
  flag uuid now id reported_text reporter_text reason task_text = do
    raise_if (str_eq reported_text reporter_text) self_report
    reported ← or_raise (uuid.parse reported_text) invalid_uuid
    reporter ← or_raise (uuid.parse reporter_text) invalid_uuid
    task ← of_result (truthy_id uuid task_text)
    taken ← gets (λ db. lookup id db.disputes)
    raise_if (is_some taken || reported == reporter) integrity_error
    let row : Dispute = record {
      reported_agent_id = reported;
      reporter_agent_id = reporter;
      task_id = task;
      reason = reason;
      status = open_;
      resolution_notes = none;
      resolved_by = none;
      reviewed_at = none;
      verified = none;
      created_at = now;
    } in
        do
          modify (with_dispute id row)
          agent ← or_raise (parse_agent_id uuid reported_text) invalid_agent
          modify (count_dispute agent)
          pure row

  abbrev pub is_resolvable : DisputeStatus → Bool
  is_resolvable open_ = true
  is_resolvable under_review = true
  is_resolvable _ = false

  abbrev pub status_after : Verdict → Option DisputeStatus
  status_after Verdict.valid = some resolved_valid
  status_after Verdict.invalid = some resolved_invalid
  status_after Verdict.withdrawn = some DisputeStatus.withdrawn
  status_after Verdict.unknown = none

  abbrev pub verified_after : Verdict → Option Bool
  verified_after Verdict.valid = some true
  verified_after Verdict.invalid = some false
  verified_after _ = none

  -- `round(min(float(record.dispute_penalty) + 0.15, 1.0), 3)`
  abbrev pub penalized : Verdict → TrustRecord F → TrustRecord F
  penalized Verdict.valid r = record r {
    dispute_penalty = round3 (min_f f (add r.dispute_penalty (ratio 15 100)) (one_f f));
  }
  penalized _ r = r

  unfoldable pub judge : ℕ → Verdict → ℕ → TrustDb F → TrustDb F
  judge now v agent db = elim (lookup agent db.records) [
    | none ↦ db
    | some r ↦
        put_record agent
          (record (rescore f now components none (penalized v r)) { updated_at = now }) db
  ]

  abbrev pub put_dispute : ℕ → Dispute → TrustDb F → TrustDb F
  put_dispute id d db = record db { disputes = update id d db.disputes }

  abbrev pub resolved : ℕ → Verdict → DisputeStatus → Option String → Option ℕ → Dispute → Dispute
  resolved now v status notes operator d = record d {
    status = status;
    resolution_notes = notes;
    resolved_by = operator;
    reviewed_at = some now;
    verified = verified_after v;
  }

  unfoldable pub resolve_dispute :
      Uuid → ℕ → String → Verdict → Option String → Option ℕ → Action F Dispute
  unfolding judge
  resolve_dispute uuid now text v notes operator = do
    status ← or_raise (status_after v) unknown_verdict
    id ← or_raise (uuid.parse text) invalid_uuid
    found ← gets (λ db. lookup id db.disputes)
    d ← or_raise found dispute_not_found
    raise_if (not (is_resolvable d.status)) (cannot_resolve d.status)
    modify (put_dispute id (resolved now v status notes operator d))
    modify (judge now v d.reported_agent_id)
    pure (resolved now v status notes operator d)

  abbrev pub is_open : DisputeStatus → Bool
  is_open open_ = true
  is_open _ = false

  unfoldable pub mark_dispute_under_review : Uuid → String → Action F Dispute
  mark_dispute_under_review uuid text = do
    id ← or_raise (uuid.parse text) invalid_uuid
    found ← gets (λ db. lookup id db.disputes)
    d ← or_raise found dispute_not_found
    raise_if (not (is_open d.status)) (cannot_review d.status)
    modify (put_dispute id (record d { status = under_review }))
    pure (record d { status = under_review })
