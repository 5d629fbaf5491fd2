-- ===== src/Messaging/Reports.antt =====
-- `report_task_result` (backend/app/api/v1/messages.py): a participant reports the outcome of a task,
-- and the trust service is told.
use open_agent_net.Prelude.{
  ℕ, ◌≡◌, ap, ◌∙◌, String, Bool, true, false, not, ◌||◌, Option, none, some, List, ◌==◌, str_eq,
  if◌then◌else◌, arith, inl, inr, Option-cases,
}
use open_agent_net.Identifiers.{Uuid, parse_agent_id}
use open_agent_net.Tasks.{Task, TaskStatus, TaskResult, is_success}
use open_agent_net.Db.{
  ok, Tx, pure, raise_if, gets, modify, or_raise, ◌>>=◌, ◌>>◌, lookup, lookup-update,
}
use open_agent_net.Trust.Numbers.{Float}
use open_agent_net.Trust.State.{TrustDb}
use open_agent_net.Trust.Score.{Component}
use open_agent_net.Trust.Service.{positive, record_outcome}
use open_agent_net.Workers.Passes.{put_task}
use open_agent_net.Workers.Rows.{record_outcome-tasks}
use open_agent_net.Workers.Outcomes.{counts, after_outcome, record_outcome-counts}

-- The body: its members, `none` where they are missing or, for the result, empty.
pub record ReportBody : Type 0 where
  pub status : Option String
  pub result : Option TaskResult
  pub error_code : Option (Option String)
  pub error_message : Option (Option String)
  pub execution_ms : Option ℕ

pub data ReportError : Type 0 where
  invalid_agent invalid_message task_not_found not_participant invalid_status : ReportError

-- The statuses that a report may have.
abbrev pub reported_status : Option String → Option TaskStatus
reported_status none = some TaskStatus.success
reported_status (some s) =
    if str_eq s "success"
    then some TaskStatus.success
    else if str_eq s "partial"
    then some TaskStatus.partial
    else if str_eq s "failed"
    then some TaskStatus.failed
    else if str_eq s "declined"
    then some TaskStatus.declined
    else none

abbrev pub given_or {ℓ} : {A : Type ℓ} → Option A → A → A
given_or none old = old
given_or (some a) old = a

abbrev pub kept_or {ℓ} : {A : Type ℓ} → Option A → Option A → Option A
kept_or none old = old
kept_or (some a) old = some a

abbrev pub is_failed : TaskStatus → Bool
is_failed TaskStatus.failed = true
is_failed _ = false

abbrev pub with_report : ℕ → TaskStatus → ReportBody → Task → Task
with_report now status b t = record t {
  status = status;
  result = kept_or b.result t.result;
  error_code = if is_failed status then given_or b.error_code t.error_code else t.error_code;
  error_message =
      if is_failed status then given_or b.error_message t.error_message else t.error_message;
  execution_ms = kept_or (positive b.execution_ms) t.execution_ms;
  completed_at = some now;
}

module _ (f : Float) (components : List (Component f.F)) (uuid : Uuid) where
  open f use {F}

  unfoldable pub report_task_result :
      ℕ → String → ReportBody → String → Tx (TrustDb F) ReportError Task
  report_task_result now message b spelled = do
    reporter ← or_raise (parse_agent_id uuid spelled) invalid_agent
    id ← or_raise (uuid.parse message) invalid_message
    found ← gets (λ db. lookup id db.tasks)
    t ← or_raise found task_not_found
    raise_if (not (t.from_agent_id == reporter || t.to_agent_id == reporter)) not_participant
    status ← or_raise (reported_status b.status) invalid_status
    let t' = with_report now status b t in
        do
          modify (put_task f components id t')
          modify (record_outcome f components now id (is_success status) t'.execution_ms)
          pure t'

  -- A report is accepted only from one of the two parties of the task. Its row then has the reported
  -- status, and the trust service has counted one more task for the recipient, one more success where
  -- the status is success, and nothing for anyone else.
  pub report_counts :
      (now : ℕ) (message : String) (b : ReportBody) (spelled : String) (k : ℕ) (db : TrustDb F)
      (x : Task × TrustDb F)
      → report_task_result now message b spelled db ≡ ok x
      → (reporter id : ℕ) × (t : Task) × (parse_agent_id uuid spelled ≡ some reporter)
        × (lookup id db.tasks ≡ some t)
        × ((t.from_agent_id == reporter || t.to_agent_id == reporter) ≡ true)
        × (lookup id x.1.tasks ≡ some x.0)
        × (reported_status b.status ≡ some x.0.status)
        × (counts f components k x.1
            ≡ after_outcome f components
                (is_success x.0.status)
                (t.to_agent_id == k)
                (counts f components k db))
  unfolding report_task_result
  report_counts now message b spelled k db x h = elim (Option-cases (parse_agent_id uuid spelled)) [
    | inl bad ↦ absurd (ground arith)
    | inr (reporter, parsed) ↦ elim (Option-cases (uuid.parse message)) [
      | inl bad ↦ absurd (ground arith)
      | inr (id, named) ↦ elim (Option-cases (lookup id db.tasks)) [
        | inl missing ↦ absurd (ground arith)
        | inr (t, there) ↦ elim (Option-cases (reported_status b.status)) [
          | inl unknown ↦ absurd (ground arith)
          | inr (status, read) ↦
              let t' = with_report now status b t in
              let mid = put_task f components id t' db in
              let end =
                record_outcome f components now id (is_success status) t'.execution_ms mid in
              let stored : lookup id mid.tasks ≡ some t' =
                ground (arith, lookup-update id id t' db.tasks) in
              let is : x ≡ (t', end) = ground arith in
              rw is (
                reporter,
                id,
                t,
                parsed,
                there,
                ground arith,
                ap (lookup id) (
                      record_outcome-tasks f components now id (is_success status) t'.execution_ms
                        mid)
                    ∙ stored,
                read,
                record_outcome-counts f components now id k t' (is_success status) t'.execution_ms
                    mid stored,
              )
        ]
      ]
    ]
  ]
