-- ===== src/Orchestration/Run.antt =====
-- The dispatch engine, `OrchestrationService._run_workflow`
-- (backend/app/services/orchestration/service.py). The steps run in the order that
-- `topological_order` gives; the environment says what each attempt of each step meets.
pub mod Steps
pub mod Cascade
pub mod Created
pub mod Requests
pub mod Needs
pub mod Attempts
mod Tests
use open_agent_net.Prelude.{
  ℕ, zero, suc, ◌+◌, ◌-◌, String, Bool, true, false, not, ◌&&◌, Option, none, some, List, [], ◌∷◌,
  ◌++◌, ltb, ◌==◌, if◌then◌else◌, length, is_some,
}
use open_agent_net.Identifiers.{is_empty}
use open_agent_net.Db.{Result, ok, err, Table, lookup, update, find_row}
use open_agent_net.Orchestration.Dag.{StepDef, topological_order}
use open_agent_net.Orchestration.Engine.{
  WorkflowStatus, StepStatus, Outcome, StepResult, Summary, Workflow, WorkflowTask, Engine, Attempt,
  is_step, empty_outcome, execute_step,
}

-- `{"error": str(exc), "retries_exhausted": True}`
abbrev pub exhausted : String → Outcome
exhausted text = record empty_outcome { error = text; retries_exhausted = true }

abbrev pub max_retries : ℕ
max_retries = 2

-- The `while attempt <= MAX_RETRIES` loop: `left` retries are left after this attempt.
unfoldable pub try_step : Workflow → StepDef → (ℕ → Attempt) → ℕ → ℕ → Option ℕ → Outcome × Option ℕ
try_step w def attempts attempt zero task_id =
    let (r, sent) = execute_step w def (attempts attempt) task_id in
    elim r [ ok o ↦ (o, sent) | err text ↦ (exhausted text, sent) ]
try_step w def attempts attempt (suc left) task_id =
    let (r, sent) = execute_step w def (attempts attempt) task_id in
    let again = try_step w def attempts (attempt + 1) left sent in
    elim r [ ok o ↦ (o, sent) | err text ↦ again ]

-- `{t["id"]: t for t in tasks}`: the last step with the id.
unfoldable pub node_map : List StepDef → ℕ → Option StepDef
node_map [] node = none
node_map (t ∷ ts) node = elim (node_map ts node) [
  | some d ↦ some d
  | none ↦ if t.id == node then some t else none
]

-- `_dep_successful`
abbrev pub is_done : StepStatus → Bool
is_done StepStatus.success = true
is_done StepStatus.partial = true
is_done _ = false

abbrev pub is_over : StepStatus → Bool
is_over StepStatus.pending = false
is_over _ = true

unfoldable pub dep_successful : ℕ → Table WorkflowTask → ℕ → Bool
dep_successful wid steps dep = elim (find_row (is_step wid dep) steps) [
  | none ↦ false
  | some (key, t) ↦ is_done t.status
]

unfoldable pub deps_ok : ℕ → Table WorkflowTask → List ℕ → Bool
unfolding dep_successful
deps_ok wid steps [] = true
deps_ok wid steps (dep ∷ deps) = dep_successful wid steps dep && deps_ok wid steps deps

-- The status that the outcome gives the step.
abbrev pub status_of : Outcome → StepStatus
status_of o =
    if not (is_empty o.error)
    then StepStatus.failed
    else elim (o.is_partial) [ some true ↦ StepStatus.partial | _ ↦ StepStatus.success ]

abbrev pub skip_step : WorkflowTask → WorkflowTask
skip_step t = record t { status = StepStatus.failed; result = some StepResult.skipped }

abbrev pub end_step : WorkflowTask → Outcome × Option ℕ → WorkflowTask
end_step t (o, sent) = record t {
  task_id = sent;
  status = status_of o;
  result = some (StepResult.outcome o);
}

-- The steps' rows, and `failed_steps`.
pub record Run : Type 0 where
  pub steps : Table WorkflowTask
  pub failed : List ℕ

abbrev pub put_step : ℕ → ℕ → WorkflowTask → Run → Run
put_step node key t r = record {
  steps = update key t r.steps;
  failed = elim (t.status) [ StepStatus.failed ↦ r.failed ++ node ∷ [] | _ ↦ r.failed ];
}

-- A step that has been found and is not over. `none` is the `KeyError` of `node_map[node_id]`.
unfoldable pub dispatch_step :
    ℕ → Workflow → (ℕ → ℕ → Attempt) → ℕ → ℕ → WorkflowTask → Run → Option Run
unfolding deps_ok node_map
dispatch_step wid w env node key t r =
    if deps_ok wid r.steps t.depends_on
    then elim (node_map w.definition node) [
      | none ↦ none
      | some def ↦
          some
            (put_step node key (end_step t (try_step w def (env node) 0 max_retries t.task_id)) r)
    ]
    else some (put_step node key (skip_step t) r)

-- The body of the loop over `order`.
unfoldable pub run_step : ℕ → Workflow → (ℕ → ℕ → Attempt) → ℕ → Run → Option Run
run_step wid w env node r = elim (find_row (is_step wid node) r.steps) [
  | none ↦ some r
  | some (key, t) ↦ if is_over t.status then some r else dispatch_step wid w env node key t r
]

unfoldable pub run_steps : ℕ → Workflow → (ℕ → ℕ → Attempt) → List ℕ → Run → Option Run
run_steps wid w env [] r = some r
run_steps wid w env (node ∷ order) r = elim (run_step wid w env node r) [
  | none ↦ none
  | some r' ↦ run_steps wid w env order r'
]

-- The aggregation at the end.
abbrev pub end_workflow : ℕ → ℕ → List ℕ → Workflow → Workflow
end_workflow now total failed w =
    let ended = record w { updated_at = now; completed_at = some now } in
    let n = length failed in
    if ltb 0 n && ltb n total
    then record ended {
      status = WorkflowStatus.partial;
      result = some (record { completed = some (total - n); failed_steps = failed });
    }
    else if ltb 0 n
    then record ended {
      status = WorkflowStatus.failed;
      error = some (record { completed = none; failed_steps = failed });
    }
    else record ended {
      status = WorkflowStatus.success;
      result = some (record { completed = some total; failed_steps = [] });
    }

abbrev pub is_pending : WorkflowStatus → Bool
is_pending WorkflowStatus.pending = true
is_pending _ = false

abbrev pub start_workflow : ℕ → Workflow → Workflow
start_workflow now w = record w { status = WorkflowStatus.running; updated_at = now }

-- The run of a workflow that has been claimed.
unfoldable pub run_claimed : ℕ → (ℕ → ℕ → Attempt) → ℕ → Workflow → Engine → Option Engine
run_claimed now env wid w s =
    let order = topological_order w.definition in
    elim (run_steps wid w env order (record { steps = s.steps; failed = [] })) [
      | none ↦ none
      | some r ↦ some (record {
        workflows = update wid (end_workflow now (length order) r.failed w) s.workflows;
        steps = r.steps;
      })
    ]

unfoldable pub run_workflow : ℕ → (ℕ → ℕ → Attempt) → ℕ → Engine → Option Engine
run_workflow now env wid s = elim (lookup wid s.workflows) [
  | none ↦ some s
  | some w ↦
      if is_pending w.status then run_claimed now env wid (start_workflow now w) s else some s
]
