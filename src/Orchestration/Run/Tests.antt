-- ===== src/Orchestration/Run/Tests.antt =====
-- Runs of a small workflow: the second and third step need the first, the fourth needs both.
use open_agent_net.Prelude.{
  ℕ, ◌≤◌, ◌<◌, ◌≡◌, refl, String, none, some, List, [], ◌∷◌, ◌⊎◌, inl, ◌==◌, ◌+◌, if◌then◌else◌,
  arith, keep,
}
use open_agent_net.Tasks.{TaskStatus}
use open_agent_net.Db.{ok, err, lookup, add_row, find_row}
use open_agent_net.Orchestration.Dag.{
  StepDef, DagError, collect, add_edges, first_undefined, check_defined, add_degrees, count_degrees,
  roots, relax, count_visited, visit, check_graph, validate_dag, gather, topological_order,
}
use open_agent_net.Orchestration.Dag.Building.{Named, Distinct}
use open_agent_net.Orchestration.Dag.Correct.{IsSchedule}
use open_agent_net.Orchestration.Dag.Validated.{validate_dag_sound, validate_dag_complete}
use open_agent_net.Orchestration.Engine.{
  WorkflowStatus, Workflow, Engine, Attempt, Observed, add_steps, create_workflow, choose_hosts,
  new_workflow,
}
use open_agent_net.Orchestration.Run.{exhausted, max_retries, try_step, run_workflow}
use open_agent_net.Orchestration.Run.Requests.{
  IsValid, Request, create, dispatch, step, run_all, run_all-IsValid, run_workflow_ends,
  empty_engine,
}
use open_agent_net.Identifiers.{is_empty}
use open_agent_net.Orchestration.Engine.{execute_step, poll, StepStatus, WorkflowTask}
use open_agent_net.Orchestration.Dag.{visit}
use open_agent_net.Db.{update}
use open_agent_net.Orchestration.Run.{
  run_claimed, run_workflow, run_steps, run_step, dispatch_step, deps_ok, dep_successful, node_map,
}
use open_agent_net.Orchestration.Run.Needs.{run_all_cascades}
use open_agent_net.Orchestration.Run.Attempts.{attempted, Raises, try_step_outcome}

abbrev def_of : ℕ → List ℕ → StepDef
def_of id deps = record {
  id = id;
  agent_capability = "sum";
  depends_on = deps;
  payload = "{}";
  constraints = "{}";
}

abbrev diamond : List StepDef
diamond = def_of 4 (2 ∷ 3 ∷ []) ∷ def_of 1 [] ∷ def_of 2 (1 ∷ []) ∷ def_of 3 (1 ∷ []) ∷ []

abbrev as_is : List ℕ → List ℕ
as_is xs = xs

diamond_order : topological_order diamond ≡ 1 ∷ 2 ∷ 3 ∷ 4 ∷ []
unfolding topological_order gather add_edges roots visit relax
diamond_order = refl

diamond_passes : validate_dag as_is diamond ≡ none
unfolding validate_dag collect add_edges check_graph check_defined first_undefined count_degrees
    add_degrees roots count_visited relax
diamond_passes = refl

loop_fails :
    validate_dag as_is (def_of 1 (2 ∷ []) ∷ def_of 2 (1 ∷ []) ∷ []) ≡ some DagError.has_cycle
unfolding validate_dag collect add_edges check_graph check_defined first_undefined count_degrees
    add_degrees roots count_visited relax
loop_fails = refl

validate_dag_sound_example :
    Named diamond × Distinct [] diamond × IsSchedule diamond (topological_order diamond)
validate_dag_sound_example = validate_dag_sound as_is (λ c xs. refl) diamond diamond_passes

abbrev pair : List StepDef
pair = def_of 2 (1 ∷ []) ∷ def_of 1 [] ∷ []

pair-IsSchedule : IsSchedule pair (1 ∷ 2 ∷ [])
pair-IsSchedule = record {
  each = λ c. omega arith;
  behind = (λ d h. ground arith, (λ d h. ground arith, tt));
}

validate_dag_complete_example : validate_dag as_is pair ≡ none
validate_dag_complete_example =
    validate_dag_complete as_is (λ c xs. refl) pair (ground arith, (ground arith, tt))
      (λ c. ground arith) (1 ∷ 2 ∷ []) pair-IsSchedule

abbrev answer : Observed
answer = record { status = TaskStatus.success; result = none; error_message = none }

abbrev refusal : Observed
refusal = record { status = TaskStatus.declined; result = none; error_message = some "busy" }

-- The third step is always declined; every other step is answered at the second attempt.
abbrev meets : ℕ → ℕ → Attempt
meets node i = record {
  message_id = 100 + i;
  hosts = 7 ∷ 8 ∷ [];
  send = λ e. ok e.message_id;
  polls = none ∷ some (if node == 3 then refusal else if i == 1 then answer else refusal) ∷ [];
}

abbrev created : Request
created = create (some 7) "flow" diamond "{}" 50 (λ i. 60 + i) 5

abbrev before : Engine
before = run_all as_is (created ∷ []) empty_engine

run_all-IsValid_example : IsValid (run_all as_is (created ∷ dispatch 9 meets 50 ∷ []) empty_engine)
run_all-IsValid_example = run_all-IsValid as_is (λ c xs. refl) (created ∷ dispatch 9 meets 50 ∷ [])

abbrev row : Workflow
row = new_workflow 7 "flow" diamond "{}" 5

before_has : lookup 50 before.workflows ≡ some row
unfolding run_all step create_workflow add_steps add_row find_row lookup validate_dag collect
    add_edges check_graph check_defined first_undefined count_degrees add_degrees roots
    count_visited relax
before_has = refl

run_workflow_ends_example :
    (s' : Engine) × (w' : Workflow) × (run_workflow 9 meets 50 before ≡ some s')
    × (lookup 50 s'.workflows ≡ some w')
    × ((w'.status ≡ WorkflowStatus.success)
        ⊎ (w'.status ≡ WorkflowStatus.partial)
        ⊎ (w'.status ≡ WorkflowStatus.failed))
    × (w'.completed_at ≡ some 9)
run_workflow_ends_example =
    run_workflow_ends 9 meets 50 row before (run_all-IsValid as_is (λ c xs. refl) (created ∷ []))
      before_has refl

try_step_outcome_example :
    ((k : ℕ) × (k ≤ 2)
      × (attempted row (def_of 3 (1 ∷ [])) (meets 3) k
          ≡ ok (try_step row (def_of 3 (1 ∷ [])) (meets 3) 0 max_retries none).0)
      × ((j : ℕ) → j < k → Raises row (def_of 3 (1 ∷ [])) (meets 3) j))
    ⊎ ((text : String) × (attempted row (def_of 3 (1 ∷ [])) (meets 3) 2 ≡ err text)
        × ((try_step row (def_of 3 (1 ∷ [])) (meets 3) 0 max_retries none).0 ≡ exhausted text)
        × ((j : ℕ) → j ≤ 2 → Raises row (def_of 3 (1 ∷ [])) (meets 3) j))
try_step_outcome_example = try_step_outcome row (def_of 3 (1 ∷ [])) (meets 3) none

abbrev after : Engine
after = run_all as_is (created ∷ dispatch 9 meets 50 ∷ []) empty_engine

second : (t : WorkflowTask) × (lookup 62 after.steps ≡ some t)
unfolding run_all step create_workflow add_steps add_row find_row lookup validate_dag collect
    add_edges check_graph check_defined first_undefined count_degrees add_degrees roots
    count_visited relax run_workflow run_claimed topological_order gather visit run_steps run_step
    dispatch_step deps_ok dep_successful node_map try_step execute_step choose_hosts keep poll
    update is_empty
second = (_, refl)

run_all_cascades_example :
    (j : ℕ) × (u : WorkflowTask) × (lookup j after.steps ≡ some u)
    × (u.workflow_id ≡ second.0.workflow_id)
    × (u.node_id ≡ 1)
    × ((u.status ≡ StepStatus.success) ⊎ (u.status ≡ StepStatus.partial))
unfolding second is_empty
run_all_cascades_example =
    run_all_cascades as_is (λ c xs. refl) (created ∷ dispatch 9 meets 50 ∷ []) 62 second.0 1
      second.1 (inl refl) (omega arith)
