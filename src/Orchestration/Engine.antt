-- ===== src/Orchestration/Engine.antt =====
-- `OrchestrationService.create_workflow` and `_execute_step`
-- (backend/app/services/orchestration/service.py), on the tables of backend/app/models/workflow.py.
-- What the agents that can host a step, the messaging service and the polled task did in an attempt
-- is an argument. `send_message` commits the session; a failure of the database itself, after which
-- the engine's handler looks at what was committed, is not modelled.

use open_agent_net.Prelude.{
  ℕ, ◌+◌, String, Bool, true, false, not, ◌&&◌, Option, none, some, List, [], ◌∷◌, ltb, ◌==◌,
  if◌then◌else◌, length, is_some, keep,
}
use Prim.Native.String.{◌++◌ as concat}
use open_agent_net.Identifiers.{is_empty}
use open_agent_net.Tasks.{TaskStatus}
use open_agent_net.Db.{Result, ok, err, Table, lookup, add_row, find_row}
use open_agent_net.Orchestration.Dag.{StepDef, DagError, validate_dag}

pub data WorkflowStatus : Type 0 where
  pending running success partial failed cancelled : WorkflowStatus

pub data StepStatus : Type 0 where
  pending success partial failed : StepStatus

-- The dictionary that a step's attempt returns; a text that is absent is "".
pub record Outcome : Type 0 where
  pub error : String
  pub is_partial : Option Bool
  pub error_message : String
  pub retries_exhausted : Bool
  pub body : String

pub data StepResult : Type 0 where
  skipped : StepResult
  outcome : Outcome → StepResult

-- `workflow.result` and `workflow.error`
pub record Summary : Type 0 where
  pub completed : Option ℕ
  pub failed_steps : List ℕ

pub record Workflow : Type 0 where
  pub owner_agent_id : ℕ
  pub name : String
  pub status : WorkflowStatus
  pub definition : List StepDef
  pub context : String
  pub result : Option Summary
  pub error : Option Summary
  pub updated_at : ℕ
  pub completed_at : Option ℕ

pub record WorkflowTask : Type 0 where
  pub workflow_id : ℕ
  pub task_id : Option ℕ
  pub node_id : ℕ
  pub capability_name : String
  pub depends_on : List ℕ
  pub status : StepStatus
  pub result : Option StepResult

pub record Engine : Type 0 where
  pub workflows : Table Workflow
  pub steps : Table WorkflowTask

pub data WorkflowError : Type 0 where
  invalid_agent no_steps integrity_error : WorkflowError
  invalid_graph : DagError → WorkflowError

-- `db.add(workflow_task)` for every step; the columns (workflow_id, node_id) are unique.
abbrev pub is_step : ℕ → ℕ → WorkflowTask → Bool
is_step wid node t = t.workflow_id == wid && t.node_id == node

abbrev pub new_step : ℕ → StepDef → WorkflowTask
new_step wid def = record {
  workflow_id = wid;
  task_id = none;
  node_id = def.id;
  capability_name = def.agent_capability;
  depends_on = def.depends_on;
  status = StepStatus.pending;
  result = none;
}

-- `draws` are the drawn keys, `i` the number of those used.
unfoldable pub add_steps :
    ℕ → List StepDef → (ℕ → ℕ) → ℕ → Table WorkflowTask → Option (Table WorkflowTask)
add_steps wid [] draws i steps = some steps
add_steps wid (def ∷ defs) draws i steps =
    let rest = add_steps wid defs draws (i + 1) (add_row (draws i) (new_step wid def) steps) in
    if is_some (lookup (draws i) steps)
    then none
    else if is_some (find_row (is_step wid def.id) steps)
    then none
    else rest

abbrev pub new_workflow : ℕ → String → List StepDef → String → ℕ → Workflow
new_workflow owner name tasks context now = record {
  owner_agent_id = owner;
  name = name;
  status = WorkflowStatus.pending;
  definition = tasks;
  context = context;
  result = none;
  error = none;
  updated_at = now;
  completed_at = none;
}

-- `owner` is what `parse_agent_id` returned, `wid` and `draws` the drawn keys.
unfoldable pub create_workflow :
    (List ℕ → List ℕ)
    → Option ℕ
    → String
    → List StepDef
    → String
    → ℕ
    → (ℕ → ℕ)
    → ℕ
    → Engine
    → Result WorkflowError Engine
create_workflow set_order none name tasks context wid draws now s = err invalid_agent
create_workflow set_order (some owner) name [] context wid draws now s = err no_steps
create_workflow set_order (some owner) name (t ∷ ts) context wid draws now s =
    elim (validate_dag set_order (t ∷ ts)) [
      | some e ↦ err (invalid_graph e)
      | none ↦
          if is_some (lookup wid s.workflows)
          then err integrity_error
          else elim (add_steps wid (t ∷ ts) draws 0 s.steps) [
            | none ↦ err integrity_error
            | some steps ↦ ok (record {
              workflows = add_row wid (new_workflow owner name (t ∷ ts) context now) s.workflows;
              steps = steps;
            })
          ]
    ]

-- A polled task: its status, its result where that is a dictionary, and its error message.
pub record Observed : Type 0 where
  pub status : TaskStatus
  pub result : Option Outcome
  pub error_message : Option String

pub record Envelope : Type 0 where
  pub to_agent : ℕ
  pub task : String
  pub payload : String
  pub workflow_context : String
  pub workflow_node : ℕ
  pub constraints : String
  pub ttl_seconds : ℕ
  pub message_id : ℕ

-- What an attempt meets: its drawn message id, the hosts that the query returns, what `send_message`
-- does, and what the polls before the deadline read.
pub record Attempt : Type 0 where
  pub message_id : ℕ
  pub hosts : List ℕ
  pub send : Envelope → Result String ℕ
  pub polls : List (Option Observed)

-- `if len(hosts) > 1:` the owner is left out, unless nobody else is there.
unfoldable pub choose_hosts : ℕ → List ℕ → List ℕ
choose_hosts owner hosts =
    let others = keep (λ h. not (h == owner)) hosts in
    if ltb 1 (length hosts) && ltb 0 (length others) then others else hosts

abbrev pub empty_outcome : Outcome
empty_outcome = record {
  error = "";
  is_partial = none;
  error_message = "";
  retries_exhausted = false;
  body = "";
}

abbrev pub status_text : TaskStatus → String
status_text TaskStatus.pending = "pending"
status_text TaskStatus.acked = "acked"
status_text TaskStatus.running = "running"
status_text TaskStatus.success = "success"
status_text TaskStatus.partial = "partial"
status_text TaskStatus.failed = "failed"
status_text TaskStatus.declined = "declined"
status_text TaskStatus.cancelled = "cancelled"
status_text TaskStatus.timeout = "timeout"

abbrev pub result_of : Observed → Outcome
result_of o = elim (o.result) [ some r ↦ r | none ↦ empty_outcome ]

-- `t_result.get("error_message") or t_error or f"..."`
abbrev pub failure_text : Observed → String
failure_text o =
    if not (is_empty (result_of o).error_message)
    then (result_of o).error_message
    else elim (o.error_message) [
      | none ↦ concat "Step execution ended with status " (status_text o.status)
      | some text ↦
          if is_empty text
          then concat "Step execution ended with status " (status_text o.status)
          else text
    ]

-- `{"partial": True, **t_result}`
abbrev pub mark_partial : Outcome → Outcome
mark_partial r = record r { is_partial = some (elim (r.is_partial) [ some b ↦ b | none ↦ true ]) }

-- One poll of a task: none to go on, or what the attempt returns or raises.
abbrev pub settle : TaskStatus → Observed → Option (Result String Outcome)
settle TaskStatus.pending o = none
settle TaskStatus.acked o = none
settle TaskStatus.running o = none
settle TaskStatus.success o = some (ok (result_of o))
settle TaskStatus.partial o = some (ok (mark_partial (result_of o)))
settle _ o = some (err (failure_text o))

unfoldable pub poll : List (Option Observed) → Result String Outcome
poll [] = err "Step execution timed out"
poll (none ∷ rest) = poll rest
poll (some o ∷ rest) = elim (settle o.status o) [ some r ↦ r | none ↦ poll rest ]

abbrev pub envelope_of : Workflow → StepDef → ℕ → ℕ → Envelope
envelope_of w def host message_id = record {
  to_agent = host;
  task = def.agent_capability;
  payload = def.payload;
  workflow_context = w.context;
  workflow_node = def.id;
  constraints = def.constraints;
  ttl_seconds = 60;
  message_id = message_id;
}

-- What the attempt returned or raised, and the step's `task_id` after it.
unfoldable pub execute_step :
    Workflow → StepDef → Attempt → Option ℕ → Result String Outcome × Option ℕ
unfolding choose_hosts
execute_step w def a task_id = elim (choose_hosts w.owner_agent_id a.hosts) [
  | [] ↦ (err (concat "No active agent found for capability " def.agent_capability), task_id)
  | host ∷ _ ↦ elim (a.send (envelope_of w def host a.message_id)) [
    | err text ↦ (err text, task_id)
    | ok sent ↦ (poll a.polls, some sent)
  ]
]
