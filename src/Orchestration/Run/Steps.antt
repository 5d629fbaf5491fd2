-- ===== src/Orchestration/Run/Steps.antt =====
-- What one round of the engine's loop does to the rows of the steps.
use open_agent_net.Prelude.{
  ℕ, ◌≡◌, refl, true, false, some, arith, inl, inr, ◌⊎◌, Option-cases, Bool-cases,
}
use open_agent_net.Db.{find_row}
use open_agent_net.Orchestration.Engine.{Workflow, WorkflowTask, Attempt, is_step}
use open_agent_net.Orchestration.Run.{
  Run, is_done, is_over, deps_ok, put_step, dispatch_step, run_step, node_map, try_step, skip_step,
  end_step,
}

-- A step that was found and not over has been ended, as done only after its dependencies were.
pub record Put (wid node : ℕ) (r r' : Run) : Type 0 where
  pub key : ℕ
  pub before : WorkflowTask
  pub after : WorkflowTask
  pub found : find_row (is_step wid node) r.steps ≡ some (key, before)
  pub unended : is_over before.status ≡ false
  pub is : r' ≡ put_step node key after r
  pub over : is_over after.status ≡ true
  pub same_workflow : after.workflow_id ≡ before.workflow_id
  pub same_node : after.node_id ≡ before.node_id
  pub same_deps : after.depends_on ≡ before.depends_on
  pub allowed : is_done after.status ≡ true → deps_ok wid r.steps before.depends_on ≡ true

dispatch_step-Put :
    (wid : ℕ) (w : Workflow) (env : ℕ → ℕ → Attempt) (node key : ℕ) (t : WorkflowTask) (r r' : Run)
    → find_row (is_step wid node) r.steps ≡ some (key, t)
    → is_over t.status ≡ false
    → dispatch_step wid w env node key t r ≡ some r'
    → Put wid node r r'
unfolding dispatch_step
dispatch_step-Put wid w env node key t r r' found unended h =
    elim (Bool-cases (deps_ok wid r.steps t.depends_on)) [
      | inr missing ↦ record {
        key = key;
        before = t;
        after = skip_step t;
        found = found;
        unended = unended;
        is = ground arith;
        over = refl;
        same_workflow = refl;
        same_node = refl;
        same_deps = refl;
        allowed = λ d. absurd cc;
      }
      | inl there ↦ elim (Option-cases (node_map w.definition node)) [
        | inl unknown ↦ absurd (ground arith)
        | inr (def, e) ↦
            let o = try_step w def (env node) 0 2 t.task_id in
            record {
              key = key;
              before = t;
              after = end_step t o;
              found = found;
              unended = unended;
              is = ground arith;
              over = ground arith;
              same_workflow = refl;
              same_node = refl;
              same_deps = refl;
              allowed = λ d. there;
            }
      ]
    ]

-- Either the round changed nothing, and any step found was over, or it ended a step.
pub run_step-cases :
    (wid : ℕ) (w : Workflow) (env : ℕ → ℕ → Attempt) (node : ℕ) (r r' : Run)
    → run_step wid w env node r ≡ some r'
    → ((r' ≡ r)
        × ((k : ℕ) (t : WorkflowTask)
            → find_row (is_step wid node) r.steps ≡ some (k, t)
            → is_over t.status ≡ true))
      ⊎ Put wid node r r'
unfolding run_step
run_step-cases wid w env node r r' h = elim (Option-cases (find_row (is_step wid node) r.steps)) [
  | inl absent ↦ inl (ground arith, λ k t e. absurd cc)
  | inr ((key, t), found) ↦ elim (Bool-cases (is_over t.status)) [
    | inl over ↦ inl (ground arith, λ k u e. ground arith)
    | inr unended ↦ inr (dispatch_step-Put wid w env node key t r r' found unended (ground arith))
  ]
]
