-- ===== src/Orchestration/Run/Needs.antt =====
-- A step that is done has only dependencies that are done, read off the rows.
use open_agent_net.Prelude.{
  ℕ, ◌<◌, ◌≡◌, refl, true, some, List, [], ◌∷◌, arith, ◌==◌, eq_of_==, inl, inr, ◌⊎◌, Option-cases,
  Bool-cases,
}
use open_agent_net.Prelude.Occurs.{occ}
use open_agent_net.Db.{Table, lookup, find_row, find_row_fits, find_row-lookup}
use open_agent_net.Orchestration.Dag.Correct.{Rearranges}
use open_agent_net.Orchestration.Engine.{StepStatus, WorkflowTask, is_step}
use open_agent_net.Orchestration.Run.{is_done, dep_successful, deps_ok}
use open_agent_net.Orchestration.Run.Requests.{Request, run_all, run_all-IsValid, empty_engine}

is_done-cases :
    (s : StepStatus) → is_done s ≡ true → (s ≡ StepStatus.success) ⊎ (s ≡ StepStatus.partial)
is_done-cases StepStatus.success h = inl refl
is_done-cases StepStatus.partial h = inr refl
is_done-cases StepStatus.pending h = absurd cc
is_done-cases StepStatus.failed h = absurd cc

deps_ok-dep :
    (wid : ℕ) (steps : Table WorkflowTask) (deps : List ℕ) (d : ℕ)
    → deps_ok wid steps deps ≡ true
    → 0 < occ d deps
    → dep_successful wid steps d ≡ true
unfolding deps_ok
deps_ok-dep wid steps [] d h k = absurd (omega arith)
deps_ok-dep wid steps (e ∷ deps) d h k = elim (Bool-cases (e == d)) [
  | inl same ↦ (let it : e ≡ d = eq_of_== e d same in rw (← it) (ground arith))
  | inr other ↦ deps_ok-dep wid steps deps d (ground arith) (ground arith)
]

-- Whatever workflows are created and dispatched from empty tables: for a step with the status success
-- or partial and any step that it depends on, the same workflow has a row of that step, and its status
-- is success or partial too.
pub run_all_cascades :
    (set_order : List ℕ → List ℕ)
    → Rearranges set_order
    → (qs : List Request) (k : ℕ) (t : WorkflowTask) (d : ℕ)
    → lookup k (run_all set_order qs empty_engine).steps ≡ some t
    → (t.status ≡ StepStatus.success) ⊎ (t.status ≡ StepStatus.partial)
    → 0 < occ d t.depends_on
    → (j : ℕ) × (u : WorkflowTask) × (lookup j (run_all set_order qs empty_engine).steps ≡ some u)
      × (u.workflow_id ≡ t.workflow_id)
      × (u.node_id ≡ d)
      × ((u.status ≡ StepStatus.success) ⊎ (u.status ≡ StepStatus.partial))
unfolding dep_successful
run_all_cascades set_order sets qs k t d e s h =
    let steps = (run_all set_order qs empty_engine).steps in
    let v = (run_all-IsValid set_order sets qs).rows in
    let ok_dep =
      deps_ok-dep t.workflow_id steps t.depends_on d
        (v.supported k t e (elim s [ inl a ↦ rw a | inr a ↦ rw a ])) h in
    elim (Option-cases (find_row (is_step t.workflow_id d) steps)) [
      | inl absent ↦ absurd (ground arith)
      | inr ((j, u), f) ↦
          let fits = find_row_fits (is_step t.workflow_id d) steps (j, u) f in
          (
            j,
            u,
            find_row-lookup (is_step t.workflow_id d) j u steps v.keyed f,
            ground arith,
            ground arith,
            is_done-cases u.status (ground arith),
          )
    ]
