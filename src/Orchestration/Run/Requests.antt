-- ===== src/Orchestration/Run/Requests.antt =====
-- The invariant of the workflows' tables, over any sequence of created and dispatched workflows.
use open_agent_net.Prelude.{
  ℕ, ◌<◌, ◌≡◌, refl, sym, String, Bool, true, false, ◌&&◌, Option, none, some, List, [], ◌∷◌, arith,
  ◌==◌, eq_of_==, length, inl, inr, ◌⊎◌, Option-cases, Bool-cases, ltb,
}
use open_agent_net.Prelude.Occurs.{occ}
use open_agent_net.Db.{
  ok, err, Result-cases, lookup, update, add_row, lookup-add_row, lookup-update,
}
use open_agent_net.Orchestration.Dag.{StepDef, validate_dag, topological_order}
use open_agent_net.Orchestration.Dag.Edges.{ids_of}
use open_agent_net.Orchestration.Dag.Correct.{IsSchedule, Rearranges}
use open_agent_net.Orchestration.Dag.Validated.{validate_dag_sound}
use open_agent_net.Orchestration.Engine.{
  WorkflowStatus, Workflow, WorkflowTask, Engine, Attempt, add_steps, create_workflow, new_workflow,
}
use open_agent_net.Orchestration.Run.{
  Run, is_done, is_over, is_pending, node_map, dispatch_step, run_step, run_steps, run_claimed,
  run_workflow, end_workflow, start_workflow,
}
use open_agent_net.Orchestration.Run.Cascade.{RunValid, run_steps-Ran}
use open_agent_net.Orchestration.Run.Created.{RowsValid, add_steps-Added}

abbrev pub is_success : WorkflowStatus → Bool
is_success WorkflowStatus.success = true
is_success _ = false

-- What the row of a step and the row of its workflow say of each other.
pub record Agrees (t : WorkflowTask) (w : Workflow) : Type 0 where
  pub planned : 0 < occ t.node_id (ids_of w.definition)
  pub fresh : is_pending w.status ≡ true → is_over t.status ≡ false
  pub ended : is_pending w.status ≡ false → is_over t.status ≡ true
  pub succeeded : is_success w.status ≡ true → is_done t.status ≡ true

-- A definition that can be ordered; a step that is done has only dependencies that are done; every
-- step belongs to a workflow and agrees with it: it is open while the workflow is pending and over
-- when the workflow is, and it is done where the workflow is a success.
pub record IsValid (s : Engine) : Type 0 where
  pub rows : RowsValid s.steps
  pub ordered :
      (wid : ℕ) (w : Workflow)
      → lookup wid s.workflows ≡ some w
      → IsSchedule w.definition (topological_order w.definition)
  pub agrees :
      (k : ℕ) (t : WorkflowTask)
      → lookup k s.steps ≡ some t
      → (w : Workflow) × (lookup t.workflow_id s.workflows ≡ some w) × Agrees t w

-- The state that `create_workflow` returns.
pub create_workflow-IsValid :
    (set_order : List ℕ → List ℕ)
    → Rearranges set_order
    → (owner : Option ℕ) (name : String) (ts : List StepDef) (context : String) (wid : ℕ)
      (draws : ℕ → ℕ) (now : ℕ) (s s' : Engine)
    → IsValid s
    → create_workflow set_order owner name ts context wid draws now s ≡ ok s'
    → IsValid s'
unfolding create_workflow
create_workflow-IsValid set_order sets none name ts context wid draws now s s' v h = absurd cc
create_workflow-IsValid set_order sets (some o) name [] context wid draws now s s' v h = absurd cc
create_workflow-IsValid set_order sets (some o) name (t ∷ ts) context wid draws now s s' v h =
    elim (Option-cases (validate_dag set_order (t ∷ ts))) [
      | inr (e, bad) ↦ absurd (ground arith)
      | inl good ↦ elim (Option-cases (add_steps wid (t ∷ ts) draws 0 s.steps)) [
        | inl taken ↦ absurd (ground arith)
        | inr (steps, e) ↦
            let w = new_workflow o name (t ∷ ts) context now in
            let free : lookup wid s.workflows ≡ none = ground arith in
            let is : s' ≡ record { workflows = add_row wid w s.workflows; steps = steps } =
              ground arith in
            let added = add_steps-Added wid (t ∷ ts) draws 0 s.steps steps v.rows e in
            rw is (record {
              rows = added.valid;
              ordered = λ x u f. elim (Bool-cases (wid == x)) [
                | inl same ↦
                    let it : u ≡ w = ground (arith, lookup-add_row wid x w s.workflows free) in
                    rw it (validate_dag_sound set_order sets (t ∷ ts) good).2
                | inr other ↦
                    v.ordered x u (ground (arith, lookup-add_row wid x w s.workflows free))
              ];
              agrees = λ k u f. elim (added.rows k u f) [
                | inl old ↦
                    let (x, q, a) = v.agrees k u old in
                    (x, ground (arith, lookup-add_row wid u.workflow_id w s.workflows free), a)
                | inr (mine, there, waits) ↦ (
                  w,
                  ground (arith, lookup-add_row wid u.workflow_id w s.workflows free),
                  record {
                    planned = there;
                    fresh = λ p. waits;
                    ended = λ p. absurd (ground arith);
                    succeeded = λ p. absurd (ground arith);
                  },
                )
              ];
            })
      ]
    ]

run_claimed-IsValid :
    (now : ℕ) (env : ℕ → ℕ → Attempt) (wid : ℕ) (w : Workflow) (s s' : Engine)
    → IsValid s
    → lookup wid s.workflows ≡ some w
    → is_pending w.status ≡ true
    → run_claimed now env wid (start_workflow now w) s ≡ some s'
    → IsValid s'
unfolding run_claimed
run_claimed-IsValid now env wid w s s' v f p h =
    elim (Option-cases
      (run_steps wid (start_workflow now w) env (topological_order w.definition) start)) [
        | inl stuck ↦ absurd (ground arith)
        | inr (r, e) ↦
            let ran =
              run_steps-Ran wid (start_workflow now w) env (topological_order w.definition) start r
                start-RunValid e in
            let total = length (topological_order w.definition) in
            let w' = end_workflow now total r.failed (start_workflow now w) in
            let is : s' ≡ record { workflows = update wid w' s.workflows; steps = r.steps } =
              ground arith in
            let keeps : w'.definition ≡ w.definition = ground arith in
            let row = λ (x : ℕ). lookup-update wid x w' s.workflows in
            rw is (record {
              rows = record {
                keyed = ran.valid.keyed;
                unique = ran.valid.unique;
                supported = ran.valid.supported;
              };
              ordered = λ x u q. elim (Bool-cases (wid == x)) [
                | inl same ↦
                    let it : u.definition ≡ w.definition = ground (arith, row x) in
                    rw it (v.ordered wid w f)
                | inr other ↦ v.ordered x u (ground (arith, row x))
              ];
              agrees = λ k t q.
                  let fr = ran.frame k t q in
                  let (u, g, a) = v.agrees k fr.row fr.was in
                  elim (Bool-cases (wid == t.workflow_id)) [
                    | inl same ↦
                        let mine : t.workflow_id ≡ wid = sym (eq_of_== wid t.workflow_id same) in
                        let planned : 0 < occ t.node_id (ids_of w.definition) =
                          ground (arith, a.planned, fr.same_node, fr.same_workflow) in
                        let over : is_over t.status ≡ true =
                          ran.over t.node_id k t (rw (← mine) (ran.valid.unique k t q))
                            (inl (omega (arith, planned, (v.ordered wid w f).each t.node_id))) in
                        (
                          w',
                          ground (arith, row t.workflow_id),
                          record {
                            planned = rw keeps planned;
                            fresh = λ b. absurd (ground arith);
                            ended = λ b. over;
                            succeeded = λ b.
                                ran.valid.complete (none_failed r.failed (ground arith)) k t q mine
                                  over;
                          },
                        )
                    | inr other ↦
                        let same : t ≡ fr.row =
                          fr.others (λ z. absurd (ground (arith, fr.same_workflow))) in
                        (u, ground (arith, row t.workflow_id), rw same a)
                  ];
            })
      ]
  where
    start : Run
    start = record { steps = s.steps; failed = [] }

    start-RunValid : RunValid wid start
    start-RunValid = record {
      keyed = v.rows.keyed;
      unique = v.rows.unique;
      supported = v.rows.supported;
      complete =
          λ e k t q mine over. let (u, g, a) = v.agrees k t q in absurd (ground (arith, a.fresh));
    }

    none_failed : (xs : List ℕ) → length xs ≡ 0 → xs ≡ []
    none_failed [] e = refl
    none_failed (x ∷ xs) e = absurd (omega arith)

-- The state that `_run_workflow` leaves.
pub run_workflow-IsValid :
    (now : ℕ) (env : ℕ → ℕ → Attempt) (wid : ℕ) (s s' : Engine)
    → IsValid s
    → run_workflow now env wid s ≡ some s'
    → IsValid s'
unfolding run_workflow
run_workflow-IsValid now env wid s s' v h = elim (Option-cases (lookup wid s.workflows)) [
  | inl absent ↦ (let same : s' ≡ s = ground arith in rw same v)
  | inr (w, f) ↦ elim (Bool-cases (is_pending w.status)) [
    | inr claimed ↦ (let same : s' ≡ s = ground arith in rw same v)
    | inl p ↦ run_claimed-IsValid now env wid w s s' v f p (ground arith)
  ]
]

-- No node of the order is missing in the definition.
node_map_finds :
    (ts : List StepDef) (n : ℕ) → 0 < occ n (ids_of ts) → (d : StepDef) × (node_map ts n ≡ some d)
unfolding node_map
node_map_finds [] n h = absurd (omega arith)
node_map_finds (t ∷ ts) n h = elim (Option-cases (node_map ts n)) [
  | inr (d, e) ↦ (d, ground arith)
  | inl absent ↦ elim (Bool-cases (t.id == n)) [
    | inl same ↦ (t, ground arith)
    | inr other ↦ (let r = node_map_finds ts n (ground arith) in absurd (ground (arith, r.1)))
  ]
]

run_step_returns :
    (wid : ℕ) (w : Workflow) (env : ℕ → ℕ → Attempt) (n : ℕ) (r : Run)
    → 0 < occ n (ids_of w.definition)
    → (r' : Run) × (run_step wid w env n r ≡ some r')
unfolding run_step dispatch_step
run_step_returns wid w env n r h = elim (Option-cases (run_step wid w env n r)) [
  | inr found ↦ found
  | inl stuck ↦ (let d = node_map_finds w.definition n h in absurd (ground (arith, d.1)))
]

run_steps_return :
    (wid : ℕ) (w : Workflow) (env : ℕ → ℕ → Attempt) (order : List ℕ) (r : Run)
    → ((n : ℕ) → 0 < occ n order → 0 < occ n (ids_of w.definition))
    → (r' : Run) × (run_steps wid w env order r ≡ some r')
unfolding run_steps
run_steps_return wid w env [] r h = (r, refl)
run_steps_return wid w env (n ∷ order) r h =
    let a = run_step_returns wid w env n r (h n (ground arith)) in
    let b = run_steps_return wid w env order a.0 (λ k q. h k (ground arith)) in
    (b.0, ground (arith, a.1, b.1))

-- When the tables satisfy the invariant, the dispatch of a workflow that is pending ends, and leaves
-- that workflow with the status success, partial or failed and with the time of its completion.
pub run_workflow_ends :
    (now : ℕ) (env : ℕ → ℕ → Attempt) (wid : ℕ) (w : Workflow) (s : Engine)
    → IsValid s
    → lookup wid s.workflows ≡ some w
    → w.status ≡ WorkflowStatus.pending
    → (s' : Engine) × (w' : Workflow) × (run_workflow now env wid s ≡ some s')
      × (lookup wid s'.workflows ≡ some w')
      × ((w'.status ≡ WorkflowStatus.success)
          ⊎ (w'.status ≡ WorkflowStatus.partial)
          ⊎ (w'.status ≡ WorkflowStatus.failed))
      × (w'.completed_at ≡ some now)
unfolding run_workflow run_claimed
run_workflow_ends now env wid w s v f p =
    let order = topological_order w.definition in
    let (r, e) =
      run_steps_return wid (start_workflow now w) env order
        (record { steps = s.steps; failed = [] })
        (λ n h. omega (arith, (v.ordered wid w f).each n)) in
    let w' = end_workflow now (length order) r.failed (start_workflow now w) in
    (
      record { workflows = update wid w' s.workflows; steps = r.steps },
      w',
      ground arith,
      ground (arith, lookup-update wid wid w' s.workflows),
      elim (Bool-cases (ltb 0 (length r.failed) && ltb (length r.failed) (length order))) [
        | inl some_failed ↦ inr (inl (ground arith))
        | inr not_some ↦ elim (Bool-cases (ltb 0 (length r.failed))) [
          | inl all_failed ↦ inr (inr (ground arith))
          | inr none_failed ↦ inl (ground arith)
        ]
      ],
      ground arith,
    )

-- A created or a dispatched workflow; a request that raises leaves the tables as they are.
pub data Request : Type 0 where
  create : Option ℕ → String → List StepDef → String → ℕ → (ℕ → ℕ) → ℕ → Request
  dispatch : ℕ → (ℕ → ℕ → Attempt) → ℕ → Request

unfoldable pub step : (List ℕ → List ℕ) → Request → Engine → Engine
step set_order (create owner name ts context wid draws now) s =
    elim (create_workflow set_order owner name ts context wid draws now s) [
      | ok s' ↦ s'
      | err e ↦ s
    ]
step set_order (dispatch now env wid) s = elim (run_workflow now env wid s) [
  | some s' ↦ s'
  | none ↦ s
]

unfoldable pub run_all : (List ℕ → List ℕ) → List Request → Engine → Engine
run_all set_order [] s = s
run_all set_order (q ∷ qs) s = run_all set_order qs (step set_order q s)

step-IsValid :
    (set_order : List ℕ → List ℕ)
    → Rearranges set_order
    → (q : Request) (s : Engine) → IsValid s
    → IsValid (step set_order q s)
unfolding step
step-IsValid set_order sets (create owner name ts context wid draws now) s v =
    elim (Result-cases (create_workflow set_order owner name ts context wid draws now s)) [
      | inl (e, bad) ↦
          let same : step set_order (create owner name ts context wid draws now) s ≡ s =
            ground arith in
          rw same v
      | inr (s', h) ↦
          let is : step set_order (create owner name ts context wid draws now) s ≡ s' =
            ground arith in
          rw is
            (create_workflow-IsValid set_order sets owner name ts context wid draws now s s' v h)
    ]
step-IsValid set_order sets (dispatch now env wid) s v =
    elim (Option-cases (run_workflow now env wid s)) [
      | inl stuck ↦
          let same : step set_order (dispatch now env wid) s ≡ s = ground arith in rw same v
      | inr (s', h) ↦
          let is : step set_order (dispatch now env wid) s ≡ s' = ground arith in
          rw is (run_workflow-IsValid now env wid s s' v h)
    ]

abbrev pub empty_engine : Engine
empty_engine = record { workflows = []; steps = [] }

empty-IsValid : IsValid empty_engine
unfolding lookup
empty-IsValid = record {
  rows = record { keyed = tt; unique = λ k t e. absurd cc; supported = λ k t e d. absurd cc };
  ordered = λ wid w e. absurd cc;
  agrees = λ k t e. absurd cc;
}

run_all-IsValid_from :
    (set_order : List ℕ → List ℕ)
    → Rearranges set_order
    → (qs : List Request) (s : Engine) → IsValid s
    → IsValid (run_all set_order qs s)
unfolding run_all
run_all-IsValid_from set_order sets [] s v = v
run_all-IsValid_from set_order sets (q ∷ qs) s v =
    run_all-IsValid_from set_order sets qs (step set_order q s) (step-IsValid set_order sets q s v)

-- Whatever workflows are created and dispatched from empty tables, and whatever their attempts meet,
-- in whatever order a set is iterated: every workflow's definition can be ordered, a step that is done
-- has only dependencies that are done, every step is open while its workflow is pending and over
-- once it is not, and every step of a workflow with the status success is done.
pub run_all-IsValid :
    (set_order : List ℕ → List ℕ)
    → Rearranges set_order
    → (qs : List Request) → IsValid (run_all set_order qs empty_engine)
run_all-IsValid set_order sets qs =
    run_all-IsValid_from set_order sets qs empty_engine empty-IsValid
