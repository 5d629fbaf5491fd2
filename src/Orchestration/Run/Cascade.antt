-- ===== src/Orchestration/Run/Cascade.antt =====
-- The invariant of the engine's loop: a step is done only where its dependencies are.
use open_agent_net.Prelude.{
  ℕ, ◌<◌, ◌≡◌, ◌≢◌, refl, sym, ◌∙◌, ltb, ltb→lt, true, none, some, List, [], ◌∷◌, ◌++◌, arith, ◌==◌,
  if◌then◌else◌, length-append, inl, inr, ◌⊎◌, Option-cases, Bool-cases,
}
use open_agent_net.Prelude.Occurs.{occ}
use open_agent_net.Db.{
  lookup, update, find_row, lookup-update, KeysDiffer, KeysDiffer-update, find_row-lookup,
  find_row-update, find_row_fits,
}
use open_agent_net.Orchestration.Engine.{Workflow, WorkflowTask, Attempt, is_step}
use open_agent_net.Orchestration.Run.{
  Run, is_done, is_over, dep_successful, deps_ok, run_step, run_steps,
}
use open_agent_net.Orchestration.Run.Steps.{Put, run_step-cases}

pub record RunValid (wid : ℕ) (r : Run) : Type 0 where
  pub keyed : KeysDiffer r.steps
  pub unique :
      (k : ℕ) (t : WorkflowTask)
      → lookup k r.steps ≡ some t
      → find_row (is_step t.workflow_id t.node_id) r.steps ≡ some (k, t)
  pub supported :
      (k : ℕ) (t : WorkflowTask)
      → lookup k r.steps ≡ some t
      → is_done t.status ≡ true
      → deps_ok t.workflow_id r.steps t.depends_on ≡ true
  pub complete :
      r.failed ≡ []
      → (k : ℕ) (t : WorkflowTask) → lookup k r.steps ≡ some t
      → t.workflow_id ≡ wid
      → is_over t.status ≡ true
      → is_done t.status ≡ true

eq_of_occ : (n node : ℕ) → 0 < occ n (node ∷ []) → n ≡ node
eq_of_occ n node h = ground arith

-- Every row after the loop comes from a row before it; those of other workflows have not changed.
pub record Frame (wid : ℕ) (r r' : Run) (k : ℕ) (t' : WorkflowTask) : Type 0 where
  pub row : WorkflowTask
  pub was : lookup k r.steps ≡ some row
  pub same_workflow : t'.workflow_id ≡ row.workflow_id
  pub same_node : t'.node_id ≡ row.node_id
  pub others : row.workflow_id ≢ wid → t' ≡ row

List-nil : (xs ys : List ℕ) → xs ++ ys ≡ [] → xs ≡ []
List-nil [] ys h = refl
List-nil (x ∷ xs) ys h = cc

module _ (wid node : ℕ) (r r' : Run) (keyed : KeysDiffer r.steps) (p : Put wid node r r') where
  was : lookup p.key r.steps ≡ some p.before
  was = find_row-lookup (is_step wid node) p.key p.before r.steps keyed p.found

  fits : is_step wid node p.before ≡ true
  fits = find_row_fits (is_step wid node) r.steps (p.key, p.before) p.found

  steps_are : r'.steps ≡ update p.key p.after r.steps
  steps_are = ground (arith, p.is)

  found_after :
      (w n : ℕ)
      → find_row (is_step w n) r'.steps ≡ elim (find_row (is_step w n) r.steps) [
        | none ↦ none
        | some (j, u) ↦ some (j, if j == p.key then p.after else u)
      ]
  found_after w n = rw steps_are (
      find_row-update (is_step w n) p.key p.before p.after r.steps keyed was
        (ground (arith, p.same_workflow, p.same_node)))

  row_after : (k : ℕ) → lookup k r'.steps ≡ (if p.key == k then some p.after else lookup k r.steps)
  row_after k = rw steps_are (ground (arith, lookup-update p.key k p.after r.steps, was))

  -- A dependency that is done stays done.
  dep_stays : (w d : ℕ) → dep_successful w r.steps d ≡ true → dep_successful w r'.steps d ≡ true
  unfolding dep_successful
  dep_stays w d h = elim (Option-cases (find_row (is_step w d) r.steps)) [
    | inl absent ↦ absurd (ground arith)
    | inr ((j, u), e) ↦
        ground (
          arith,
          found_after w d,
          find_row-lookup (is_step w d) j u r.steps keyed e,
          was,
          p.unended,
        )
  ]

  deps_stay : (w : ℕ) (ds : List ℕ) → deps_ok w r.steps ds ≡ true → deps_ok w r'.steps ds ≡ true
  unfolding deps_ok
  deps_stay w [] h = refl
  deps_stay w (d ∷ ds) h = ground (arith, dep_stays w d, deps_stay w ds)

  Put-Frame : (k : ℕ) (t : WorkflowTask) → lookup k r'.steps ≡ some t → Frame wid r r' k t
  Put-Frame k t e = elim (Bool-cases (p.key == k)) [
    | inl same ↦ record {
      row = p.before;
      was = ground (arith, was);
      same_workflow = ground (arith, row_after k, p.same_workflow);
      same_node = ground (arith, row_after k, p.same_node);
      others = λ h. absurd (ground (arith, fits));
    }
    | inr other ↦ record {
      row = t;
      was = ground (arith, row_after k);
      same_workflow = refl;
      same_node = refl;
      others = λ h. refl;
    }
  ]

  Put-RunValid : RunValid wid r → RunValid wid r'
  Put-RunValid v = record {
    keyed = rw steps_are (KeysDiffer-update p.key p.after r.steps keyed);
    unique = λ k t e. ground (
      arith,
      row_after k,
      found_after t.workflow_id t.node_id,
      v.unique k t,
      v.unique p.key p.before,
      was,
      p.same_workflow,
      p.same_node,
    );
    supported = λ k t e d. elim (Bool-cases (p.key == k)) [
      | inl same ↦ ground (
        arith,
        row_after k,
        p.allowed,
        p.same_deps,
        p.same_workflow,
        fits,
        deps_stay wid p.before.depends_on,
      )
      | inr other ↦
          deps_stay t.workflow_id t.depends_on (v.supported k t (ground (arith, row_after k)) d)
    ];
    complete = λ none_failed k t e w o. elim (Bool-cases (p.key == k)) [
      | inl same ↦ after_done none_failed k t e same
      | inr other ↦ v.complete (failed_before none_failed) k t (ground (arith, row_after k)) w o
    ];
  }
    where
      failed_before : r'.failed ≡ [] → r.failed ≡ []
      failed_before h = ground (arith, p.is, List-nil r.failed (node ∷ []))

      after_done :
          r'.failed ≡ []
          → (k : ℕ) (t : WorkflowTask) → lookup k r'.steps ≡ some t
          → (p.key == k) ≡ true
          → is_done t.status ≡ true
      after_done h k t e same =
          ground (arith, p.is, row_after k, p.over, length-append r.failed (node ∷ []))

  Put-over :
      (n k : ℕ) (t : WorkflowTask)
      → find_row (is_step wid n) r'.steps ≡ some (k, t)
      → (n ≡ node)
        ⊎ ((j : ℕ) (u : WorkflowTask)
            → find_row (is_step wid n) r.steps ≡ some (j, u)
            → is_over u.status ≡ true)
      → is_over t.status ≡ true
  Put-over n k t e (inl same) = ground (arith, found_after wid n, p.found, p.over)
  Put-over n k t e (inr before) = elim (Option-cases (find_row (is_step wid n) r.steps)) [
    | inl absent ↦ absurd (ground (arith, found_after wid n))
    | inr ((j, u), q) ↦ ground (arith, found_after wid n, before j u, p.over)
  ]

-- What holds of the rows before and after the loop, or a part of it.
pub record Ran (wid : ℕ) (order : List ℕ) (r r' : Run) : Type 0 where
  pub valid : RunValid wid r'
  pub frame : (k : ℕ) (t : WorkflowTask) → lookup k r'.steps ≡ some t → Frame wid r r' k t
  pub over :
      (n k : ℕ) (t : WorkflowTask)
      → find_row (is_step wid n) r'.steps ≡ some (k, t)
      → (0 < occ n order)
        ⊎ ((j : ℕ) (u : WorkflowTask)
            → find_row (is_step wid n) r.steps ≡ some (j, u)
            → is_over u.status ≡ true)
      → is_over t.status ≡ true

Frame-trans :
    (wid : ℕ) (r s u : Run)
    → ((k : ℕ) (t : WorkflowTask) → lookup k s.steps ≡ some t → Frame wid r s k t)
    → ((k : ℕ) (t : WorkflowTask) → lookup k u.steps ≡ some t → Frame wid s u k t)
    → (k : ℕ) (t : WorkflowTask) → lookup k u.steps ≡ some t
    → Frame wid r u k t
Frame-trans wid r s u f g k t e =
    let b = g k t e in
    let a = f k b.row b.was in
    record {
      row = a.row;
      was = a.was;
      same_workflow = b.same_workflow ∙ a.same_workflow;
      same_node = b.same_node ∙ a.same_node;
      others = λ h. b.others (λ q. h (sym a.same_workflow ∙ q)) ∙ a.others h;
    }

abbrev same_row :
    (wid : ℕ) (r : Run) (k : ℕ) (t : WorkflowTask) → lookup k r.steps ≡ some t → Frame wid r r k t
same_row wid r k t e = record {
  row = t;
  was = e;
  same_workflow = refl;
  same_node = refl;
  others = λ h. refl;
}

run_step-Ran :
    (wid : ℕ) (w : Workflow) (env : ℕ → ℕ → Attempt) (node : ℕ) (r r' : Run)
    → RunValid wid r
    → run_step wid w env node r ≡ some r'
    → Ran wid (node ∷ []) r r'
run_step-Ran wid w env node r r' v h = elim (run_step-cases wid w env node r r' h) [
  | inl (same, settled) ↦ rw same (record {
    valid = v;
    frame = same_row wid r;
    over = λ n k t e c. elim c [
      | inl now ↦ settled k t (rw (← eq_of_occ n node now) e)
      | inr before ↦ before k t e
    ];
  })
  | inr p ↦ record {
    valid = Put-RunValid wid node r r' v.keyed p v;
    frame = Put-Frame wid node r r' v.keyed p;
    over = λ n k t e c.
        Put-over wid node r r' v.keyed p n k t e
          (elim c [ inl now ↦ inl (eq_of_occ n node now) | inr before ↦ inr before ]);
  }
]

-- The loop over the order.
pub run_steps-Ran :
    (wid : ℕ) (w : Workflow) (env : ℕ → ℕ → Attempt) (order : List ℕ) (r r' : Run)
    → RunValid wid r
    → run_steps wid w env order r ≡ some r'
    → Ran wid order r r'
unfolding run_steps
run_steps-Ran wid w env [] r r' v h =
    let same : r' ≡ r = ground arith in
    rw same (record {
      valid = v;
      frame = same_row wid r;
      over = λ n k t e c. elim c [ inl now ↦ absurd (omega arith) | inr before ↦ before k t e ];
    })
run_steps-Ran wid w env (node ∷ order) r r' v h = elim (Option-cases (run_step wid w env node r)) [
  | inl stuck ↦ absurd (ground arith)
  | inr (s, e) ↦
      let a = run_step-Ran wid w env node r s v e in
      let b = run_steps-Ran wid w env order s r' a.valid (ground arith) in
      record {
        valid = b.valid;
        frame = Frame-trans wid r s r' a.frame b.frame;
        over = λ n k t f c. b.over n k t f (elim (Bool-cases (ltb 0 (occ n order))) [
          | inl later ↦ inl (ltb→lt 0 (occ n order) later)
          | inr not_later ↦ inr (λ j u g.
              a.over n j u g (elim c [ inl now ↦ inl (ground arith) | inr before ↦ inr before ]))
        ]);
      }
]
