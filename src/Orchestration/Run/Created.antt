-- ===== src/Orchestration/Run/Created.antt =====
-- What `create_workflow` does to the rows of the steps.
use open_agent_net.Prelude.{
  ℕ, ◌+◌, ◌<◌, ◌≡◌, refl, true, false, none, some, List, [], ◌∷◌, arith, ◌==◌, inl, inr, ◌⊎◌,
  Option-cases, Bool-cases,
}
use open_agent_net.Prelude.Occurs.{occ}
use open_agent_net.Db.{
  Table, lookup, add_row, find_row, lookup-add_row, KeysDiffer, KeysDiffer-add_row,
  find_row-add_row, find_row-add_row-some,
}
use open_agent_net.Orchestration.Dag.{StepDef}
use open_agent_net.Orchestration.Dag.Edges.{ids_of}
use open_agent_net.Orchestration.Engine.{WorkflowTask, is_step, new_step, add_steps}
use open_agent_net.Orchestration.Run.{is_done, is_over, dep_successful, deps_ok}

-- The part of the invariant that speaks of the steps' rows alone.
pub record RowsValid (steps : Table WorkflowTask) : Type 0 where
  pub keyed : KeysDiffer steps
  pub unique :
      (k : ℕ) (t : WorkflowTask)
      → lookup k steps ≡ some t
      → find_row (is_step t.workflow_id t.node_id) steps ≡ some (k, t)
  pub supported :
      (k : ℕ) (t : WorkflowTask)
      → lookup k steps ≡ some t
      → is_done t.status ≡ true
      → deps_ok t.workflow_id steps t.depends_on ≡ true

dep_added :
    (k w d : ℕ) (v : WorkflowTask) (steps : Table WorkflowTask)
    → dep_successful w steps d ≡ true
    → dep_successful w (add_row k v steps) d ≡ true
unfolding dep_successful
dep_added k w d v steps h = elim (Option-cases (find_row (is_step w d) steps)) [
  | inl absent ↦ absurd (ground arith)
  | inr (x, e) ↦ ground (arith, find_row-add_row-some (is_step w d) k v steps x e)
]

deps_added :
    (k w : ℕ) (ds : List ℕ) (v : WorkflowTask) (steps : Table WorkflowTask)
    → deps_ok w steps ds ≡ true
    → deps_ok w (add_row k v steps) ds ≡ true
unfolding deps_ok
deps_added k w [] v steps h = refl
deps_added k w (d ∷ ds) v steps h =
    ground (arith, dep_added k w d v steps, deps_added k w ds v steps)

add_row-RowsValid :
    (k wid : ℕ) (def : StepDef) (steps : Table WorkflowTask)
    → RowsValid steps
    → lookup k steps ≡ none
    → find_row (is_step wid def.id) steps ≡ none
    → RowsValid (add_row k (new_step wid def) steps)
add_row-RowsValid k wid def steps v free absent = record {
  keyed = KeysDiffer-add_row k (new_step wid def) steps v.keyed free;
  unique = λ j t e. elim (Bool-cases (k == j)) [
    | inl same ↦ ground (
      arith,
      lookup-add_row k j (new_step wid def) steps free,
      find_row-add_row (is_step wid def.id) k (new_step wid def) steps absent,
    )
    | inr other ↦
        find_row-add_row-some (is_step t.workflow_id t.node_id) k (new_step wid def) steps (j, t)
          (v.unique j t (ground (arith, lookup-add_row k j (new_step wid def) steps free)))
  ];
  supported = λ j t e d. elim (Bool-cases (k == j)) [
    | inl same ↦ absurd (ground (arith, lookup-add_row k j (new_step wid def) steps free))
    | inr other ↦
        deps_added k t.workflow_id t.depends_on (new_step wid def) steps
          (v.supported j t (ground (arith, lookup-add_row k j (new_step wid def) steps free)) d)
  ];
}

-- Every row is an old one, or a pending one of a step of the new workflow.
pub record Added (wid : ℕ) (defs : List StepDef) (steps steps' : Table WorkflowTask) : Type 0 where
  pub valid : RowsValid steps'
  pub rows :
      (k : ℕ) (t : WorkflowTask)
      → lookup k steps' ≡ some t
      → (lookup k steps ≡ some t)
        ⊎ ((t.workflow_id ≡ wid) × (0 < occ t.node_id (ids_of defs)) × (is_over t.status ≡ false))

pub add_steps-Added :
    (wid : ℕ) (defs : List StepDef) (draws : ℕ → ℕ) (i : ℕ) (steps steps' : Table WorkflowTask)
    → RowsValid steps
    → add_steps wid defs draws i steps ≡ some steps'
    → Added wid defs steps steps'
unfolding add_steps
add_steps-Added wid [] draws i steps steps' v h =
    let same : steps' ≡ steps = ground arith in
    rw same (record { valid = v; rows = λ k t e. inl e })
add_steps-Added wid (def ∷ defs) draws i steps steps' v h =
    let free : lookup (draws i) steps ≡ none = ground arith in
    let absent : find_row (is_step wid def.id) steps ≡ none = ground arith in
    let ih =
      add_steps-Added wid defs draws (i + 1) (add_row (draws i) (new_step wid def) steps) steps'
        (add_row-RowsValid (draws i) wid def steps v free absent) (ground arith) in
    record {
      valid = ih.valid;
      rows = λ k t e. elim (ih.rows k t e) [
        | inr added ↦ inr (added.0, ground (arith, added.1), added.2)
        | inl now ↦ elim (Bool-cases (draws i == k)) [
          | inl same ↦ inr (
            ground (arith, lookup-add_row (draws i) k (new_step wid def) steps free),
            ground (arith, lookup-add_row (draws i) k (new_step wid def) steps free),
            ground (arith, lookup-add_row (draws i) k (new_step wid def) steps free),
          )
          | inr other ↦
              inl (ground (arith, lookup-add_row (draws i) k (new_step wid def) steps free))
        ]
      ];
    }
