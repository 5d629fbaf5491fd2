-- ===== src/Orchestration/Dag/Edges.antt =====
-- The graph of a list of steps: what the first loops of `validate_dag` and `topological_order` build.
use open_agent_net.Prelude.{
  ℕ, ◌+◌, ◌<◌, ◌≡◌, refl, ◌&&◌, List, [], ◌∷◌, ◌++◌, arith, ◌==◌, ltb, if◌then◌else◌, length,
  Bool-cases, inl, inr,
}
use open_agent_net.Prelude.Occurs.{occ, occ-append}
use open_agent_net.Orchestration.Dag.{StepDef, Adjacency, add_edges}

abbrev pub ids_of : List StepDef → List ℕ
ids_of [] = []
ids_of (t ∷ ts) = t.id ∷ ids_of ts

-- How often the step `c` names `n` as a dependency.
abbrev pub edges : ℕ → ℕ → List StepDef → ℕ
edges n c [] = 0
edges n c (t ∷ ts) = (if t.id == c then occ n t.depends_on else 0) + edges n c ts

abbrev pub missing : List ℕ → List ℕ → ℕ
missing done [] = 0
missing done (d ∷ ds) = (if occ d done == 0 then 1 else 0) + missing done ds

-- How many of the dependencies of the step `c` are not among `done`.
abbrev pub pend : List StepDef → List ℕ → ℕ → ℕ
pend [] done c = 0
pend (t ∷ ts) done c = (if t.id == c then missing done t.depends_on else 0) + pend ts done c

missing_taken :
    (done : List ℕ) (n : ℕ) (ds : List ℕ)
    → occ n done ≡ 0
    → missing (done ++ n ∷ []) ds + occ n ds ≡ missing done ds
missing_taken done n [] h = refl
missing_taken done n (d ∷ ds) h =
    ground (arith, missing_taken done n ds h, occ-append d done (n ∷ []))

pub pend_taken :
    (ts : List StepDef) (done : List ℕ) (n c : ℕ)
    → occ n done ≡ 0
    → pend ts (done ++ n ∷ []) c + edges n c ts ≡ pend ts done c
pend_taken [] done n c h = refl
pend_taken (t ∷ ts) done n c h =
    ground (arith, pend_taken ts done n c h, missing_taken done n t.depends_on h)

pub missing-empty : (ds : List ℕ) → missing [] ds ≡ length ds
missing-empty [] = refl
missing-empty (d ∷ ds) = omega (arith, missing-empty ds)

missing_source :
    (done ds : List ℕ) → 0 < missing done ds → (d : ℕ) × (0 < occ d ds) × (occ d done ≡ 0)
missing_source done [] h = absurd (omega arith)
missing_source done (d ∷ ds) h = elim (Bool-cases (occ d done == 0)) [
  | inl gone ↦ (d, ground arith, ground arith)
  | inr there ↦ let r = missing_source done ds (ground arith) in (r.0, omega (arith, r.1), r.2)
]

pub pend_source :
    (ts : List StepDef) (done : List ℕ) (c : ℕ)
    → 0 < pend ts done c
    → (d : ℕ) × (0 < edges d c ts) × (occ d done ≡ 0)
pend_source [] done c h = absurd (omega arith)
pend_source (t ∷ ts) done c h = elim (Bool-cases (t.id == c && ltb 0 (missing done t.depends_on))) [
  | inl here ↦
      let r = missing_source done t.depends_on (ground arith) in (r.0, ground (arith, r.1), r.2)
  | inr later ↦ let r = pend_source ts done c (ground arith) in (r.0, omega (arith, r.1), r.2)
]

pub pend_absent :
    (ts : List StepDef) (done : List ℕ) (c : ℕ) → occ c (ids_of ts) ≡ 0 → pend ts done c ≡ 0
pend_absent [] done c h = refl
pend_absent (t ∷ ts) done c h = ground (arith, pend_absent ts done c)

pub edges_inside : (ts : List StepDef) (n c : ℕ) → 0 < edges n c ts → 0 < occ c (ids_of ts)
edges_inside [] n c h = absurd (omega arith)
edges_inside (t ∷ ts) n c h = ground (arith, edges_inside ts n c)

pub occ-add_edges :
    (ds : List ℕ) (node : ℕ) (adj : Adjacency) (n c : ℕ)
    → occ c (add_edges ds node adj n) ≡ occ c (adj n) + (if node == c then occ n ds else 0)
unfolding add_edges
occ-add_edges [] node adj n c = ground arith
occ-add_edges (d ∷ ds) node adj n c = ground (
  arith,
  occ-add_edges ds node (λ k. if d == k then adj k ++ node ∷ [] else adj k) n c,
  occ-append c (adj n) (node ∷ []),
)
