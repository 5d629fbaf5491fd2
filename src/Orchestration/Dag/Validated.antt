-- ===== src/Orchestration/Dag/Validated.antt =====
-- `validate_dag` accepts exactly the workflows that can be ordered, and `topological_order` orders
-- those.
use open_agent_net.Prelude.{
  ℕ, ◌+◌, ◌≤◌, ◌<◌, ◌≡◌, refl, ◌∙◌, ap, none, List, [], ◌∷◌, ◌++◌, arith, ◌==◌, eq_of_==, length,
  inl, inr, Option-cases, Bool-cases,
}
use open_agent_net.Prelude.Int.{pos}
use open_agent_net.Prelude.Occurs.{occ, occ-append, length-eq_of_occ}
use open_agent_net.Db.{Result-cases}
use open_agent_net.Orchestration.Dag.{
  StepDef, Adjacency, Degrees, collect, check_defined, check_graph, validate_dag, count_degrees,
  visit, gather, roots, no_edges, no_degrees, topological_order,
}
use open_agent_net.Orchestration.Dag.Edges.{ids_of, edges, edges_inside, pend, pend_absent}
use open_agent_net.Orchestration.Dag.Building.{
  Distinct, Named, collect-Collected, collect_ok, Defined, AllDefined, check_defined-AllDefined,
  AllDefined-check_defined, count_degrees_is, Gathered, gather-Gathered,
}
use open_agent_net.Orchestration.Dag.Kahn.{count_visited-eq-length}
use open_agent_net.Orchestration.Dag.Correct.{
  IsSchedule, Behind, Rearranges, run, run-IsSchedule, schedule_visits,
}

-- The run of `topological_order`, of a list that has passed the checks on its ids.
module _ (ts : List StepDef) (distinct : Distinct [] ts) (defined : AllDefined (ids_of ts) ts) where
  gathered : Gathered ts [] no_degrees no_edges (gather ts [] no_degrees no_edges)
  gathered = gather-Gathered ts [] no_degrees no_edges distinct

  order_is :
      (P : List ℕ → Type 0)
      → ((nodes : List ℕ) (adj : Adjacency) (degree : Degrees)
          → nodes ≡ ids_of ts
          → ((n c : ℕ) → occ c (adj n) ≡ edges n c ts)
          → ((c : ℕ) → degree c ≡ pos (pend ts [] c))
          → P (visit (length nodes) adj degree (roots nodes degree) []))
      → P (topological_order ts)
  unfolding topological_order
  order_is P h =
      let g = gather ts [] no_degrees no_edges in
      h g.0 g.2 g.1 gathered.ids_are (λ n c. ground (arith, gathered.adj_is n c))
        (λ c. ground (arith, gathered.degree_is c, pend_absent ts [] c))

  order-IsSchedule : (order : List ℕ) → IsSchedule ts order → IsSchedule ts (topological_order ts)
  order-IsSchedule order s = order_is (IsSchedule ts) (λ nodes adj degree is edges_are degree_is.
      let same : (c : ℕ) → occ c nodes ≡ occ c (ids_of ts) = λ c. ap (occ c) is in
      let all =
        schedule_visits ts nodes adj degree same distinct defined edges_are degree_is (length nodes)
          (omega arith) order s in
      run-IsSchedule ts nodes adj degree same distinct defined edges_are degree_is (length nodes)
        (omega arith) (length-eq_of_occ _ nodes all))

Defined-all :
    (ts : List StepDef) (n : ℕ) (ids ds : List ℕ)
    → ((d : ℕ) → 0 < occ d ds → 0 < occ d ids)
    → Defined ids ds
Defined-all ts n ids [] h = tt
Defined-all ts n ids (d ∷ ds) h =
    (h d (ground arith), Defined-all ts n ids ds (λ e k. h e (ground arith)))

-- What a step depends on stands before it in a schedule.
Behind-edges :
    (ts : List StepDef) (done ns : List ℕ) (n d : ℕ)
    → Behind ts done ns
    → 0 < occ n ns
    → 0 < edges d n ts
    → 0 < occ d done + occ d ns
Behind-edges ts done [] n d b k e = absurd (omega arith)
Behind-edges ts done (m ∷ ns) n d b k e = elim (Bool-cases (m == n)) [
  | inl same ↦ omega (arith, b.0 d (rw (eq_of_== m n same) e))
  | inr other ↦
      let ih = Behind-edges ts (done ++ m ∷ []) ns n d b.1 (ground arith) e in
      ground (arith, ih, occ-append d done (m ∷ []))
]

-- The steps `us` of the workflow: all that they depend on are steps.
AllDefined-within :
    (ts us : List StepDef)
    → ((n d : ℕ) → edges d n us ≤ edges d n ts)
    → ((n d : ℕ) → 0 < edges d n ts → 0 < occ d (ids_of ts))
    → AllDefined (ids_of ts) us
AllDefined-within ts [] h k = tt
AllDefined-within ts (u ∷ us) h k = (
  Defined-all ts u.id (ids_of ts) u.depends_on (λ d q. k u.id d (ground (arith, h u.id d))),
  AllDefined-within ts us (λ n d. omega (arith, h n d)) k,
)

-- A list that has a schedule depends on its own steps only.
schedule-AllDefined :
    (ts : List StepDef) (order : List ℕ) → IsSchedule ts order → AllDefined (ids_of ts) ts
schedule-AllDefined ts order s =
    AllDefined-within ts ts (λ n d. omega arith)
      (λ n d e. ground (
        arith,
        Behind-edges ts [] order n d s.behind (omega (arith, s.each n, edges_inside ts d n e)) e,
        s.each d,
      ))

-- The check of the graph, when the ids and the dependencies are in order.
module _ (set_order : List ℕ → List ℕ) (sets : Rearranges set_order) (ts : List StepDef)
    (distinct : Distinct [] ts) (defined : AllDefined (ids_of ts) ts) (ids : List ℕ)
    (adj : Adjacency) (ids_are : ids ≡ ids_of ts)
    (edges_are : (n c : ℕ) → occ c (adj n) ≡ edges n c ts) where
  abbrev degrees : Degrees
  degrees = count_degrees ids ts no_degrees

  degrees_are : (c : ℕ) → degrees c ≡ pos (pend ts [] c)
  degrees_are c =
      rw ids_are
        (ground (arith, count_degrees_is (ids_of ts) ts no_degrees (λ k. 0) c defined (λ k. refl)))

  same : (c : ℕ) → occ c (set_order ids) ≡ occ c (ids_of ts)
  same c = sets c ids ∙ ap (occ c) ids_are

  as_many : length (set_order ids) ≡ length ids
  as_many = length-eq_of_occ (set_order ids) ids (λ c. sets c ids)

  abbrev visits : List ℕ
  visits =
      run ts (set_order ids) adj degrees same distinct defined edges_are degrees_are (length ids)
        (omega (arith, as_many))

  check-order : check_graph set_order ts ids adj ≡ none → IsSchedule ts visits
  unfolding check_graph
  check-order h =
      run-IsSchedule ts (set_order ids) adj degrees same distinct defined edges_are degrees_are
        (length ids) (omega (arith, as_many))
        (ground (
          arith,
          as_many,
          ids_are,
          AllDefined-check_defined (ids_of ts) ts defined,
          count_visited-eq-length (length ids) adj degrees (roots (set_order ids) degrees) [],
        ))

  order-check : (order : List ℕ) → IsSchedule ts order → check_graph set_order ts ids adj ≡ none
  unfolding check_graph
  order-check order s =
      let clear : check_defined ids ts ≡ none =
        rw ids_are (AllDefined-check_defined (ids_of ts) ts defined) in
      ground (
        arith,
        as_many,
        clear,
        length-eq_of_occ visits (set_order ids) (
            schedule_visits ts (set_order ids) adj degrees same distinct defined edges_are
              degrees_are (length ids) (omega (arith, as_many)) order s),
        count_visited-eq-length (length ids) adj degrees (roots (set_order ids) degrees) [],
      )

check_graph-AllDefined :
    (set_order : List ℕ → List ℕ) (ts : List StepDef) (ids : List ℕ) (adj : Adjacency)
    → ids ≡ ids_of ts
    → check_graph set_order ts ids adj ≡ none
    → AllDefined (ids_of ts) ts
unfolding check_graph
check_graph-AllDefined set_order ts ids adj e h =
    check_defined-AllDefined (ids_of ts) ts (elim (Option-cases (check_defined (ids_of ts) ts)) [
      | inl clear ↦ clear
      | inr bad ↦ absurd (ground arith)
    ])

-- When `validate_dag` returns None, the ids of the steps are not empty and differ, and
-- `topological_order` returns every step once and behind all the steps that it depends on, in
-- whatever order the set of ids is iterated.
pub validate_dag_sound :
    (set_order : List ℕ → List ℕ)
    → Rearranges set_order
    → (ts : List StepDef) → validate_dag set_order ts ≡ none
    → Named ts × Distinct [] ts × IsSchedule ts (topological_order ts)
unfolding validate_dag
validate_dag_sound set_order sets ts h = elim (Result-cases (collect ts [] no_edges)) [
  | inl bad ↦ absurd (ground arith)
  | inr (r, e) ↦
      let c = collect-Collected ts [] no_edges r (λ k. omega arith) e in
      let checked : check_graph set_order ts r.0 r.1 ≡ none = ground arith in
      let defined = check_graph-AllDefined set_order ts r.0 r.1 c.ids_are checked in
      let s =
        check-order set_order sets ts c.distinct defined r.0 r.1 c.ids_are
          (λ n k. ground (arith, c.adj_is n k)) checked in
      (c.named, c.distinct, order-IsSchedule ts c.distinct defined _ s)
]

-- When the ids of the steps are not empty and differ, and some order has every step once and behind
-- all the steps that it depends on, `validate_dag` returns None, in whatever order the set of ids is
-- iterated.
pub validate_dag_complete :
    (set_order : List ℕ → List ℕ)
    → Rearranges set_order
    → (ts : List StepDef) → Named ts
    → Distinct [] ts
    → (order : List ℕ) → IsSchedule ts order
    → validate_dag set_order ts ≡ none
unfolding validate_dag
validate_dag_complete set_order sets ts named distinct order s =
    let defined = schedule-AllDefined ts order s in
    let (r, e) = collect_ok ts [] no_edges named distinct in
    let c = collect-Collected ts [] no_edges r (λ k. omega arith) e in
    let checked =
      order-check set_order sets ts distinct defined r.0 r.1 c.ids_are
        (λ n k. ground (arith, c.adj_is n k)) order s in
    ground arith
