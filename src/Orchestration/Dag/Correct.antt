-- ===== src/Orchestration/Dag/Correct.antt =====
-- `validate_dag` accepts exactly the workflows that can be ordered, and `topological_order` orders
-- those.
use open_agent_net.Prelude.{
  ℕ, ◌≤◌, ◌<◌, ◌≡◌, refl, ◌∙◌, sym, List, [], ◌∷◌, ◌++◌, arith, ltb, length, Bool-cases, inl, inr,
  ltb→lt,
}
use open_agent_net.Prelude.Int.{pos}
use open_agent_net.Prelude.Occurs.{occ, occ-eq_of_length}
use open_agent_net.Orchestration.Dag.{StepDef, Adjacency, Degrees, visit, roots}
use open_agent_net.Orchestration.Dag.Edges.{
  ids_of, edges, pend, pend_taken, pend_source, edges_inside,
}
use open_agent_net.Orchestration.Dag.Building.{Distinct, AllDefined, AllDefined-edges, occ-roots}
use open_agent_net.Orchestration.Dag.Kahn.{Graph, Ordered, Inv, Visited, visit-Visited, visits_all}

-- The graph that either loop has built, whatever the order of its nodes.
graph_of :
    (ts : List StepDef) (nodes : List ℕ) (adj : Adjacency)
    → ((c : ℕ) → occ c nodes ≡ occ c (ids_of ts))
    → Distinct [] ts
    → AllDefined (ids_of ts) ts
    → ((n c : ℕ) → occ c (adj n) ≡ edges n c ts)
    → Graph
graph_of ts nodes adj same distinct defined edges_are = record {
  nodes = nodes;
  adj = adj;
  pending = pend ts;
  distinct = λ c. omega (arith, same c, distinct c);
  inside = λ n c h.
      omega (arith, same c, distinct c, edges_inside ts n c (omega (arith, edges_are n c)));
  source = λ done c h.
      let s = pend_source ts done c h in
      (
        s.0,
        omega (arith, edges_are s.0 c, s.1),
        s.2,
        omega (arith, same s.0, distinct s.0, AllDefined-edges (ids_of ts) ts s.0 c defined s.1),
      );
  taken = λ done n c h. omega (arith, pend_taken ts done n c h, edges_are n c);
}

start-Inv :
    (g : Graph) (degree : Degrees)
    → ((c : ℕ) → degree c ≡ pos (g.pending [] c))
    → Inv g [] (roots g.nodes degree) degree
start-Inv g degree h = record {
  deg = h;
  cnt = λ c. ground (arith, h c, occ-roots g.nodes degree c);
}

-- Each step of `ns` stands behind all the steps that it depends on.
abbrev pub Behind : List StepDef → List ℕ → List ℕ → Type 0
Behind ts done [] = Unit
Behind ts done (n ∷ ns) =
    ((d : ℕ) → 0 < edges d n ts → 0 < occ d done) × Behind ts (done ++ n ∷ []) ns

-- Every step once, and behind its dependencies.
pub record IsSchedule (ts : List StepDef) (order : List ℕ) : Type 0 where
  pub each : (c : ℕ) → occ c order ≡ occ c (ids_of ts)
  pub behind : Behind ts [] order

pend_clear :
    (ts : List StepDef) (done : List ℕ) (n : ℕ)
    → ((d : ℕ) → 0 < edges d n ts → 0 < occ d done)
    → pend ts done n ≡ 0
pend_clear ts done n h = elim (Bool-cases (ltb 0 (pend ts done n))) [
  | inl waits ↦
      let s = pend_source ts done n (ltb→lt 0 (pend ts done n) waits) in
      absurd (omega (arith, s.1, s.2, h s.0 s.1))
  | inr clear ↦ ground arith
]

clear_pend :
    (ts : List StepDef) (done : List ℕ) (n : ℕ)
    → pend ts done n ≡ 0
    → (d : ℕ) → 0 < edges d n ts
    → 0 < occ d done
clear_pend ts done n h d k = elim (Bool-cases (ltb 0 (occ d done))) [
  | inl there ↦ ltb→lt 0 (occ d done) there
  | inr absent ↦ absurd (ground (arith, pend_taken ts done d n))
]

module _ (ts : List StepDef) (g : Graph)
    (same : (done : List ℕ) (c : ℕ) → g.pending done c ≡ pend ts done c) where
  Behind-Ordered : (done ns : List ℕ) → Behind ts done ns → Ordered g done ns
  Behind-Ordered done [] b = tt
  Behind-Ordered done (n ∷ ns) b =
      (same done n ∙ pend_clear ts done n b.0, Behind-Ordered (done ++ n ∷ []) ns b.1)

  Ordered-Behind : (done ns : List ℕ) → Ordered g done ns → Behind ts done ns
  Ordered-Behind done [] b = tt
  Ordered-Behind done (n ∷ ns) b =
      (clear_pend ts done n (sym (same done n) ∙ b.0), Ordered-Behind (done ++ n ∷ []) ns b.1)

-- The iteration order of a set: some rearrangement.
abbrev pub Rearranges : (List ℕ → List ℕ) → Type 0
Rearranges f = (c : ℕ) (xs : List ℕ) → occ c (f xs) ≡ occ c xs

module _ (ts : List StepDef) (nodes : List ℕ) (adj : Adjacency) (degree : Degrees)
    (same : (c : ℕ) → occ c nodes ≡ occ c (ids_of ts)) (distinct : Distinct [] ts)
    (defined : AllDefined (ids_of ts) ts) (edges_are : (n c : ℕ) → occ c (adj n) ≡ edges n c ts)
    (degree_is : (c : ℕ) → degree c ≡ pos (pend ts [] c)) (fuel : ℕ)
    (enough : length nodes ≤ fuel) where
  abbrev pub run : List ℕ
  run = visit fuel adj degree (roots nodes degree) []

  run-Visited : Visited (graph_of ts nodes adj same distinct defined edges_are) [] run
  unfolding graph_of
  run-Visited =
      visit-Visited (graph_of ts nodes adj same distinct defined edges_are) fuel degree
        (roots nodes degree) []
        (start-Inv (graph_of ts nodes adj same distinct defined edges_are) degree degree_is)
        (omega arith)

  pub run-le : (c : ℕ) → occ c run ≤ occ c nodes
  unfolding graph_of
  run-le c = ground (arith, run-Visited.all c)

  -- As many visits as nodes: the visits are a schedule.
  pub run-IsSchedule : length run ≡ length nodes → IsSchedule ts run
  unfolding graph_of
  run-IsSchedule e = record {
    each = λ c. occ-eq_of_length run nodes run-le e c ∙ same c;
    behind = rw run-Visited.is (
        Ordered-Behind ts (graph_of ts nodes adj same distinct defined edges_are) (λ done c. refl)
          [] run-Visited.rest run-Visited.sorted);
  }

  -- If there is a schedule, all nodes are visited.
  pub schedule_visits : (order : List ℕ) → IsSchedule ts order → (c : ℕ) → occ c run ≡ occ c nodes
  unfolding graph_of
  schedule_visits order s =
      visits_all (graph_of ts nodes adj same distinct defined edges_are) run order run-Visited.all
        (Behind-Ordered ts (graph_of ts nodes adj same distinct defined edges_are) (λ done c. refl)
          [] order s.behind)
        (λ c. s.each c ∙ sym (same c))
