-- ===== src/Orchestration/Dag/Kahn.antt =====
-- Kahn's loop over any graph: the invariant, that the fuel suffices, and what is visited.
use open_agent_net.Prelude.{
  ℕ, zero, suc, ◌+◌, ◌-◌, ◌≤◌, ◌<◌, ◌≡◌, refl, ◌∙◌, ◌&&◌, List, [], ◌∷◌, ◌++◌, arith, ◌==◌, ltb,
  if◌then◌else◌, length, length-append, Bool-cases, inl, inr, ltb→lt, eq_of_==,
}
use mathlib.Core.List.{append_assoc, append-nil}
use open_agent_net.Prelude.Int.{pos}
use open_agent_net.Prelude.Occurs.{occ, occ-append, length-le_of_occ}
use open_agent_net.Orchestration.Dag.{
  Adjacency, Degrees, minus_one, is_zero, set_degree, relax, count_visited, visit,
}

abbrev lowered : ℕ → (ℕ → ℕ) → ℕ → ℕ
lowered x d c = if x == c then d c - 1 else d c

lowered_is :
    (x : ℕ) (D : Degrees) (d : ℕ → ℕ) (c : ℕ)
    → D x ≡ pos (d x)
    → D c ≡ pos (d c)
    → 1 ≤ d x
    → set_degree x (minus_one (D x)) D c ≡ pos (lowered x d c)
lowered_is x D d c ex ec h = ground arith

-- After the children have been relaxed: the degrees, and who was queued.
abbrev Relaxed : List ℕ → (ℕ → ℕ) → List ℕ → Degrees × List ℕ → ℕ → Type 0
Relaxed cs d Q r c =
    (r.0 c ≡ pos (d c - occ c cs))
    × (occ c r.1 ≡ occ c Q + (if ltb 0 (occ c cs) && (d c == occ c cs) then 1 else 0))

relax-Relaxed :
    (cs : List ℕ) (D : Degrees) (d : ℕ → ℕ) (Q : List ℕ)
    → ((c : ℕ) → D c ≡ pos (d c))
    → ((c : ℕ) → occ c cs ≤ d c)
    → (c : ℕ) → Relaxed cs d Q (relax cs D Q) c
unfolding relax
relax-Relaxed [] D d Q e h c = (ground (arith, e c), omega arith)
relax-Relaxed (x ∷ cs) D d Q e h c =
    let one : 1 ≤ d x = ground (arith, h x) in
    let Q' = if is_zero (minus_one (D x)) then Q ++ x ∷ [] else Q in
    let rest =
      relax-Relaxed cs (set_degree x (minus_one (D x)) D) (lowered x d) Q'
        (λ k. lowered_is x D d k (e x) (e k) one) (λ k. ground (arith, h k)) c in
    ground (arith, rest, e x, e c, h c, h x, occ-append c Q (x ∷ []))

-- A graph: its nodes, its edges, and for each node how many of its edges come from outside a list.
pub record Graph : Type 0 where
  pub nodes : List ℕ
  pub adj : Adjacency
  pub pending : List ℕ → ℕ → ℕ
  pub distinct : (c : ℕ) → occ c nodes ≤ 1
  pub inside : (n c : ℕ) → 0 < occ c (adj n) → occ c nodes ≡ 1
  pub source :
      (done : List ℕ) (c : ℕ)
      → 0 < pending done c
      → (d : ℕ) × (0 < occ c (adj d)) × (occ d done ≡ 0) × (occ d nodes ≡ 1)
  pub taken :
      (done : List ℕ) (n c : ℕ)
      → occ n done ≡ 0
      → pending (done ++ n ∷ []) c + occ c (adj n) ≡ pending done c

-- Each node stands behind all those that it has an edge from.
abbrev pub Ordered : Graph → List ℕ → List ℕ → Type 0
Ordered g done [] = Unit
Ordered g done (n ∷ ns) = (g.pending done n ≡ 0) × Ordered g (done ++ n ∷ []) ns

-- The invariant: a node has been visited or is queued, once, exactly when nothing pends on it.
pub record Inv (g : Graph) (order queue : List ℕ) (degree : Degrees) : Type 0 where
  pub deg : (c : ℕ) → degree c ≡ pos (g.pending order c)
  pub cnt :
      (c : ℕ) → occ c order + occ c queue ≡ (if g.pending order c == 0 then occ c g.nodes else 0)

module _ (g : Graph) where
  step-Inv :
      (order : List ℕ) (n : ℕ) (queue : List ℕ) (degree : Degrees)
      → Inv g order (n ∷ queue) degree
      → Inv g (order ++ n ∷ []) (relax (g.adj n) degree queue).1 (relax (g.adj n) degree queue).0
  step-Inv order n queue degree v = record {
    deg = λ c. ground (arith, relaxed c, g.taken order n c new);
    cnt = λ c. ground (
      arith,
      relaxed c,
      g.taken order n c new,
      v.cnt c,
      g.inside n c,
      occ-append c order (n ∷ []),
    );
  }
    where
      new : occ n order ≡ 0
      new = ground (arith, v.cnt n, g.distinct n)

      relaxed : (c : ℕ) → Relaxed (g.adj n) (g.pending order) queue (relax (g.adj n) degree queue) c
      relaxed =
          relax-Relaxed (g.adj n) degree (g.pending order) queue v.deg
            (λ c. omega (arith, g.taken order n c new))

  pending_head :
      (order : List ℕ) (n : ℕ) (queue : List ℕ) (degree : Degrees)
      → Inv g order (n ∷ queue) degree
      → g.pending order n ≡ 0
  pending_head order n queue degree v = ground (arith, v.cnt n)

  in_nodes :
      (order queue : List ℕ) (degree : Degrees)
      → Inv g order queue degree
      → length order + length queue ≤ length g.nodes
  in_nodes order queue degree v = omega (
    arith,
    length-append order queue,
    length-le_of_occ (order ++ queue) g.nodes
        (λ c. ground (arith, v.cnt c, occ-append c order queue)),
  )

  -- The loop ends with an empty queue, and what it appends is in order.
  pub record Visited (order : List ℕ) (result : List ℕ) : Type 0 where
    pub rest : List ℕ
    pub is : result ≡ order ++ rest
    pub sorted : Ordered g order rest
    pub all : (c : ℕ) → occ c result ≡ (if g.pending result c == 0 then occ c g.nodes else 0)

  finished : (order : List ℕ) (degree : Degrees) → Inv g order [] degree → Visited order order
  finished order degree v = record {
    rest = [];
    is = rw append-nil;
    sorted = tt;
    all = λ c. omega (arith, v.cnt c);
  }

  pub visit-Visited :
      (fuel : ℕ) (degree : Degrees) (queue order : List ℕ)
      → Inv g order queue degree
      → length g.nodes ≤ length order + fuel
      → Visited order (visit fuel g.adj degree queue order)
  unfolding visit
  visit-Visited zero degree [] order v room = finished order degree v
  visit-Visited zero degree (n ∷ queue) order v room =
      absurd (omega (arith, in_nodes order (n ∷ queue) degree v))
  visit-Visited (suc fuel) degree [] order v room = finished order degree v
  visit-Visited (suc fuel) degree (n ∷ queue) order v room =
      let next = relax (g.adj n) degree queue in
      let ih =
        visit-Visited fuel next.0 next.1 (order ++ n ∷ []) (step-Inv order n queue degree v)
          (omega (arith, length-append order (n ∷ []))) in
      record {
        rest = n ∷ ih.rest;
        is = ih.is ∙ append_assoc order (n ∷ []) ih.rest;
        sorted = (pending_head order n queue degree v, ih.sorted);
        all = ih.all;
      }

  -- When any order of the nodes exists in which each stands behind its sources, the loop visits all.
  reaches :
      (result : List ℕ)
      → ((c : ℕ) → occ c result ≡ (if g.pending result c == 0 then occ c g.nodes else 0))
      → (done ns : List ℕ) → Ordered g done ns
      → ((d : ℕ) → 0 < occ d done → g.pending result d ≡ 0)
      → (d : ℕ) → 0 < occ d (done ++ ns)
      → g.pending result d ≡ 0
  reaches result all done [] ord before d h = before d (ground (arith, occ-append d done []))
  reaches result all done (n ∷ ns) ord before d h =
      reaches result all (done ++ n ∷ []) ns ord.1 within d (
        omega (
          arith,
          occ-append d (done ++ n ∷ []) ns,
          occ-append d done (n ∷ []),
          occ-append d done (n ∷ ns),
          h,
        ))
    where
      clear : g.pending result n ≡ 0
      clear = elim (Bool-cases (ltb 0 (g.pending result n))) [
        | inl waits ↦
            let s = g.source result n (ltb→lt 0 (g.pending result n) waits) in
            absurd (ground (arith, s.1, s.2, s.3, all s.0, before s.0, g.taken done s.0 n, ord.0))
        | inr none_waits ↦ ground arith
      ]

      within : (e : ℕ) → 0 < occ e (done ++ n ∷ []) → g.pending result e ≡ 0
      within e k = elim (Bool-cases (n == e)) [
        | inl same ↦ rw (← eq_of_== n e same) clear
        | inr other ↦ before e (ground (arith, occ-append e done (n ∷ []), k))
      ]

  pub visits_all :
      (result order : List ℕ)
      → ((c : ℕ) → occ c result ≡ (if g.pending result c == 0 then occ c g.nodes else 0))
      → Ordered g [] order
      → ((c : ℕ) → occ c order ≡ occ c g.nodes)
      → (c : ℕ) → occ c result ≡ occ c g.nodes
  visits_all result order all ord same c = elim (Bool-cases (ltb 0 (occ c g.nodes))) [
    | inl there ↦ ground (
      arith,
      all c,
      same c,
      reaches result all [] order ord (λ d h. absurd (omega arith)) c (ground (arith, same c)),
    )
    | inr absent ↦ ground (arith, all c)
  ]

-- Counting the visits gives the length of the order.
pub count_visited-eq-length :
    (fuel : ℕ) (adj : Adjacency) (degree : Degrees) (queue order : List ℕ)
    → count_visited fuel adj degree queue (length order)
      ≡ length (visit fuel adj degree queue order)
unfolding count_visited visit
count_visited-eq-length zero adj degree queue order = refl
count_visited-eq-length (suc fuel) adj degree [] order = refl
count_visited-eq-length (suc fuel) adj degree (n ∷ queue) order =
    let next = relax (adj n) degree queue in
    let longer : length order + 1 ≡ length (order ++ n ∷ []) =
      omega (arith, length-append order (n ∷ [])) in
    rw longer (count_visited-eq-length fuel adj next.0 next.1 (order ++ n ∷ []))
