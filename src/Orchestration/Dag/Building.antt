-- ===== src/Orchestration/Dag/Building.antt =====
-- What the loops that read the steps have built when they end.
use open_agent_net.Prelude.{
  ℕ, ◌+◌, ◌≤◌, ◌<◌, ◌≡◌, ◌≢◌, refl, ◌∙◌, false, none, List, [], ◌∷◌, ◌++◌, arith, ◌==◌,
  if◌then◌else◌, length,
}
use mathlib.Core.List.{append_assoc, append-nil}
use open_agent_net.Prelude.Int.{pos}
use open_agent_net.Prelude.Occurs.{occ, occurs, occ-append}
use open_agent_net.Db.{ok}
use open_agent_net.Orchestration.Dag.{
  StepDef, Adjacency, Degrees, add_edges, collect, first_undefined, check_defined, add_degrees,
  count_degrees, gather, roots, is_zero, set_degree,
}
use open_agent_net.Orchestration.Dag.Edges.{
  ids_of, edges, pend, missing-empty, pend_absent, occ-add_edges,
}

-- The steps have ids, and no id twice.
abbrev pub Distinct : List ℕ → List StepDef → Type 0
Distinct ids ts = (c : ℕ) → occ c ids + occ c (ids_of ts) ≤ 1

abbrev pub Named : List StepDef → Type 0
Named [] = Unit
Named (t ∷ ts) = (t.id ≢ 0) × Named ts

pub record Collected (ts : List StepDef) (ids : List ℕ) (adj : Adjacency) (r : List ℕ × Adjacency)
    : Type 0 where
  pub named : Named ts
  pub ids_are : r.0 ≡ ids ++ ids_of ts
  pub adj_is : (n c : ℕ) → occ c (r.1 n) ≡ occ c (adj n) + edges n c ts
  pub distinct : Distinct ids ts

pub collect-Collected :
    (ts : List StepDef) (ids : List ℕ) (adj : Adjacency) (r : List ℕ × Adjacency)
    → ((c : ℕ) → occ c ids ≤ 1)
    → collect ts ids adj ≡ ok r
    → Collected ts ids adj r
unfolding collect
collect-Collected [] ids adj r h e = record {
  named = tt;
  ids_are = rw append-nil (ground arith);
  adj_is = λ n c. ground arith;
  distinct = λ c. omega (arith, h c);
}
collect-Collected (t ∷ ts) ids adj r h e =
    let is_new : occ t.id ids ≡ 0 = ground arith in
    let ih =
      collect-Collected ts (ids ++ t.id ∷ []) (add_edges t.depends_on t.id adj) r
        (λ c. ground (arith, h c, is_new, occ-append c ids (t.id ∷ []))) (ground arith) in
    record {
      named = (ground arith, ih.named);
      ids_are = ih.ids_are ∙ append_assoc ids (t.id ∷ []) (ids_of ts);
      adj_is = λ n c. omega (arith, ih.adj_is n c, occ-add_edges t.depends_on t.id adj n c);
      distinct = λ c. omega (arith, ih.distinct c, occ-append c ids (t.id ∷ []));
    }

-- The loop accepts all steps that have different, nonempty ids.
pub collect_ok :
    (ts : List StepDef) (ids : List ℕ) (adj : Adjacency)
    → Named ts
    → Distinct ids ts
    → (r : List ℕ × Adjacency) × (collect ts ids adj ≡ ok r)
unfolding collect
collect_ok [] ids adj n d = ((ids, adj), refl)
collect_ok (t ∷ ts) ids adj n d =
    let ih =
      collect_ok ts (ids ++ t.id ∷ []) (add_edges t.depends_on t.id adj) n.1
        (λ c. omega (arith, d c, occ-append c ids (t.id ∷ []))) in
    (ih.0, ground (arith, ih.1, n.0, d t.id))

-- Every dependency is a step.
abbrev pub Defined : List ℕ → List ℕ → Type 0
Defined ids [] = Unit
Defined ids (d ∷ ds) = (0 < occ d ids) × Defined ids ds

abbrev pub AllDefined : List ℕ → List StepDef → Type 0
AllDefined ids [] = Unit
AllDefined ids (t ∷ ts) = Defined ids t.depends_on × AllDefined ids ts

first_undefined-Defined :
    (node : ℕ) (ids ds : List ℕ) → first_undefined node ids ds ≡ none → Defined ids ds
unfolding first_undefined
first_undefined-Defined node ids [] h = tt
first_undefined-Defined node ids (d ∷ ds) h =
    (ground arith, first_undefined-Defined node ids ds (ground arith))

Defined-first_undefined :
    (node : ℕ) (ids ds : List ℕ) → Defined ids ds → first_undefined node ids ds ≡ none
unfolding first_undefined
Defined-first_undefined node ids [] h = refl
Defined-first_undefined node ids (d ∷ ds) h =
    ground (arith, Defined-first_undefined node ids ds h.1, h.0)

pub check_defined-AllDefined :
    (ids : List ℕ) (ts : List StepDef) → check_defined ids ts ≡ none → AllDefined ids ts
unfolding check_defined
check_defined-AllDefined ids [] h = tt
check_defined-AllDefined ids (t ∷ ts) h = (
  first_undefined-Defined t.id ids t.depends_on (ground arith),
  check_defined-AllDefined ids ts (ground arith),
)

pub AllDefined-check_defined :
    (ids : List ℕ) (ts : List StepDef) → AllDefined ids ts → check_defined ids ts ≡ none
unfolding check_defined
AllDefined-check_defined ids [] h = refl
AllDefined-check_defined ids (t ∷ ts) h =
    ground (
      arith,
      Defined-first_undefined t.id ids t.depends_on h.0,
      AllDefined-check_defined ids ts h.1,
    )

Defined-occ : (ids ds : List ℕ) (d : ℕ) → Defined ids ds → 0 < occ d ds → 0 < occ d ids
Defined-occ ids [] d h k = absurd (omega arith)
Defined-occ ids (e ∷ ds) d h k = ground (arith, Defined-occ ids ds d h.1, h.0)

pub AllDefined-edges :
    (ids : List ℕ) (ts : List StepDef) (d c : ℕ)
    → AllDefined ids ts
    → 0 < edges d c ts
    → 0 < occ d ids
AllDefined-edges ids [] d c h k = absurd (omega arith)
AllDefined-edges ids (t ∷ ts) d c h k =
    ground (arith, AllDefined-edges ids ts d c h.1, Defined-occ ids t.depends_on d h.0)

add_degrees_is :
    (ids ds : List ℕ) (node : ℕ) (degree : Degrees) (k : ℕ) (c : ℕ)
    → Defined ids ds
    → degree node ≡ pos k
    → add_degrees ids ds node degree c ≡ (if node == c then pos (k + length ds) else degree c)
unfolding add_degrees
add_degrees_is ids [] node degree k c h e = ground arith
add_degrees_is ids (d ∷ ds) node degree k c h e = ground (
  arith,
  h.0,
  add_degrees_is ids ds node (set_degree node (pos (k + 1)) degree) (k + 1) c h.1 (ground arith),
)

pub count_degrees_is :
    (ids : List ℕ) (ts : List StepDef) (degree : Degrees) (d : ℕ → ℕ) (c : ℕ)
    → AllDefined ids ts
    → ((k : ℕ) → degree k ≡ pos (d k))
    → count_degrees ids ts degree c ≡ pos (d c + pend ts [] c)
unfolding count_degrees
count_degrees_is ids [] degree d c h e = ground (arith, e c)
count_degrees_is ids (t ∷ ts) degree d c h e =
    let ih =
      count_degrees_is ids ts (add_degrees ids t.depends_on t.id degree)
        (λ k. if t.id == k then d t.id + length t.depends_on else d k) c h.1
        (λ k.
          ground
            (arith, add_degrees_is ids t.depends_on t.id degree (d t.id) k h.0 (e t.id), e k)) in
    ground (arith, ih, missing-empty t.depends_on)

pub occ-roots :
    (ns : List ℕ) (degree : Degrees) (c : ℕ)
    → occ c (roots ns degree) ≡ (if is_zero (degree c) then occ c ns else 0)
unfolding roots
occ-roots [] degree c = ground arith
occ-roots (n ∷ ns) degree c = ground (arith, occ-roots ns degree c)

pub record Gathered (ts : List StepDef) (ids : List ℕ) (degree : Degrees) (adj : Adjacency)
    (r : List ℕ × Degrees × Adjacency) : Type 0 where
  pub ids_are : r.0 ≡ ids ++ ids_of ts
  pub degree_is : (c : ℕ) → r.1 c ≡ (if occurs c (ids_of ts) then pos (pend ts [] c) else degree c)
  pub adj_is : (n c : ℕ) → occ c (r.2 n) ≡ occ c (adj n) + edges n c ts

pub gather-Gathered :
    (ts : List StepDef) (ids : List ℕ) (degree : Degrees) (adj : Adjacency)
    → Distinct ids ts
    → Gathered ts ids degree adj (gather ts ids degree adj)
unfolding gather
gather-Gathered [] ids degree adj d = record {
  ids_are = rw append-nil;
  degree_is = λ c. refl;
  adj_is = λ n c. omega arith;
}
gather-Gathered (t ∷ ts) ids degree adj d =
    let is_new : occurs t.id ids ≡ false = ground (arith, d t.id) in
    let ih =
      gather-Gathered ts (ids ++ t.id ∷ []) (set_degree t.id (pos (length t.depends_on)) degree)
        (add_edges t.depends_on t.id adj) (λ c. omega (arith, d c, occ-append c ids (t.id ∷ []))) in
    rw is_new (record {
      ids_are = ih.ids_are ∙ append_assoc ids (t.id ∷ []) (ids_of ts);
      degree_is =
          λ c. ground (arith, ih.degree_is c, d c, pend_absent ts [] c, missing-empty t.depends_on);
      adj_is = λ n c. omega (arith, ih.adj_is n c, occ-add_edges t.depends_on t.id adj n c);
    })
