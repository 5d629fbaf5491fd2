-- ===== src/Orchestration/Dag.antt =====
-- `validate_dag` and `topological_order`. A step id is only compared and tested for emptiness, so it
-- is a number, 0 for the empty text. The order in which Python iterates over a set is a parameter.
pub mod Kahn
pub mod Edges
pub mod Building
pub mod Correct
pub mod Validated
use open_agent_net.Prelude.{
  ℕ, zero, suc, ◌+◌, String, Bool, true, false, not, Option, none, some, List, [], ◌∷◌, ◌++◌, ◌==◌,
  if◌then◌else◌, length,
}
use open_agent_net.Prelude.Int.{ℤ, pos, negsuc}
use open_agent_net.Prelude.Occurs.{occ, occurs}
use open_agent_net.Db.{Result, ok, err}

-- One entry of `definition["tasks"]`. `payload` and `constraints` are kept as their texts.
pub record StepDef : Type 0 where
  pub id : ℕ
  pub agent_capability : String
  pub depends_on : List ℕ
  pub payload : String
  pub constraints : String

pub data DagError : Type 0 where
  missing_id : DagError
  duplicate_id : ℕ → DagError
  undefined_dependency : ℕ → ℕ → DagError
  has_cycle : DagError

-- `defaultdict(list)`, and the dictionary of in-degrees.
abbrev pub Adjacency : Type 0
Adjacency = ℕ → List ℕ

abbrev pub Degrees : Type 0
Degrees = ℕ → ℤ

-- `adjacency[dep].append(node)`
abbrev pub add_edge : ℕ → ℕ → Adjacency → Adjacency
add_edge dep node adj k = if dep == k then adj k ++ node ∷ [] else adj k

unfoldable pub add_edges : List ℕ → ℕ → Adjacency → Adjacency
add_edges [] node adj = adj
add_edges (dep ∷ deps) node adj = add_edges deps node (add_edge dep node adj)

-- The first loop of `validate_dag`: the ids and the edges, or the first bad id.
unfoldable pub collect : List StepDef → List ℕ → Adjacency → Result DagError (List ℕ × Adjacency)
collect [] ids adj = ok (ids, adj)
collect (t ∷ ts) ids adj =
    let rest = collect ts (ids ++ t.id ∷ []) (add_edges t.depends_on t.id adj) in
    if t.id == 0 then err missing_id else if occurs t.id ids then err (duplicate_id t.id) else rest

-- The second loop: a dependency that is no step.
unfoldable pub first_undefined : ℕ → List ℕ → List ℕ → Option DagError
first_undefined node ids [] = none
first_undefined node ids (dep ∷ deps) =
    let rest = first_undefined node ids deps in
    if occurs dep ids then rest else some (undefined_dependency node dep)

unfoldable pub check_defined : List ℕ → List StepDef → Option DagError
check_defined ids [] = none
check_defined ids (t ∷ ts) =
    let rest = check_defined ids ts in
    elim (first_undefined t.id ids t.depends_on) [ some e ↦ some e | none ↦ rest ]

abbrev pub plus_one : ℤ → ℤ
plus_one (pos n) = pos (n + 1)
plus_one (negsuc zero) = pos 0
plus_one (negsuc (suc n)) = negsuc n

abbrev pub minus_one : ℤ → ℤ
minus_one (pos zero) = negsuc 0
minus_one (pos (suc n)) = pos n
minus_one (negsuc n) = negsuc (suc n)

abbrev pub is_zero : ℤ → Bool
is_zero (pos zero) = true
is_zero _ = false

abbrev pub set_degree : ℕ → ℤ → Degrees → Degrees
set_degree node v degree k = if node == k then v else degree k

-- `if dep in ids: in_degree[task_def["id"]] += 1`
unfoldable pub add_degrees : List ℕ → List ℕ → ℕ → Degrees → Degrees
add_degrees ids [] node degree = degree
add_degrees ids (dep ∷ deps) node degree =
    add_degrees ids deps node
      (if occurs dep ids then set_degree node (plus_one (degree node)) degree else degree)

unfoldable pub count_degrees : List ℕ → List StepDef → Degrees → Degrees
count_degrees ids [] degree = degree
count_degrees ids (t ∷ ts) degree = count_degrees ids ts (add_degrees ids t.depends_on t.id degree)

-- `deque(nid for nid, deg in in_degree.items() if deg == 0)`
unfoldable pub roots : List ℕ → Degrees → List ℕ
roots [] degree = []
roots (n ∷ ns) degree = let rest = roots ns degree in if is_zero (degree n) then n ∷ rest else rest

-- The loop over the children of a node that has been popped.
unfoldable pub relax : List ℕ → Degrees → List ℕ → Degrees × List ℕ
relax [] degree queue = (degree, queue)
relax (child ∷ children) degree queue =
    let d = minus_one (degree child) in
    relax children (set_degree child d degree) (if is_zero d then queue ++ child ∷ [] else queue)

-- Kahn's loop as `validate_dag` writes it, which counts. The fuel bounds the rounds.
unfoldable pub count_visited : ℕ → Adjacency → Degrees → List ℕ → ℕ → ℕ
count_visited zero adj degree queue visited = visited
count_visited (suc fuel) adj degree [] visited = visited
count_visited (suc fuel) adj degree (node ∷ queue) visited =
    let next = relax (adj node) degree queue in count_visited fuel adj next.0 next.1 (visited + 1)

-- And as `topological_order` writes it, which collects.
unfoldable pub visit : ℕ → Adjacency → Degrees → List ℕ → List ℕ → List ℕ
visit zero adj degree queue order = order
visit (suc fuel) adj degree [] order = order
visit (suc fuel) adj degree (node ∷ queue) order =
    let next = relax (adj node) degree queue in visit fuel adj next.0 next.1 (order ++ node ∷ [])

abbrev pub no_edges : Adjacency
no_edges k = []

abbrev pub no_degrees : Degrees
no_degrees k = pos 0

-- `validate_dag` after its first loop.
unfoldable pub check_graph : (List ℕ → List ℕ) → List StepDef → List ℕ → Adjacency → Option DagError
unfolding check_defined count_degrees roots
check_graph set_order tasks ids adj = elim (check_defined ids tasks) [
  | some e ↦ some e
  | none ↦
      let degree = count_degrees ids tasks no_degrees in
      if count_visited (length ids) adj degree (roots (set_order ids) degree) 0 == length ids
      then none
      else some has_cycle
]

unfoldable pub validate_dag : (List ℕ → List ℕ) → List StepDef → Option DagError
validate_dag set_order tasks = elim (collect tasks [] no_edges) [
  | err e ↦ some e
  | ok (ids, adj) ↦ check_graph set_order tasks ids adj
]

-- The first loop of `topological_order`: the keys of `in_degree` in insertion order, its values, and
-- the edges. A repeated key keeps its place and takes the later value.
unfoldable pub gather : List StepDef → List ℕ → Degrees → Adjacency → List ℕ × Degrees × Adjacency
gather [] ids degree adj = (ids, degree, adj)
gather (t ∷ ts) ids degree adj =
    gather ts (if occurs t.id ids then ids else ids ++ t.id ∷ [])
      (set_degree t.id (pos (length t.depends_on)) degree) (add_edges t.depends_on t.id adj)

unfoldable pub topological_order : List StepDef → List ℕ
topological_order tasks =
    let (ids, degree, adj) = gather tasks [] no_degrees no_edges in
    visit (length ids) adj degree (roots ids degree) []
