-- ===== src/Orchestration/Run/Attempts.antt =====
-- The host that a step is sent to, and the attempts of a step.
use open_agent_net.Prelude.{
  ℕ, zero, suc, ◌+◌, ◌≤◌, ◌<◌, ◌≡◌, refl, String, false, not, Option, none, List, [], ◌∷◌, arith,
  ◌==◌, eq_of_==, inl, inr, ◌⊎◌, Bool-cases, keep,
}
use open_agent_net.Prelude.Occurs.{occ}
use open_agent_net.Db.{Result, ok, err, Result-cases}
use open_agent_net.Orchestration.Dag.{StepDef}
use open_agent_net.Orchestration.Engine.{Outcome, Workflow, Attempt, choose_hosts, execute_step}
use open_agent_net.Orchestration.Run.{exhausted, max_retries, try_step}

others_of : ℕ → List ℕ → List ℕ
others_of owner hosts = keep (λ h. not (h == owner)) hosts

head_is_other :
    (owner h : ℕ) (hosts rest : List ℕ)
    → keep (λ h. not (h == owner)) hosts ≡ h ∷ rest
    → (h == owner) ≡ false
unfolding keep
head_is_other owner h [] rest e = cc
head_is_other owner h (x ∷ hosts) rest e = ground (arith, head_is_other owner h hosts rest)

no_others :
    (owner : ℕ) (hosts : List ℕ)
    → keep (λ h. not (h == owner)) hosts ≡ []
    → (x : ℕ) → 0 < occ x hosts
    → x ≡ owner
unfolding keep
no_others owner [] e x h = absurd (omega arith)
no_others owner (y ∷ hosts) e x h = elim (Bool-cases (y == x)) [
  | inl same ↦ ground arith
  | inr other ↦ no_others owner hosts (ground arith) x (ground arith)
]

-- When the first host chosen is the owner of the workflow, no other agent offers the capability.
pub choose_hosts_owner :
    (owner : ℕ) (hosts rest : List ℕ)
    → choose_hosts owner hosts ≡ owner ∷ rest
    → (x : ℕ) → 0 < occ x hosts
    → x ≡ owner
unfolding choose_hosts
choose_hosts_owner owner [] rest e x h = absurd (omega arith)
choose_hosts_owner owner (y ∷ []) rest e x h = ground arith
choose_hosts_owner owner (y ∷ z ∷ hosts) rest e x h =
    go (keep (λ h. not (h == owner)) (y ∷ z ∷ hosts)) refl
  where
    go : (others : List ℕ) → keep (λ h. not (h == owner)) (y ∷ z ∷ hosts) ≡ others → x ≡ owner
    go [] q = no_others owner (y ∷ z ∷ hosts) q x h
    go (o ∷ os) q = absurd (ground (arith, head_is_other owner o (y ∷ z ∷ hosts) os q))

-- What an attempt returned or raised.
abbrev pub attempted : Workflow → StepDef → (ℕ → Attempt) → ℕ → Result String Outcome
attempted w def attempts i = (execute_step w def (attempts i) none).0

attempted_is :
    (w : Workflow) (def : StepDef) (a : Attempt) (sent : Option ℕ)
    → (execute_step w def a sent).0 ≡ (execute_step w def a none).0
unfolding execute_step
attempted_is w def a sent = ground arith

abbrev pub Raises : Workflow → StepDef → (ℕ → Attempt) → ℕ → Type 0
Raises w def attempts i = (text : String) × (attempted w def attempts i ≡ err text)

-- The loop from an attempt on, with some retries left.
abbrev Tried : Workflow → StepDef → (ℕ → Attempt) → ℕ → ℕ → Outcome → Type 0
Tried w def attempts i left o =
    ((k : ℕ) × (i ≤ k)
      × (k ≤ i + left)
      × (attempted w def attempts k ≡ ok o)
      × ((j : ℕ) → i ≤ j → j < k → Raises w def attempts j))
    ⊎ ((text : String) × (attempted w def attempts (i + left) ≡ err text)
        × (o ≡ exhausted text)
        × ((j : ℕ) → i ≤ j → j ≤ i + left → Raises w def attempts j))

earlier :
    (w : Workflow) (def : StepDef) (attempts : ℕ → Attempt) (i j k : ℕ)
    → Raises w def attempts i
    → (i + 1 ≤ j → j < k → Raises w def attempts j)
    → i ≤ j
    → j < k
    → Raises w def attempts j
earlier w def attempts i j k raised h p q = elim (Bool-cases (j == i)) [
  | inl same ↦ rw (eq_of_== j i same) raised
  | inr other ↦ h (ground arith) q
]

Tried-later :
    (w : Workflow) (def : StepDef) (attempts : ℕ → Attempt) (i left : ℕ) (o : Outcome)
    → Raises w def attempts i
    → Tried w def attempts (i + 1) left o
    → Tried w def attempts i (suc left) o
Tried-later w def attempts i left o raised (inl (k, a, b, e, h)) =
    inl (k, omega arith, omega arith, e, λ j p q. earlier w def attempts i j k raised (h j) p q)
Tried-later w def attempts i left o raised (inr (text, e, is, h)) =
    let same : i + 1 + left ≡ i + suc left = omega arith in
    inr (
      text,
      rw (← same) e,
      is,
      λ j p q.
          earlier w def attempts i j (suc (i + suc left)) raised (λ a b. h j a (omega arith)) p
            (omega arith),
    )

try_step-Tried :
    (w : Workflow) (def : StepDef) (attempts : ℕ → Attempt) (i left : ℕ) (sent : Option ℕ)
    → Tried w def attempts i left (try_step w def attempts i left sent).0
unfolding try_step
try_step-Tried w def attempts i zero sent = elim (Result-cases (attempted w def attempts i)) [
  | inl (text, e) ↦ inr (
    text,
    (let same : i + 0 ≡ i = omega arith in rw same e),
    ground (arith, e, attempted_is w def (attempts i) sent),
    λ j a b. (text, (let same : j ≡ i = omega arith in rw same e)),
  )
  | inr (o, e) ↦ inl (
    i,
    omega arith,
    omega arith,
    ground (arith, e, attempted_is w def (attempts i) sent),
    λ j a b. absurd (omega arith),
  )
]
try_step-Tried w def attempts i (suc left) sent = elim (Result-cases (attempted w def attempts i)) [
  | inr (o, e) ↦ inl (
    i,
    omega arith,
    omega arith,
    ground (arith, e, attempted_is w def (attempts i) sent),
    λ j a b. absurd (omega arith),
  )
  | inl (text, e) ↦
      let next = (execute_step w def (attempts i) sent).1 in
      let again : (try_step w def attempts i (suc left) sent).0
          ≡ (try_step w def attempts (i + 1) left next).0 =
        ground (arith, e, attempted_is w def (attempts i) sent) in
      rw again (
        Tried-later w def attempts i left _ (text, e)
          (try_step-Tried w def attempts (i + 1) left next))
]

-- One of the three attempts gives the outcome of a step, all attempts before it having raised; or all
-- three have raised, and the outcome is the text of the last exception with the retries exhausted.
pub try_step_outcome :
    (w : Workflow) (def : StepDef) (attempts : ℕ → Attempt) (sent : Option ℕ)
    → ((k : ℕ) × (k ≤ 2)
        × (attempted w def attempts k ≡ ok (try_step w def attempts 0 max_retries sent).0)
        × ((j : ℕ) → j < k → Raises w def attempts j))
      ⊎ ((text : String) × (attempted w def attempts 2 ≡ err text)
          × ((try_step w def attempts 0 max_retries sent).0 ≡ exhausted text)
          × ((j : ℕ) → j ≤ 2 → Raises w def attempts j))
try_step_outcome w def attempts sent = elim (try_step-Tried w def attempts 0 2 sent) [
  | inl (k, a, b, e, h) ↦ inl (k, omega arith, e, λ j q. h j (omega arith) q)
  | inr (text, e, o, h) ↦ inr (text, e, o, λ j q. h j (omega arith) q)
]
