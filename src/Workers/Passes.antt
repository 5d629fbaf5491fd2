-- ===== src/Workers/Passes.antt =====
-- One pass of `task_delivery_worker` and of `ttl_expiry_worker` (backend/app/core/workers.py). A pass
-- is one session, which works on the tables that the trust service works on.
use open_agent_net.Prelude.{
  ℕ, ◌+◌, ◌-◌, String, Bool, true, false, not, ◌&&◌, Option, none, some, List, [], ◌∷◌, leb,
  if◌then◌else◌,
}
use open_agent_net.Tasks.{Task, TaskStatus, TaskResult, is_waiting}
use open_agent_net.Agents.{Agent, is_active}
use open_agent_net.Db.{Table, lookup, update, select}
use open_agent_net.Trust.Numbers.{Float}
use open_agent_net.Trust.State.{TrustDb}
use open_agent_net.Trust.Score.{Component}
use open_agent_net.Trust.Service.{record_outcome}

-- What a pass of the delivery meets: the time, which recipients answer with a status below 400, and
-- the rows that PostgreSQL returns for `limit(50)` without an order.
pub record Round : Type 0 where
  pub now : ℕ
  pub accepts : ℕ → Task → String → Bool
  pub page : Table Task → Table Task

abbrev pub max_delivery_attempts : ℕ
max_delivery_attempts = 3

-- `_count_delivery_attempts`
abbrev pub count_delivery_attempts : Option TaskResult → ℕ
count_delivery_attempts none = 0
count_delivery_attempts (some r) = elim r.delivery_attempts [ none ↦ 0 | some n ↦ n ]

-- `task.result` with the counter set.
abbrev pub journal : ℕ → Option TaskResult → TaskResult
journal n none = record { delivery_attempts = some n; others = "" }
journal n (some r) = record r { delivery_attempts = some n }

abbrev pub fail_task : ℕ → String → String → Task → Task
fail_task now code message t = record t {
  status = TaskStatus.failed;
  error_code = some code;
  error_message = some message;
  completed_at = some now;
}

-- What becomes of a task, and whether the outcome goes to the trust service.
abbrev pub Fate : Type 0
Fate = Task × Bool

-- The last branches, for an endpoint that did not accept. `describe` is the formatted message.
unfoldable pub retry : (String → ℕ → String) → ℕ → String → Task → Fate
retry describe now endpoint t =
    let attempts = count_delivery_attempts t.result in
    if leb max_delivery_attempts (attempts + 1)
    then (fail_task now "DEAD_ENDPOINT" (describe endpoint (attempts + 1)) t, true)
    else (
      record t { status = TaskStatus.pending; result = some (journal (attempts + 1) t.result) },
      false,
    )

unfoldable pub delivery : (String → ℕ → String) → Round → ℕ → Task → Option Agent → Fate
unfolding retry
delivery describe p id t none =
    (fail_task p.now "RECIPIENT_NOT_FOUND" "Recipient agent no longer exists" t, false)
delivery describe p id t (some a) =
    if not (is_active a.status)
    then (fail_task p.now "RECIPIENT_INACTIVE" "Recipient agent is inactive" t, true)
    else if p.accepts id t a.endpoint
    then (record t { status = TaskStatus.running }, false)
    else retry describe p.now a.endpoint t

-- `f"Task exceeded TTL of {task.ttl_seconds}s"` is `describe`.
abbrev pub expiry : (ℕ → String) → ℕ → Task → Fate
expiry describe now t = (
  record t {
    status = TaskStatus.timeout;
    error_code = some "TIMEOUT";
    error_message = some (describe t.ttl_seconds);
    completed_at = some now;
  },
  true,
)

abbrev pub delivery_due : ℕ → ℕ → Task → Bool
delivery_due now id t = is_waiting t.status && leb (now - 3600) t.created_at

-- `queued` is no status of a task.
abbrev pub expiry_due : ℕ → ℕ → ℕ → Task → Bool
expiry_due heartbeat now id t = is_waiting t.status && leb (t.created_at + heartbeat) now

module _ (f : Float) (components : List (Component f.F)) where
  open f use {F}

  abbrev pub put_task : ℕ → Task → TrustDb F → TrustDb F
  put_task id t db = record db { tasks = update id t db.tasks }

  -- `_record_terminal_outcome`, where the branch calls it.
  abbrev pub record_terminal : Bool → ℕ → ℕ → Option ℕ → TrustDb F → TrustDb F
  record_terminal true now id ms db = record_outcome f components now id false ms db
  record_terminal false now id ms db = db

  unfoldable pub settle : ℕ → ℕ → Fate → TrustDb F → TrustDb F
  settle now id (t, reported) db = record_terminal reported now id t.execution_ms (put_task id t db)

  -- The loop over the selected rows; `fate` reads the agents, which no pass changes.
  unfoldable pub settle_all : ℕ → (TrustDb F → ℕ → Task → Fate) → Table Task → TrustDb F → TrustDb F
  settle_all now fate [] db = db
  settle_all now fate ((id, t) ∷ rows) db =
      settle_all now fate rows (settle now id (fate db id t) db)

  abbrev pub delivery_of : (String → ℕ → String) → Round → TrustDb F → ℕ → Task → Fate
  delivery_of describe p db id t = delivery describe p id t (lookup t.to_agent_id db.agents)

  unfoldable pub delivery_pass : (String → ℕ → String) → Round → TrustDb F → TrustDb F
  delivery_pass describe p db =
      settle_all p.now (delivery_of describe p) (p.page (select (delivery_due p.now) db.tasks)) db

  unfoldable pub expiry_pass : (ℕ → String) → ℕ → ℕ → TrustDb F → TrustDb F
  expiry_pass describe heartbeat now db =
      settle_all now (λ s id t. expiry describe now t) (select (expiry_due heartbeat now) db.tasks)
        db

  unfoldable pub delivery_passes : (String → ℕ → String) → List Round → TrustDb F → TrustDb F
  delivery_passes describe [] db = db
  delivery_passes describe (p ∷ ps) db = delivery_passes describe ps (delivery_pass describe p db)

-- The two workers take turns in any order.
pub data Turn : Type 0 where
  delivering : Round → Turn
  expiring : ℕ → Turn

module _ (f : Float) (components : List (Component f.F)) (describe : String → ℕ → String)
    (describe_ttl : ℕ → String) (heartbeat : ℕ) where
  open f use {F}

  unfoldable pub take_turn : Turn → TrustDb F → TrustDb F
  take_turn (delivering p) db = delivery_pass f components describe p db
  take_turn (expiring now) db = expiry_pass f components describe_ttl heartbeat now db

  unfoldable pub take_turns : List Turn → TrustDb F → TrustDb F
  take_turns [] db = db
  take_turns (w ∷ ws) db = take_turns ws (take_turn w db)
