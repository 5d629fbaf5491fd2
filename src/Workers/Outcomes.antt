-- ===== src/Workers/Outcomes.antt =====
-- What the workers report to the trust service.
use open_agent_net.Prelude.{
  ℕ, ◌+◌, ◌≡◌, refl, sym, ap, not, ◌||◌, leb, length, String, Bool, true, false, ◌&&◌, Option, none,
  some, List, [], ◌∷◌, ◌==◌, eq_of_==, if◌then◌else◌, arith, inl, inr, Bool-cases, Option-cases,
}
use open_agent_net.Tasks.{Task}
use open_agent_net.Agents.{Agent, is_active}
use open_agent_net.Db.{
  Table, lookup, update, select, lookup-update, lookup-add_row, KeysDiffer, KeysDiffer-select,
  lookup-select,
}
use open_agent_net.Trust.Numbers.{Float}
use open_agent_net.Trust.State.{TrustRecord, TrustDb}
use open_agent_net.Trust.Score.{Component, rescore}
use open_agent_net.Trust.Service.{
  new_record, ensure_record, record_for, record_known, record_outcome, first_of, counted,
  latency_seen,
}
use open_agent_net.Trust.Effects.{check_anomalies-records}
use open_agent_net.Workers.Passes.{
  Round, Fate, put_task, settle, settle_all, delivery, retry, count_delivery_attempts, delivery_of,
  delivery_due, delivery_pass,
}
use open_agent_net.Workers.Rows.{IsPage, settle-tasks, settle-agents}

-- The row is a failure of the agent `k`, which `found` describes: it is inactive, or it refuses the
-- third attempt.
pub is_blamed : Round → Option Agent → ℕ → ℕ → Task → Bool
is_blamed p none k id t = false
is_blamed p (some a) k id t =
    t.to_agent_id == k
    && (not (is_active a.status)
        || (not (p.accepts id t a.endpoint) && leb 2 (count_delivery_attempts t.result)))

module _ (f : Float) (components : List (Component f.F)) where
  open f use {F}

  -- The tasks counted for an agent, and the successes among them.
  abbrev pub counts_of : Option (TrustRecord F) → ℕ × ℕ
  counts_of none = (0, 0)
  counts_of (some r) = (r.total_tasks, r.successful_tasks)

  abbrev pub counts : ℕ → TrustDb F → ℕ × ℕ
  counts agent db = counts_of (lookup agent db.records)

  ensure_record-counts :
      (now agent k : ℕ) (db : TrustDb F)
      → counts k (ensure_record f components now agent db) ≡ counts k db
  unfolding ensure_record
  ensure_record-counts now agent k db = elim (Option-cases (lookup agent db.records)) [
    | inl absent ↦
        ground
          (arith, lookup-add_row agent k (new_record f components now) db.records, eq_of_== agent k)
    | inr (r, there) ↦ ground arith
  ]

  -- An outcome adds one to the tasks of the recipient, and a success one to its successes.
  abbrev pub after_outcome : Bool → Bool → ℕ × ℕ → ℕ × ℕ
  after_outcome success true c = (c.0 + 1, if success then c.1 + 1 else c.1)
  after_outcome success false c = c

  put-counts :
      (success : Bool) (agent k : ℕ) (r r' : TrustRecord F) (db db' : TrustDb F)
      → lookup agent db.records ≡ some r
      → db'.records ≡ update agent r' db.records
      → (r'.total_tasks ≡ r.total_tasks + 1)
        × (r'.successful_tasks ≡ (if success then r.successful_tasks + 1 else r.successful_tasks))
      → counts k db' ≡ after_outcome success (agent == k) (counts k db)
  put-counts success agent k r r' db db' at is (total, good) = elim (Bool-cases (agent == k)) [
    | inl same ↦ ground (arith, lookup-update agent k r' db.records, eq_of_== agent k same)
    | inr other ↦ ground (arith, lookup-update agent k r' db.records)
  ]

  record_known-counts :
      (now k : ℕ) (t : Task) (success : Bool) (ms : Option ℕ) (db : TrustDb F) (r : TrustRecord F)
      → lookup t.to_agent_id db.records ≡ some r
      → counts k (record_known f components now t success ms db)
        ≡ after_outcome success (t.to_agent_id == k) (counts k db)
  unfolding record_known record_for rescore
  record_known-counts now k t success ms db r there =
      let q = counted f components success r in
      let o = some (latency_seen f components t ms db) in
      let r' : TrustRecord F = record (rescore f now components o q) {
        last_computed_at = now;
        updated_at = now;
      } in
      put-counts success t.to_agent_id k r r' db (record_known f components now t success ms db)
        there (ground (arith, check_anomalies-records f components now t.to_agent_id q db))
        (refl, refl)

  ensure_record-there :
      (now agent : ℕ) (db : TrustDb F)
      → (r : TrustRecord F) × (lookup agent (ensure_record f components now agent db).records
          ≡ some r)
  unfolding ensure_record
  ensure_record-there now agent db = elim (Option-cases (lookup agent db.records)) [
    | inl absent ↦ (
      new_record f components now,
      ground (arith, lookup-add_row agent agent (new_record f components now) db.records),
    )
    | inr (r, there) ↦ (r, ground arith)
  ]

  pub record_outcome-counts :
      (now id k : ℕ) (t : Task) (success : Bool) (ms : Option ℕ) (db : TrustDb F)
      → lookup id db.tasks ≡ some t
      → counts k (record_outcome f components now id success ms db)
        ≡ after_outcome success (t.to_agent_id == k) (counts k db)
  unfolding record_outcome
  record_outcome-counts now id k t success ms db at =
      let (r, there) = ensure_record-there now t.to_agent_id db in
      ground (
        arith,
        ensure_record-counts now t.to_agent_id k db,
        record_known-counts now k t success (first_of ms t.execution_ms)
            (ensure_record f components now t.to_agent_id db) r there,
      )

  settle-counts :
      (now id k : ℕ) (x : Fate) (o : Task) (db : TrustDb F)
      → lookup id db.tasks ≡ some o
      → counts k (settle f components now id x db)
        ≡ after_outcome false (x.1 && x.0.to_agent_id == k) (counts k db)
  unfolding settle
  settle-counts now id k (t, false) o db at = refl
  settle-counts now id k (t, true) o db at =
      record_outcome-counts now id k t false t.execution_ms (put_task f components id t db)
        (ground (arith, lookup-update id id t db.tasks))

  -- The number of rows whose failure is reported against the agent.
  unfoldable pub reported : (ℕ → Task → Fate) → ℕ → Table Task → ℕ
  reported fate k [] = 0
  reported fate k ((id, t) ∷ rows) =
      let rest = reported fate k rows in
      if (fate id t).1 && (fate id t).0.to_agent_id == k then rest + 1 else rest

  delivery-blames :
      (describe : String → ℕ → String) (p : Round) (k id : ℕ) (t : Task) (db : TrustDb F)
      → ((delivery_of f components describe p db id t).1
          && (delivery_of f components describe p db id t).0.to_agent_id == k)
        ≡ is_blamed p (lookup k db.agents) k id t
  unfolding delivery retry is_blamed
  delivery-blames describe p k id t db = elim (Bool-cases (t.to_agent_id == k)) [
    | inl same ↦ elim (Option-cases (lookup k db.agents)) [
      | inl absent ↦ ground (arith, eq_of_== t.to_agent_id k same)
      | inr (a, at) ↦ ground (arith, eq_of_== t.to_agent_id k same)
    ]
    | inr other ↦ ground arith
  ]

  reported-length :
      (describe : String → ℕ → String) (p : Round) (k : ℕ) (db : TrustDb F) (rows : Table Task)
      → reported (delivery_of f components describe p db) k rows
        ≡ length (select (is_blamed p (lookup k db.agents) k) rows)
  unfolding reported select
  reported-length describe p k db [] = refl
  reported-length describe p k db ((id, t) ∷ rows) =
      rw (delivery-blames describe p k id t db)
        (ground (arith, reported-length describe p k db rows))

  pub Stored : Table Task → Table Task → Type 0
  Stored [] tasks = Unit
  Stored ((id, t) ∷ rows) tasks = ((o : Task) × (lookup id tasks ≡ some o)) × Stored rows tasks

  Stored-update :
      (rows : Table Task) (id : ℕ) (t : Task) (tasks : Table Task)
      → Stored rows tasks
      → Stored rows (update id t tasks)
  unfolding Stored
  Stored-update [] id t tasks s = tt
  Stored-update ((j, v) ∷ rows) id t tasks ((o, at), s) = elim (Bool-cases (id == j)) [
    | inl same ↦ (
      (t, ground (arith, lookup-update id j t tasks, eq_of_== id j same)),
      Stored-update rows id t tasks s,
    )
    | inr other ↦ ((o, ground (arith, lookup-update id j t tasks)), Stored-update rows id t tasks s)
  ]

  page-Stored :
      (rows tasks : Table Task)
      → KeysDiffer rows
      → ((k : ℕ) (v : Task) → lookup k rows ≡ some v → lookup k tasks ≡ some v)
      → Stored rows tasks
  unfolding Stored lookup
  page-Stored [] tasks d sub = tt
  page-Stored ((j, v) ∷ rows) tasks d sub = (
    (v, sub j v (ground arith)),
    page-Stored rows tasks d.1 (λ k w e. sub k w (ground (arith, d.0))),
  )

  module _ (now : ℕ) (fate : TrustDb F → ℕ → Task → Fate)
      (reads : (s u : TrustDb F)
        → s.agents ≡ u.agents
        → (id : ℕ) (t : Task) → fate s id t ≡ fate u id t) where
    reported-reads :
        (k : ℕ) (rows : Table Task) (s u : TrustDb F)
        → s.agents ≡ u.agents
        → reported (fate s) k rows ≡ reported (fate u) k rows
    unfolding reported
    reported-reads k [] s u e = refl
    reported-reads k ((id, t) ∷ rows) s u e =
        ground (arith, reads s u e id t, reported-reads k rows s u e)

    settle_all-counts :
        (k : ℕ) (rows : Table Task) (db : TrustDb F)
        → Stored rows db.tasks
        → counts k (settle_all f components now fate rows db)
          ≡ ((counts k db).0 + reported (fate db) k rows, (counts k db).1)
    unfolding settle_all reported Stored
    settle_all-counts k [] db s = ground arith
    settle_all-counts k ((id, t) ∷ rows) db ((o, at), s) =
        let x = fate db id t in
        let next = settle f components now id x db in
        let stored : Stored rows next.tasks =
          rw (settle-tasks f components now id x db) (Stored-update rows id x.0 db.tasks s) in
        ground (
          arith,
          settle_all-counts k rows next stored,
          settle-counts now id k x o db at,
          reported-reads k rows next db (settle-agents f components now id x db),
        )

  -- What a delivery reports, for any agent: its counted tasks grow by the number of the selected rows
  -- addressed to it that meet it inactive, or active with an endpoint that refuses a third attempt;
  -- nothing is counted for an agent that has no row, and no success is counted for anyone. The page
  -- holds rows of the selection, each identity once.
  pub delivery_counts :
      (describe : String → ℕ → String) (p : Round) (k : ℕ) (db : TrustDb F)
      → IsPage p.page
      → KeysDiffer db.tasks
      → counts k (delivery_pass f components describe p db) ≡ (
        (counts k db).0
            + length (
                select
                  (is_blamed p (lookup k db.agents) k)
                  (p.page (select (delivery_due p.now) db.tasks))),
        (counts k db).1,
      )
  unfolding delivery_pass
  delivery_counts describe p k db is d =
      let rows = select (delivery_due p.now) db.tasks in
      let differ = KeysDiffer-select (delivery_due p.now) db.tasks d in
      rw (sym (reported-length describe p k db (p.page rows))) (
        settle_all-counts p.now (delivery_of f components describe p)
          (λ s u e id t. ap (λ a. delivery describe p id t (lookup t.to_agent_id a)) e) k
          (p.page rows) db
          (page-Stored (p.page rows) db.tasks (is.differ rows differ) (λ j v e.
            (lookup-select (delivery_due p.now) j v db.tasks d (is.within rows j v e)).0)))
