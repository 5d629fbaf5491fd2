-- ===== src/Workers/Rows.antt =====
-- What a pass of a worker does to the table of tasks.
use open_agent_net.Prelude.{
  ℕ, ◌≡◌, refl, Bool, true, false, Option, none, some, List, [], ◌∷◌, ◌==◌, eq_of_==, arith, inl,
  inr, Bool-cases, Option-cases,
}
use open_agent_net.Tasks.{Task}
use open_agent_net.Db.{Table, lookup, update, lookup-update, KeysDiffer, KeysDiffer-update}
use open_agent_net.Trust.Numbers.{Float}
use open_agent_net.Trust.State.{TrustDb}
use open_agent_net.Trust.Score.{Component}
use open_agent_net.Trust.Service.{
  ensure_record, check_anomalies, record_for, record_known, record_outcome,
}
use open_agent_net.Workers.Passes.{Fate, put_task, settle, settle_all}

-- PostgreSQL's `limit`: rows of the selection, and none twice.
pub record IsPage (page : Table Task → Table Task) : Type 0 where
  pub differ : (t : Table Task) → KeysDiffer t → KeysDiffer (page t)
  pub within :
      (t : Table Task) (k : ℕ) (v : Task) → lookup k (page t) ≡ some v → lookup k t ≡ some v

-- The row after a pass: from what was selected, and what was stored.
abbrev pub new_row : (Task → Fate) → Option Task → Option Task → Option Task
new_row fate none old = old
new_row fate (some t) none = none
new_row fate (some t) (some o) = some (fate t).0

module _ (f : Float) (components : List (Component f.F)) where
  open f use {F}

  pub record_outcome-tasks :
      (now id : ℕ) (success : Bool) (ms : Option ℕ) (db : TrustDb F)
      → (record_outcome f components now id success ms db).tasks ≡ db.tasks
  unfolding record_outcome ensure_record record_known record_for check_anomalies
  record_outcome-tasks now id success ms db = ground arith

  record_outcome-agents :
      (now id : ℕ) (success : Bool) (ms : Option ℕ) (db : TrustDb F)
      → (record_outcome f components now id success ms db).agents ≡ db.agents
  unfolding record_outcome ensure_record record_known record_for check_anomalies
  record_outcome-agents now id success ms db = ground arith

  pub settle-tasks :
      (now id : ℕ) (x : Fate) (db : TrustDb F)
      → (settle f components now id x db).tasks ≡ update id x.0 db.tasks
  unfolding settle
  settle-tasks now id (t, false) db = refl
  settle-tasks now id (t, true) db =
      record_outcome-tasks now id false t.execution_ms (put_task f components id t db)

  pub settle-agents :
      (now id : ℕ) (x : Fate) (db : TrustDb F)
      → (settle f components now id x db).agents ≡ db.agents
  unfolding settle
  settle-agents now id (t, false) db = refl
  settle-agents now id (t, true) db =
      record_outcome-agents now id false t.execution_ms (put_task f components id t db)

  -- What becomes of a task depends on the agents only.
  module _ (now : ℕ) (fate : TrustDb F → ℕ → Task → Fate)
      (reads : (s u : TrustDb F)
        → s.agents ≡ u.agents
        → (id : ℕ) (t : Task) → fate s id t ≡ fate u id t) where
    pub settle_all-row :
        (k : ℕ) (rows : Table Task) (db : TrustDb F)
        → KeysDiffer rows
        → lookup k (settle_all f components now fate rows db).tasks
          ≡ new_row (fate db k) (lookup k rows) (lookup k db.tasks)
    unfolding settle_all lookup
    settle_all-row k [] db d = refl
    settle_all-row k ((j, t) ∷ rows) db d =
        let x = fate db j t in
        let next = settle f components now j x db in
        let rest = settle_all-row k rows next d.1 in
        let tasks = settle-tasks now j x db in
        let reread = reads next db (settle-agents now j x db) in
        elim (Bool-cases (j == k)) [
          | inl same ↦ ground (
            arith,
            rest,
            tasks,
            reread k t,
            d.0,
            lookup-update j k x.0 db.tasks,
            eq_of_== j k same,
          )
          | inr other ↦ elim (Option-cases (lookup k rows)) [
            | inl absent ↦ ground (arith, rest, tasks, lookup-update j k x.0 db.tasks)
            | inr (v, there) ↦
                ground (arith, rest, tasks, reread k v, lookup-update j k x.0 db.tasks)
          ]
        ]

    pub settle_all-KeysDiffer :
        (rows : Table Task) (db : TrustDb F)
        → KeysDiffer db.tasks
        → KeysDiffer (settle_all f components now fate rows db).tasks
    unfolding settle_all
    settle_all-KeysDiffer [] db d = d
    settle_all-KeysDiffer ((j, t) ∷ rows) db d =
        let x = fate db j t in
        settle_all-KeysDiffer rows (settle f components now j x db)
          (rw (settle-tasks now j x db) (KeysDiffer-update j x.0 db.tasks d))
