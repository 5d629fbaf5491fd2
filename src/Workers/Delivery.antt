-- ===== src/Workers/Delivery.antt =====
-- The passes of the workers in any order: which tasks they change, and that no task waits for ever.
use open_agent_net.Prelude.{
  ℕ, ◌+◌, ◌≤◌, ◌<◌, ◌≡◌, refl, ap, String, true, false, Option, none, some, List, [], ◌∷◌, arith,
  inl, inr, Bool-cases, Option-cases,
}
use open_agent_net.Tasks.{Task, is_waiting}
use open_agent_net.Agents.{Agent}
use open_agent_net.Db.{Table, lookup, select, KeysDiffer, KeysDiffer-select, lookup-select}
use open_agent_net.Trust.Numbers.{Float}
use open_agent_net.Trust.State.{TrustDb}
use open_agent_net.Trust.Score.{Component}
use open_agent_net.Workers.Passes.{
  Round, Turn, delivering, expiring, count_delivery_attempts, retry, delivery, expiry, delivery_due,
  expiry_due, delivery_of, delivery_pass, expiry_pass, take_turn, take_turns,
}
use open_agent_net.Workers.Rows.{IsPage, settle_all-row, settle_all-KeysDiffer, new_row}

-- A task that still waits after a delivery has one more attempt behind it, and not yet three.
delivery-waiting :
    (describe : String → ℕ → String) (p : Round) (id : ℕ) (t : Task) (a : Option Agent)
    → is_waiting (delivery describe p id t a).0.status ≡ true
    → (count_delivery_attempts t.result + 1 < 3)
      × (count_delivery_attempts (delivery describe p id t a).0.result
          ≡ count_delivery_attempts t.result + 1)
unfolding delivery retry
delivery-waiting describe p id t none w = cc
delivery-waiting describe p id t (some a) w = elim (Option-cases t.result) [
  | inl absent ↦ ground arith
  | inr (r, there) ↦ ground arith
]

unfoldable pub Pages : List Turn → Type 0
Pages [] = Unit
Pages (delivering p ∷ ws) = IsPage p.page × Pages ws
Pages (expiring now ∷ ws) = Pages ws

unfoldable pub deliveries : List Turn → ℕ
deliveries [] = 0
deliveries (delivering p ∷ ws) = deliveries ws + 1
deliveries (expiring now ∷ ws) = deliveries ws

module _ (f : Float) (components : List (Component f.F)) (describe : String → ℕ → String)
    (describe_ttl : ℕ → String) (heartbeat : ℕ) where
  open f use {F}

  abbrev turn : Turn → TrustDb F → TrustDb F
  turn w db = take_turn f components describe describe_ttl heartbeat w db

  abbrev chosen : Round → TrustDb F → Table Task
  chosen p db = p.page (select (delivery_due p.now) db.tasks)

  -- Each delivery selects the task while it waits.
  unfoldable pub Serves : ℕ → List Turn → TrustDb F → Type 0
  Serves k [] db = Unit
  Serves k (delivering p ∷ ws) db =
      ((t : Task)
        → lookup k db.tasks ≡ some t
        → is_waiting t.status ≡ true
        → lookup k (chosen p db) ≡ some t)
      × Serves k ws (turn (delivering p) db)
  Serves k (expiring now ∷ ws) db = Serves k ws (turn (expiring now) db)

  delivery_pass-row :
      (p : Round) (k : ℕ) (db : TrustDb F)
      → IsPage p.page
      → KeysDiffer db.tasks
      → lookup k (turn (delivering p) db).tasks
        ≡ new_row
            (delivery_of f components describe p db k)
            (lookup k (chosen p db))
            (lookup k db.tasks)
  unfolding take_turn delivery_pass
  delivery_pass-row p k db is d =
      settle_all-row f components p.now (delivery_of f components describe p)
        (λ s u e id t. ap (λ a. delivery describe p id t (lookup t.to_agent_id a)) e) k
        (chosen p db) db (is.differ _ (KeysDiffer-select (delivery_due p.now) db.tasks d))

  expiry_pass-row :
      (now k : ℕ) (db : TrustDb F)
      → KeysDiffer db.tasks
      → lookup k (turn (expiring now) db).tasks
        ≡ new_row
            (expiry describe_ttl now)
            (lookup k (select (expiry_due heartbeat now) db.tasks))
            (lookup k db.tasks)
  unfolding take_turn expiry_pass
  expiry_pass-row now k db d =
      settle_all-row f components now (λ s id t. expiry describe_ttl now t) (λ s u e id t. refl) k
        (select (expiry_due heartbeat now) db.tasks) db
        (KeysDiffer-select (expiry_due heartbeat now) db.tasks d)

  take_turn-KeysDiffer :
      (w : Turn) (db : TrustDb F) → KeysDiffer db.tasks → KeysDiffer (turn w db).tasks
  unfolding take_turn delivery_pass expiry_pass
  take_turn-KeysDiffer (delivering p) db d =
      settle_all-KeysDiffer f components p.now (delivery_of f components describe p)
        (λ s u e id t. ap (λ a. delivery describe p id t (lookup t.to_agent_id a)) e) (chosen p db)
        db d
  take_turn-KeysDiffer (expiring now) db d =
      settle_all-KeysDiffer f components now (λ s id t. expiry describe_ttl now t)
        (λ s u e id t. refl) (select (expiry_due heartbeat now) db.tasks) db d

  settled_delivery :
      (p : Round) (k : ℕ) (t : Task) (db : TrustDb F)
      → IsPage p.page
      → KeysDiffer db.tasks
      → lookup k db.tasks ≡ some t
      → is_waiting t.status ≡ false
      → lookup k (turn (delivering p) db).tasks ≡ some t
  settled_delivery p k t db is d at over = elim (Option-cases (lookup k (chosen p db))) [
    | inl absent ↦ ground (arith, delivery_pass-row p k db is d)
    | inr (v, there) ↦
        let due = lookup-select (delivery_due p.now) k v db.tasks d (is.within _ k v there) in
        absurd (ground (arith, due))
  ]

  settled_expiry :
      (now k : ℕ) (t : Task) (db : TrustDb F)
      → KeysDiffer db.tasks
      → lookup k db.tasks ≡ some t
      → is_waiting t.status ≡ false
      → lookup k (turn (expiring now) db).tasks ≡ some t
  settled_expiry now k t db d at over =
      elim (Option-cases (lookup k (select (expiry_due heartbeat now) db.tasks))) [
        | inl absent ↦ ground (arith, expiry_pass-row now k db d)
        | inr (v, there) ↦
            let due = lookup-select (expiry_due heartbeat now) k v db.tasks d there in
            absurd (ground (arith, due))
      ]

  -- A task that does not wait is never changed by the workers: no sequence of deliveries and expiries
  -- touches its row, where a delivery works on rows of its selection.
  pub settled_stays :
      (ws : List Turn) (db : TrustDb F) (k : ℕ) (t : Task)
      → Pages ws
      → KeysDiffer db.tasks
      → lookup k db.tasks ≡ some t
      → is_waiting t.status ≡ false
      → lookup k (take_turns f components describe describe_ttl heartbeat ws db).tasks ≡ some t
  unfolding take_turns Pages
  settled_stays [] db k t is d at over = at
  settled_stays (delivering p ∷ ws) db k t is d at over =
      settled_stays ws (turn (delivering p) db) k t is.1 (take_turn-KeysDiffer (delivering p) db d)
        (settled_delivery p k t db is.0 d at over) over
  settled_stays (expiring now ∷ ws) db k t is d at over =
      settled_stays ws (turn (expiring now) db) k t is (take_turn-KeysDiffer (expiring now) db d)
        (settled_expiry now k t db d at over) over

  -- The task is there at the end and does not wait.
  abbrev pub Ends : List Turn → TrustDb F → ℕ → Type 0
  Ends ws db k =
      (t : Task) × (lookup k (take_turns f components describe describe_ttl heartbeat ws db).tasks
        ≡ some t)
      × (is_waiting t.status ≡ false)

  ends :
      (ws : List Turn) (db : TrustDb F) (k : ℕ) (t : Task)
      → Pages ws
      → KeysDiffer db.tasks
      → Serves k ws db
      → lookup k db.tasks ≡ some t
      → 1 ≤ deliveries ws
      → 3 ≤ count_delivery_attempts t.result + deliveries ws
      → Ends ws db k
  unfolding take_turns deliveries Pages Serves
  ends [] db k t is d serves at some_left enough = absurd (omega arith)
  ends (expiring now ∷ ws) db k t is d serves at some_left enough =
      let next = turn (expiring now) db in
      let differ = take_turn-KeysDiffer (expiring now) db d in
      elim (Option-cases (lookup k (select (expiry_due heartbeat now) db.tasks))) [
        | inl absent ↦
            ends ws next k t is differ serves (ground (arith, expiry_pass-row now k db d)) some_left
              enough
        | inr (v, there) ↦ (
          (expiry describe_ttl now v).0,
          settled_stays ws next k _ is differ (ground (arith, expiry_pass-row now k db d)) refl,
          refl,
        )
      ]
  ends (delivering p ∷ ws) db k t is d serves at some_left enough =
      elim (Bool-cases (is_waiting t.status)) [
        | inr over ↦ (t, settled_stays (delivering p ∷ ws) db k t is d at over, over)
        | inl waits ↦
            let next = turn (delivering p) db in
            let differ = take_turn-KeysDiffer (delivering p) db d in
            let t' = (delivery_of f components describe p db k t).0 in
            let here : lookup k next.tasks ≡ some t' =
              ground (arith, delivery_pass-row p k db is.0 d, serves.0 t at waits) in
            elim (Bool-cases (is_waiting t'.status)) [
              | inr over ↦ (t', settled_stays ws next k t' is.1 differ here over, over)
              | inl still ↦
                  let more =
                    delivery-waiting describe p k t (lookup t.to_agent_id db.agents) still in
                  ends ws next k t' is.1 differ serves.1 here (ground (arith, more.0, more.1))
                    (ground (arith, more.0, more.1))
            ]
      ]

  -- No task waits for ever: after three deliveries that select it while it waits, among any expiries,
  -- a task is no longer pending, whatever its recipient answers.
  pub pending-Ends :
      (ws : List Turn) (db : TrustDb F) (k : ℕ) (t : Task)
      → Pages ws
      → KeysDiffer db.tasks
      → Serves k ws db
      → lookup k db.tasks ≡ some t
      → 3 ≤ deliveries ws
      → Ends ws db k
  pending-Ends ws db k t is d serves at enough =
      ends ws db k t is d serves at (omega arith) (omega arith)
