-- ===== src/Marketplace/Payment.antt =====
-- When an escrow is paid out, and that creating one is repeatable under its key.
use text.Mathlib.TextPositions.{eq_refl}
use open_agent_net.Prelude.Int.{pos}
use open_agent_net.Prelude.{
  ℕ, String, ◌≡◌, refl, Option, none, some, arith, inl, inr, ◌⊎◌, Option-cases, if◌then◌else◌,
}
use open_agent_net.Db.{ok, err, lookup, find_row, find_row-add_row}
use open_agent_net.Identifiers.{Uuid, parse_agent_id}
use open_agent_net.Tasks.{Task, success}
use open_agent_net.Marketplace.State.{held, Escrow, Listing, MarketDb, key_in_use}
use open_agent_net.Marketplace.Escrow.{
  Platform, EscrowRequest, create_escrow, release_escrow, require_escrow, check_completed,
  new_escrow, nonempty, linked_task, normalize_currency, positive_amount, settle_key, same_amount,
  has_key,
}
use open_agent_net.Marketplace.Opened.{
  create_escrow-Drafted, settle_key_adds, Inserted, insert_escrow-Inserted,
}

-- Why a release may go through.
pub record Payable (uuid : Uuid) (text who : String) (db : MarketDb) (id : ℕ) (e : Escrow)
    : Type 0 where
  pub actor : ℕ
  pub at_id : uuid.parse text ≡ some id
  pub at : lookup id db.escrows ≡ some e
  pub is_actor : parse_agent_id uuid who ≡ some actor
  pub party : (actor ≡ e.buyer_agent_id) ⊎ (actor ≡ e.seller_agent_id)
  pub is_held : e.status ≡ held
  pub done :
      (e.task_id ≡ none)
      ⊎ ((t : ℕ) × (task : Task) × (e.task_id ≡ some t)
          × (lookup t db.tasks ≡ some task)
          × (task.status ≡ success))

module _ (uuid : Uuid) (now : ℕ) (text who : String) (db : MarketDb) where
  -- A release that returns was asked for by the buyer or the seller of an escrow that was held, and
  -- the task that the escrow is linked to, if any, had ended in success.
  pub release_only_if :
      (r : Escrow × MarketDb)
      → release_escrow uuid now text who db ≡ ok r
      → (id : ℕ) × (e : Escrow) × Payable uuid text who db id e
  unfolding release_escrow require_escrow check_completed
  release_only_if r h = elim (Option-cases (uuid.parse text)) [
    | inl p ↦ absurd (ground arith)
    | inr (id, p) ↦ elim (Option-cases (lookup id db.escrows)) [
      | inl q ↦ absurd (ground arith)
      | inr (e, q) ↦ elim (Option-cases (parse_agent_id uuid who)) [
        | inl a ↦ absurd (ground arith)
        | inr (actor, a) ↦ (
          id,
          e,
          record {
            actor = actor;
            at_id = p;
            at = q;
            is_actor = a;
            party = ground arith;
            is_held = ground arith;
            done = elim (Option-cases e.task_id) [
              | inl t ↦ inl t
              | inr (t, is_t) ↦ elim (Option-cases (lookup t db.tasks)) [
                | inl l ↦ absurd (ground arith)
                | inr (task, l) ↦ inr (t, task, is_t, l, ground arith)
              ]
            ];
          },
        )
      ]
    ]
  ]

linked_task_again :
    (uuid : Uuid) (buyer : ℕ) (listing : Listing) (text : Option String) (db db' : MarketDb)
    (t : Option ℕ)
    → db'.tasks ≡ db.tasks
    → linked_task uuid buyer listing text db ≡ ok (t, db)
    → linked_task uuid buyer listing text db' ≡ ok (t, db')
unfolding linked_task
linked_task_again uuid buyer listing none db db' t same h = ground arith
linked_task_again uuid buyer listing (some text) db db' t same h = ground arith

normalize_currency_again :
    (chars : Platform) (text : String) (db db' : MarketDb) (c : String)
    → normalize_currency chars text db ≡ ok (c, db)
    → normalize_currency chars text db' ≡ ok (c, db')
unfolding normalize_currency
normalize_currency_again chars text db db' c h = ground arith

-- The key is found again, with the row that was stored under it.
settle_key_again :
    (chars : Platform) (fresh fresh' : ℕ) (given : Option String) (key : String)
    (buyer listing n s : ℕ) (currency : String) (draft draft' : ℕ → Escrow) (db : MarketDb)
    (r : (ℕ × Escrow) × MarketDb)
    → given ≡ some key
    → ((a : ℕ)
        → ((draft a).idempotency_key ≡ given)
          × ((draft a).buyer_agent_id ≡ buyer)
          × ((draft a).listing_id ≡ listing)
          × ((draft a).amount ≡ a)
          × ((draft a).currency ≡ currency))
    → settle_key chars fresh given buyer listing n s currency draft db ≡ ok r
    → settle_key chars fresh' given buyer listing n s currency draft' r.1
      ≡ (if same_amount r.0.1.amount n s then ok r else err key_in_use)
unfolding settle_key
settle_key_again chars fresh fresh' none key buyer listing n s currency draft draft' db r k terms
      h =
    cc
settle_key_again chars fresh fresh' (some j) key buyer listing n s currency draft draft' db r k
      terms h =
    elim (Option-cases (find_row (has_key j) db.escrows)) [
      | inl e ↦
          let (a, free, is) = insert_escrow-Inserted chars fresh n s draft db r (ground arith) in
          let found = find_row-add_row (has_key j) fresh (draft a) db.escrows e in
          rw is (ground (arith, found, terms a, eq_refl j, eq_refl currency))
      | inr (x, e) ↦ ground (arith, e)
    ]

settle_key_keeps :
    (chars : Platform) (fresh : ℕ) (key : Option String) (buyer listing n s : ℕ) (currency : String)
    (draft : ℕ → Escrow) (db : MarketDb) (r : (ℕ × Escrow) × MarketDb)
    → settle_key chars fresh key buyer listing n s currency draft db ≡ ok r
    → (r.1.listings ≡ db.listings) × (r.1.tasks ≡ db.tasks)
settle_key_keeps chars fresh key buyer listing n s currency draft db r h =
    by (settle_key_adds chars fresh key buyer listing n s currency draft db r h)
  where
    by :
        (r.1 ≡ db) ⊎ Inserted fresh draft db r
        → (r.1.listings ≡ db.listings) × (r.1.tasks ≡ db.tasks)
    by (inl p) = rw p (refl, refl)
    by (inr p) = rw p.2 (refl, refl)

-- The same request for an escrow under a key, with any fresh identity and at any reading of the clock,
-- right after one that returned: it returns the escrow that the first one returned and changes
-- nothing, exactly when the stored amount is the amount n·10^-s that was asked for; where the column
-- has rounded it, the retry is refused as another escrow under the key.
pub create_escrow_again :
    (uuid : Uuid) (chars : Platform) (now fresh now' fresh' : ℕ) (q : EscrowRequest) (db : MarketDb)
    (r : (ℕ × Escrow) × MarketDb) (key : String) (n s : ℕ)
    → nonempty q.idempotency_key ≡ some key
    → q.amount ≡ some (record { units = pos n; scale = s })
    → create_escrow uuid chars now fresh q db ≡ ok r
    → create_escrow uuid chars now' fresh' q r.1
      ≡ (if same_amount r.0.1.amount n s then ok r else err key_in_use)
unfolding create_escrow positive_amount
create_escrow_again uuid chars now fresh now' fresh' q db r key n s k am h =
    let d = create_escrow-Drafted uuid chars now fresh q db r h in
    let given = nonempty q.idempotency_key in
    let same : (d.amount ≡ n) × (d.scale ≡ s) = ground (arith, d.is_amount) in
    let draft =
      λ (t a : ℕ). new_escrow t q d.buyer d.listing_id d.listing d.task a d.currency given in
    let kept =
      settle_key_keeps chars fresh given d.buyer d.listing_id d.amount d.scale d.currency
        (draft now) db r d.settled in
    let again =
      settle_key_again chars fresh fresh' given key d.buyer d.listing_id d.amount d.scale d.currency
        (draft now) (draft now') db r k (λ a. (refl, refl, refl, refl, refl)) d.settled in
    ground (
      arith,
      k,
      same,
      d.is_buyer,
      d.positive,
      normalize_currency_again chars q.currency db r.1 d.currency d.is_currency,
      d.is_listing,
      d.at,
      d.apart,
      kept,
      linked_task_again uuid d.buyer d.listing (nonempty q.task_id) db r.1 d.task kept.1 d.is_task,
      again,
    )
