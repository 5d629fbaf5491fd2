-- ===== src/Marketplace/Opened.antt =====
-- What a `create_escrow` that returned has done.
use open_agent_net.Prelude.{
  ℕ, ◌<◌, String, ◌≡◌, refl, sym, ◌≢◌, Option, none, some, arith, inl, inr, ◌⊎◌, Option-cases,
}
use open_agent_net.Prelude.Int.{ℤ, pos, negsuc}
use open_agent_net.Db.{ok, lookup, add_row, Result-cases, find_row}
use open_agent_net.Identifiers.{Uuid, parse_agent_id}
use open_agent_net.Marketplace.State.{Escrow, Listing, MarketDb}
use open_agent_net.Marketplace.Escrow.{
  Platform, EscrowRequest, add_escrow, settle_key, create_escrow, linked_task, normalize_currency,
  positive_amount, new_escrow, insert_escrow, nonempty, has_key,
}

-- The row that is put together from the request, once its parts have been found.
pub record Drafted (uuid : Uuid) (chars : Platform) (now fresh : ℕ) (q : EscrowRequest)
    (db : MarketDb) (r : (ℕ × Escrow) × MarketDb) : Type 0 where
  pub buyer : ℕ
  pub listing_id : ℕ
  pub listing : Listing
  pub task : Option ℕ
  pub amount : ℕ
  pub scale : ℕ
  pub currency : String
  pub is_buyer : parse_agent_id uuid q.buyer_agent_id ≡ some buyer
  pub is_amount : q.amount ≡ some (record { units = pos amount; scale = scale })
  pub positive : 0 < amount
  pub is_currency : normalize_currency chars q.currency db ≡ ok (currency, db)
  pub is_listing : uuid.parse q.listing_id ≡ some listing_id
  pub at : lookup listing_id db.listings ≡ some listing
  pub apart : listing.agent_id ≢ buyer
  pub is_task : linked_task uuid buyer listing (nonempty q.task_id) db ≡ ok (task, db)
  pub settled :
      settle_key chars fresh
        (nonempty q.idempotency_key)
        buyer
        listing_id
        amount
        scale
        currency
        (λ a.
          new_escrow now q buyer listing_id listing task a currency (nonempty q.idempotency_key))
        db
      ≡ ok r

linked_task_reads :
    (uuid : Uuid) (buyer : ℕ) (listing : Listing) (text : Option String) (db : MarketDb)
    (t : Option ℕ) (s : MarketDb)
    → linked_task uuid buyer listing text db ≡ ok (t, s)
    → s ≡ db
unfolding linked_task
linked_task_reads uuid buyer listing none db t s h = ground arith
linked_task_reads uuid buyer listing (some text) db t s h = ground arith

normalize_currency_reads :
    (chars : Platform) (text : String) (db : MarketDb) (c : String) (s : MarketDb)
    → normalize_currency chars text db ≡ ok (c, s)
    → s ≡ db
unfolding normalize_currency
normalize_currency_reads chars text db c s h = ground arith

ℤ-cases : (x : ℤ) → ((n : ℕ) × (x ≡ pos n)) ⊎ ((n : ℕ) × (x ≡ negsuc n))
ℤ-cases (pos n) = inl (n, refl)
ℤ-cases (negsuc n) = inr (n, refl)

module _ (uuid : Uuid) (chars : Platform) (now fresh : ℕ) (q : EscrowRequest) (db : MarketDb)
    (r : (ℕ × Escrow) × MarketDb) where
  after_amount :
      (n s : ℕ) (buyer : ℕ)
      → q.amount ≡ some (record { units = pos n; scale = s })
      → parse_agent_id uuid q.buyer_agent_id ≡ some buyer
      → create_escrow uuid chars now fresh q db ≡ ok r
      → Drafted uuid chars now fresh q db r
  unfolding create_escrow positive_amount
  after_amount n s buyer a b h = elim (Result-cases (normalize_currency chars q.currency db)) [
    | inl e ↦ absurd (ground arith)
    | inr (c, cur) ↦ elim (Option-cases (uuid.parse q.listing_id)) [
      | inl e ↦ absurd (ground arith)
      | inr (lid, p) ↦ elim (Option-cases (lookup lid db.listings)) [
        | inl e ↦ absurd (ground (arith, normalize_currency_reads chars q.currency db c.0 c.1))
        | inr (listing, at) ↦
            elim (Result-cases (linked_task uuid buyer listing (nonempty q.task_id) db)) [
              | inl e ↦
                  absurd (ground (arith, normalize_currency_reads chars q.currency db c.0 c.1))
              | inr (t, task) ↦
                  let same : c.1 ≡ db =
                    normalize_currency_reads chars q.currency db c.0 c.1 (ground arith) in
                  let same' : t.1 ≡ db =
                    linked_task_reads uuid buyer listing (nonempty q.task_id) db t.0 t.1
                      (ground arith) in
                  record {
                    buyer = buyer;
                    listing_id = lid;
                    listing = listing;
                    task = t.0;
                    amount = n;
                    scale = s;
                    currency = c.0;
                    is_buyer = b;
                    is_amount = a;
                    positive = ground arith;
                    is_currency = ground arith;
                    is_listing = p;
                    at = at;
                    apart = ground arith;
                    is_task = ground arith;
                    settled = ground arith;
                  }
            ]
      ]
    ]
  ]

  pub create_escrow-Drafted :
      create_escrow uuid chars now fresh q db ≡ ok r → Drafted uuid chars now fresh q db r
  unfolding create_escrow positive_amount
  create_escrow-Drafted h = elim (Option-cases (parse_agent_id uuid q.buyer_agent_id)) [
    | inl e ↦ absurd (ground arith)
    | inr (buyer, b) ↦ elim (Option-cases q.amount) [
      | inl e ↦ absurd (ground arith)
      | inr (d, a) ↦ elim (ℤ-cases d.units) [
        | inl (n, p) ↦ after_amount n d.scale buyer (rw (sym p) a) b h
        | inr (n, p) ↦ absurd (ground arith)
      ]
    ]
  ]

-- A row under the fresh identity has been added, with what the column keeps of the amount.
abbrev pub Inserted : ℕ → (ℕ → Escrow) → MarketDb → (ℕ × Escrow) × MarketDb → Type 0
Inserted fresh draft db r =
    (a : ℕ) × (lookup fresh db.escrows ≡ none)
    × (r ≡ ((fresh, draft a), record db { escrows = add_row fresh (draft a) db.escrows }))

pub insert_escrow-Inserted :
    (chars : Platform) (fresh n s : ℕ) (draft : ℕ → Escrow) (db : MarketDb)
    (r : (ℕ × Escrow) × MarketDb)
    → insert_escrow chars fresh n s draft db ≡ ok r
    → Inserted fresh draft db r
unfolding insert_escrow add_escrow
insert_escrow-Inserted chars fresh n s draft db r h = elim (Option-cases (chars.numeric n s)) [
  | inl e ↦ absurd (ground arith)
  | inr (a, e) ↦ (a, ground arith, ground arith)
]

-- The table after the key has been settled: as it was, or with the new row.
pub settle_key_adds :
    (chars : Platform) (fresh : ℕ) (key : Option String) (buyer listing n s : ℕ) (currency : String)
    (draft : ℕ → Escrow) (db : MarketDb) (r : (ℕ × Escrow) × MarketDb)
    → settle_key chars fresh key buyer listing n s currency draft db ≡ ok r
    → (r.1 ≡ db) ⊎ Inserted fresh draft db r
unfolding settle_key
settle_key_adds chars fresh none buyer listing n s currency draft db r h =
    inr (insert_escrow-Inserted chars fresh n s draft db r h)
settle_key_adds chars fresh (some k) buyer listing n s currency draft db r h =
    elim (Option-cases (find_row (has_key k) db.escrows)) [
      | inl e ↦ inr (insert_escrow-Inserted chars fresh n s draft db r (ground arith))
      | inr (x, e) ↦ inl (ground arith)
    ]
