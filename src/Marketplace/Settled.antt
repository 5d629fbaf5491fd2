-- ===== src/Marketplace/Settled.antt =====
-- How one request, and a sequence of requests, moves an escrow.
use open_agent_net.Prelude.{ℕ, String, ◌≡◌, true, Option, some, arith, inl, inr, Option-cases}
use open_agent_net.Db.{ok, lookup, update}
use open_agent_net.Identifiers.{Uuid}
use open_agent_net.Marketplace.State.{held, released, refunded, disputed, Escrow, MarketDb}
use open_agent_net.Marketplace.Escrow.{
  require_escrow, is_refundable, check_completed, release_escrow, dispute_escrow, refund_escrow,
}

-- The escrows of a table are those of another, but for one, which moved on.
pub data Moved (now : ℕ) (e e' : Escrow) : Type 0 where
  release :
      e.status ≡ held
      → e' ≡ record e { status = released; settled_at = some now; updated_at = now }
      → Moved now e e'
  dispute :
      e.status ≡ held
      → e' ≡ record e { status = disputed; updated_at = now; metadata = e'.metadata }
      → Moved now e e'
  refund :
      is_refundable e.status ≡ true
      → e' ≡ record e {
        status = refunded;
        settled_at = some now;
        updated_at = now;
        metadata = e'.metadata;
      }
      → Moved now e e'

-- A request that returned has rewritten one row.
pub record Settles (now : ℕ) (db : MarketDb) (r : Escrow × MarketDb) : Type 0 where
  pub id : ℕ
  pub e : Escrow
  pub at : lookup id db.escrows ≡ some e
  pub moved : Moved now e r.0
  pub stored : r.1 ≡ record db { escrows = update id r.0 db.escrows }

module _ (uuid : Uuid) (now : ℕ) (text : String) (db : MarketDb) (r : Escrow × MarketDb) where
  -- The row that `_require_escrow` found.
  required :
      (id : ℕ)
      → uuid.parse text ≡ some id
      → (e : Escrow) → lookup id db.escrows ≡ some e
      → require_escrow uuid text db ≡ ok ((id, e), db)
  unfolding require_escrow
  required id p e q = ground arith

  pub refund-Settles :
      (reason : String) (actor : Option String)
      → refund_escrow uuid now text reason actor db ≡ ok r
      → Settles now db r
  unfolding refund_escrow
  refund-Settles reason actor h = elim (Option-cases (uuid.parse text)) [
    | inl p ↦ absurd (ground arith)
    | inr (id, p) ↦ elim (Option-cases (lookup id db.escrows)) [
      | inl q ↦ absurd (ground arith)
      | inr (e, q) ↦ record {
        id = id;
        e = e;
        at = q;
        moved = refund (ground arith) (ground arith);
        stored = ground arith;
      }
    ]
  ]

  pub dispute-Settles :
      (who reason : String) → dispute_escrow uuid now text who reason db ≡ ok r → Settles now db r
  unfolding dispute_escrow
  dispute-Settles who reason h = elim (Option-cases (uuid.parse text)) [
    | inl p ↦ absurd (ground arith)
    | inr (id, p) ↦ elim (Option-cases (lookup id db.escrows)) [
      | inl q ↦ absurd (ground arith)
      | inr (e, q) ↦ record {
        id = id;
        e = e;
        at = q;
        moved = dispute (ground arith) (ground arith);
        stored = ground arith;
      }
    ]
  ]

  pub release-Settles :
      (who : String) → release_escrow uuid now text who db ≡ ok r → Settles now db r
  unfolding release_escrow check_completed
  release-Settles who h = elim (Option-cases (uuid.parse text)) [
    | inl p ↦ absurd (ground arith)
    | inr (id, p) ↦ elim (Option-cases (lookup id db.escrows)) [
      | inl q ↦ absurd (ground arith)
      | inr (e, q) ↦ record {
        id = id;
        e = e;
        at = q;
        moved = release (ground arith) (ground arith);
        stored = ground arith;
      }
    ]
  ]
