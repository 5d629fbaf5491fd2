-- ===== src/Marketplace/Deleted.antt =====
-- `delete_listing` of backend/app/services/marketplace/service.py, and what becomes of the escrows.
use open_agent_net.Prelude.{ℕ, String, ◌≡◌, Bool, false, not, Option, none, some, ◌==◌}
use open_agent_net.Db.{err, gets, or_raise, modify, ◌>>=◌, lookup, delete, select, find_row}
use open_agent_net.Identifiers.{Uuid, parse_agent_id}
use open_agent_net.Marketplace.State.{
  Escrow, Listing, MarketDb, no_listing_for_agent, escrow_not_found,
}
use open_agent_net.Marketplace.Escrow.{Action, release_escrow, dispute_escrow, refund_escrow}

-- `MarketplaceListing.agent_id == parse_agent_id(agent_id)`, which no row meets for an unread identity.
abbrev pub is_listing_of : Option ℕ → Listing → Bool
is_listing_of none l = false
is_listing_of (some a) l = l.agent_id == a

-- The row, and with it the escrows and the usage that refer to it.
unfoldable pub drop_listing : ℕ → MarketDb → MarketDb
drop_listing id db = record db {
  listings = delete id db.listings;
  escrows = select (λ k e. not (e.listing_id == id)) db.escrows;
  usage = select (λ k u. not (u.listing_id == id)) db.usage;
}

unfoldable pub delete_listing : Uuid → String → Action (Unit {0})
delete_listing uuid spelled = do
  found ← gets (λ db. find_row (is_listing_of (parse_agent_id uuid spelled)) db.listings)
  row ← or_raise found no_listing_for_agent
  modify (drop_listing row.0)

-- Every request on the escrow is answered as for one that never was.
abbrev pub IsLost : Uuid → ℕ → MarketDb → Type 0
IsLost uuid id db =
    (now : ℕ) (text who reason : String) (operator : Option String)
    → uuid.parse text ≡ some id
    → (release_escrow uuid now text who db ≡ err escrow_not_found)
      × (dispute_escrow uuid now text who reason db ≡ err escrow_not_found)
      × (refund_escrow uuid now text reason operator db ≡ err escrow_not_found)

-- What the deletion of the listing `id`, of the agent, leaves behind.
pub record Deleted (uuid : Uuid) (agent : ℕ) (db after : MarketDb) : Type 0 where
  pub id : ℕ
  pub listing : Listing
  pub was : lookup id db.listings ≡ some listing
  pub owned : listing.agent_id ≡ agent
  pub gone : lookup id after.listings ≡ none
  pub lost :
      (k : ℕ) (e : Escrow) → lookup k db.escrows ≡ some e → e.listing_id ≡ id → IsLost uuid k after
  pub kept :
      (k : ℕ) (e : Escrow)
      → lookup k db.escrows ≡ some e
      → (e.listing_id == id) ≡ false
      → lookup k after.escrows ≡ some e
