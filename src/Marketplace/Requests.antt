-- ===== src/Marketplace/Requests.antt =====
-- Sequences of escrow requests, interleaved with what other operations do to listings and tasks.
use open_agent_net.Prelude.{ℕ, String, ◌≡◌, true, false, Option, none, some, List, [], ◌∷◌, ◌⊎◌}
use open_agent_net.Db.{Table, get_db, lookup}
use open_agent_net.Identifiers.{Uuid}
use open_agent_net.Tasks.{Task}
use open_agent_net.Marketplace.State.{
  EscrowStatus, held, refunded, disputed, Escrow, Listing, MarketDb,
}
use open_agent_net.Marketplace.Escrow.{
  Platform, EscrowRequest, create_escrow, release_escrow, dispute_escrow, refund_escrow,
  is_refundable,
}
use open_agent_net.Marketplace.Links.{is_listed, replace_linked}

pub data Request : Type 0 where
  create_escrow_request : ℕ → ℕ → EscrowRequest → Request
  release_request : ℕ → String → String → Request
  dispute_request : ℕ → String → String → String → Request
  refund_request : ℕ → String → String → Option String → Request
  -- Other operations put other rows in place of the listings and the tasks.
  elsewhere : Table Listing → Table Task → Request

abbrev pub step : Uuid → Platform → Request → MarketDb → MarketDb
step uuid chars (create_escrow_request now fresh q) db =
    get_db (create_escrow uuid chars now fresh q) db
step uuid chars (release_request now id who) db = get_db (release_escrow uuid now id who) db
step uuid chars (dispute_request now id who reason) db =
    get_db (dispute_escrow uuid now id who reason) db
step uuid chars (refund_request now id reason who) db =
    get_db (refund_escrow uuid now id reason who) db
step uuid chars (elsewhere listings tasks) db = replace_linked listings tasks db

pub run : Uuid → Platform → List Request → MarketDb → MarketDb
run uuid chars [] db = db
run uuid chars (q ∷ qs) db = run uuid chars qs (step uuid chars q db)

-- The status of an escrow may move from `a` to `b`.
pub data Leads : EscrowStatus → EscrowStatus → Type 0 where
  stay : (a : EscrowStatus) → Leads a a
  settle : (b : EscrowStatus) → Leads held b
  give_back : Leads disputed refunded

-- The request leaves the listing in its table.
abbrev pub Keeps : ℕ → Request → Type 0
Keeps listing (elsewhere listings tasks) = is_listed listings listing ≡ true
Keeps listing _ = Unit

-- What no request may change; the task may be unlinked, since it may be deleted.
abbrev pub SameTerms : Escrow → Escrow → Type 0
SameTerms e e' =
    (e'.listing_id ≡ e.listing_id)
    × (e'.buyer_agent_id ≡ e.buyer_agent_id)
    × (e'.seller_agent_id ≡ e.seller_agent_id)
    × ((e'.task_id ≡ e.task_id) ⊎ (e'.task_id ≡ none))
    × (e'.amount ≡ e.amount)
    × (e'.currency ≡ e.currency)

-- The row `id` is still there, with its terms, in a status that the old one leads to; a row that is
-- settled is the same in every column but the link to its task.
pub record Tracks (id : ℕ) (e : Escrow) (db : MarketDb) : Type 0 where
  pub now_is : Escrow
  pub at : lookup id db.escrows ≡ some now_is
  pub terms : SameTerms e now_is
  pub leads : Leads e.status now_is.status
  pub frozen : is_refundable e.status ≡ false → now_is ≡ record e { task_id = now_is.task_id }
