-- ===== src/Marketplace/State.antt =====
-- The tables of the marketplace.
use open_agent_net.Prelude.{ℕ, String, Bool, Option, List}
use open_agent_net.Db.{Table}
use open_agent_net.Tasks.{Task}

pub data AccessTier : Type 0 where
  free paid invite_only : AccessTier

-- JSON columns that the service stores and never reads are kept as their texts.
pub record Listing : Type 0 where
  pub agent_id : ℕ
  pub title : String
  pub long_description : Option String
  pub pricing : String
  pub sla : String
  pub tiers : String
  pub access_tier : AccessTier
  pub tier_details : String
  pub is_public : Bool
  pub is_featured : Bool
  pub view_count : ℕ
  pub created_at : ℕ
  pub updated_at : ℕ

pub record Usage : Type 0 where
  pub listing_id : ℕ
  pub agent_id : ℕ
  pub calls : ℕ
  pub last_used_at : ℕ

pub data EscrowStatus : Type 0 where
  held released refunded disputed : EscrowStatus

-- The keys that a dispute and a refund write into the metadata.
pub record DisputeNote : Type 0 where
  pub dispute_reason : String
  pub disputed_by : ℕ
  pub disputed_at : ℕ

-- `str(parse_agent_id(actor) or actor)`
pub data Refunder : Type 0 where
  agent : ℕ → Refunder
  text : String → Refunder

pub record RefundNote : Type 0 where
  pub refund_reason : String
  pub refunded_by : Option Refunder
  pub refunded_at : ℕ

-- `metadata`: what the buyer gave, and the notes that the service adds.
pub record Metadata : Type 0 where
  pub given : List (String × String)
  pub dispute : Option DisputeNote
  pub refund : Option RefundNote

-- `amount` is the value that the column `Numeric(20, 8)` holds, in units of 10^-8.
pub record Escrow : Type 0 where
  pub listing_id : ℕ
  pub buyer_agent_id : ℕ
  pub seller_agent_id : ℕ
  pub task_id : Option ℕ
  pub amount : ℕ
  pub currency : String
  pub status : EscrowStatus
  pub provider_reference : Option String
  pub idempotency_key : Option String
  pub metadata : Metadata
  pub created_at : ℕ
  pub updated_at : ℕ
  pub settled_at : Option ℕ

pub record MarketDb : Type 0 where
  pub listings : Table Listing
  pub escrows : Table Escrow
  pub usage : Table Usage
  pub tasks : Table Task

pub data Error : Type 0 where
  already_listed invalid_agent_id no_listing_for_agent listing_not_found : Error
  invalid_buyer amount_not_decimal amount_not_positive invalid_currency invalid_listing_id : Error
  own_listing invalid_task_id task_not_found participants_differ key_in_use : Error
  invalid_escrow_id escrow_not_found not_a_participant reason_required task_not_completed : Error
  cannot_release cannot_dispute cannot_refund : EscrowStatus → Error
  integrity_error multiple_rows numeric_out_of_range : Error
