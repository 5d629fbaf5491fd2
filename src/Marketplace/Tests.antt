-- ===== src/Marketplace/Tests.antt =====
-- The escrow operations on concrete requests.
use open_agent_net.Marketplace.Usage.{Use, calls_of}
use open_agent_net.Marketplace.Metered
use open_agent_net.Marketplace.Metered.{bill, metering_exact}
use open_agent_net.Prelude.{
  ℕ, ◌+◌, ◌-◌, ◌*◌, ◌/◌, ◌^◌, List, leb, String, ◌≡◌, refl, true, false, Option, none, some, [],
  ◌∷◌, str_eq, if◌then◌else◌,
}
use open_agent_net.Prelude.Int.{pos}
use open_agent_net.Db.{ok, err, lookup, update, add_row, any_row, find_row}
use open_agent_net.Identifiers.{Uuid, parse_agent_id, is_empty}
use open_agent_net.Tasks.{Task, success}
use open_agent_net.Marketplace.State.{
  held, released, AccessTier, Escrow, Listing, MarketDb, key_in_use,
}
use open_agent_net.Marketplace.Escrow.{
  Platform, EscrowRequest, create_escrow, release_escrow, linked_task, normalize_currency,
  positive_amount, settle_key, add_escrow, insert_escrow, same_amount, require_escrow,
  check_completed,
}
use open_agent_net.Marketplace.Requests.{Request, release_request, refund_request, elsewhere, run}
use open_agent_net.Marketplace.Deleted.{Deleted}
use open_agent_net.Marketplace.Payment.{Payable, release_only_if, create_escrow_again}

abbrev parse_id : String → Option ℕ
parse_id s =
    if str_eq s "a1"
    then some 1
    else if str_eq s "a2"
    then some 2
    else if str_eq s "l5"
    then some 5
    else if str_eq s "t9"
    then some 9
    else if str_eq s "e7"
    then some 7
    else none

abbrev uuid : Uuid
uuid = record { parse = parse_id; uuid5 = λ s. 0 }

-- Nine decimals at most, the last of which the column cuts.
abbrev column : ℕ → ℕ → Option ℕ
column n s = if leb s 8 then some (n * 10 ^ (8 - s)) else some (n / 10 ^ (s - 8))

abbrev chars : Platform
chars = record { upper = λ s. s; isalnum = λ s. true; numeric = column }

abbrev listing5 : Listing
listing5 = record {
  agent_id = 2;
  title = "sums";
  long_description = none;
  pricing = "{}";
  sla = "{}";
  tiers = "[]";
  access_tier = AccessTier.free;
  tier_details = "{}";
  is_public = true;
  is_featured = false;
  view_count = 0;
  created_at = 0;
  updated_at = 0;
}

abbrev task9 : Task
task9 = record {
  from_agent_id = 1;
  to_agent_id = 2;
  capability_name = "sum";
  payload = record { name = some "sum"; slug = none; payload = none; others = "{}" };
  constraints = record {
    max_latency_ms = none;
    latency_target_ms = none;
    sla_max_latency_ms = none;
    others = "{}";
  };
  conversation_id = none;
  status = success;
  result = none;
  error_code = none;
  error_message = none;
  negotiation_id = none;
  contract_id = none;
  execution_ms = none;
  created_at = 0;
  completed_at = none;
  ttl_seconds = 60;
  envelope_hash = none;
}

abbrev market : MarketDb
market = record { listings = (5, listing5) ∷ []; escrows = []; usage = []; tasks = (9, task9) ∷ [] }

abbrev request : EscrowRequest
request = record {
  buyer_agent_id = "a1";
  listing_id = "l5";
  amount = some (record { units = pos 25; scale = 1 });
  currency = " USD ";
  task_id = some "t9";
  provider_reference = none;
  idempotency_key = some "k";
  metadata = [];
}

created : (r : (ℕ × Escrow) × MarketDb) × (create_escrow uuid chars 0 7 request market ≡ ok r)
unfolding create_escrow positive_amount normalize_currency linked_task settle_key insert_escrow
    add_escrow parse_agent_id lookup find_row any_row add_row
created = (_, refl)

created_currency : created.0.0.1.currency ≡ "USD"
unfolding created
created_currency = refl

created_amount : same_amount created.0.0.1.amount 25 1 ≡ true
unfolding same_amount created
created_amount = refl

create_escrow_again_example :
    create_escrow uuid chars 3 8 request created.0.1
    ≡ (if same_amount created.0.0.1.amount 25 1 then ok created.0 else err key_in_use)
unfolding is_empty
create_escrow_again_example =
    create_escrow_again uuid chars 0 7 3 8 request market created.0 "k" 25 1 refl refl created.1

-- An amount with nine decimals is refused when it is asked for again.
abbrev fine_request : EscrowRequest
fine_request = record request { amount = some (record { units = pos 1000000001; scale = 9 }) }

fine : (r : (ℕ × Escrow) × MarketDb) × (create_escrow uuid chars 0 7 fine_request market ≡ ok r)
unfolding create_escrow positive_amount normalize_currency linked_task settle_key insert_escrow
    add_escrow parse_agent_id lookup find_row any_row add_row
fine = (_, refl)

fine_again : create_escrow uuid chars 3 8 fine_request fine.0.1 ≡ err key_in_use
unfolding create_escrow positive_amount normalize_currency linked_task settle_key insert_escrow
    add_escrow parse_agent_id lookup find_row any_row add_row same_amount fine
fine_again = refl

abbrev e7 : Escrow
e7 = record {
  listing_id = 5;
  buyer_agent_id = 1;
  seller_agent_id = 2;
  task_id = some 9;
  amount = 250000000;
  currency = "USD";
  status = held;
  provider_reference = none;
  idempotency_key = some "k";
  metadata = record { given = []; dispute = none; refund = none };
  created_at = 0;
  updated_at = 0;
  settled_at = none;
}

abbrev funded : MarketDb
funded = record market { escrows = (7, e7) ∷ [] }

-- The escrow is refunded, then its task is deleted, then a release is tried.
abbrev events : List Request
events =
    refund_request 4 "e7" "late" none
    ∷ elsewhere ((5, listing5) ∷ []) []
    ∷ release_request 5 "e7" "a1"
    ∷ []

abbrev paid7 : Escrow
paid7 = record e7 { status = released; settled_at = some 6; updated_at = 6 }

release_returns :
    release_escrow uuid 6 "e7" "a1" funded
    ≡ ok (paid7, record funded { escrows = update 7 paid7 funded.escrows })
unfolding release_escrow require_escrow check_completed parse_agent_id lookup
release_returns = refl

release_only_if_example : (id : ℕ) × (e : Escrow) × Payable uuid "e7" "a1" funded id e
release_only_if_example =
    release_only_if uuid 6 "e7" "a1" funded
      (paid7, record funded { escrows = update 7 paid7 funded.escrows }) release_returns

abbrev use_at : ℕ → String → Use
use_at n listing = record { now = n; drawn = n; listing_id = listing; agent_id = "a1"; calls = 3 }

metering_exact_example :
    calls_of 5 1
      (Metered.run 5 1 uuid (use_at 1 "l5" ∷ use_at 2 "x" ∷ use_at 3 "l5" ∷ []) market).usage
    ≡ calls_of 5 1 market.usage
      + bill 5 1 uuid (use_at 1 "l5" ∷ use_at 2 "x" ∷ use_at 3 "l5" ∷ []) market
metering_exact_example =
    metering_exact 5 1 uuid (use_at 1 "l5" ∷ use_at 2 "x" ∷ use_at 3 "l5" ∷ []) market tt
