-- ===== src/Marketplace/Escrow.antt =====
-- The escrow operations of `MarketplaceService`.
use open_agent_net.Prelude.{
  ℕ, ◌*◌, ◌^◌, String, Bool, true, false, not, ◌&&◌, ◌||◌, Option, none, some, List, ltb, leb, ◌==◌,
  if◌then◌else◌, is_some, str_eq,
}
use open_agent_net.Prelude.Int.{ℤ, pos, negsuc}
use open_agent_net.Db.{
  Tx, pure, raise, gets, or_raise, raise_if, modify, ◌>>=◌, ◌>>◌, lookup, update, add_row, any_row,
  find_row,
}
use open_agent_net.Identifiers.{Uuid, parse_agent_id, strip, is_empty, count_chars}
use open_agent_net.Tasks.{Task, is_success}
use open_agent_net.Marketplace.State.{
  EscrowStatus, held, released, refunded, disputed, Escrow, Listing, MarketDb, Refunder, Error,
  invalid_buyer, amount_not_decimal, amount_not_positive, invalid_currency, invalid_listing_id,
  listing_not_found, own_listing, invalid_task_id, task_not_found, participants_differ, key_in_use,
  invalid_escrow_id, escrow_not_found, not_a_participant, reason_required, task_not_completed,
  cannot_release, cannot_dispute, cannot_refund, integrity_error, numeric_out_of_range,
}

abbrev pub Action : Type 0 → Type 0
Action A = Tx MarketDb Error A

-- What the service takes from outside: the character tables of `str.upper` and `str.isalnum`, and
-- what a column `Numeric(20, 8)` stores of n·10^-s, in units of 10^-8, where it has room for it.
pub record Platform : Type 0 where
  pub upper : String → String
  pub isalnum : String → Bool
  pub numeric : ℕ → ℕ → Option ℕ

-- A finite `Decimal`, units·10^-scale, which is not rounded.
pub record Decimal : Type 0 where
  pub units : ℤ
  pub scale : ℕ

-- The arguments of `create_escrow`. `amount` is `none` where the text is no decimal; the texts of
-- NaN and the infinities are left out.
pub record EscrowRequest : Type 0 where
  pub buyer_agent_id : String
  pub listing_id : String
  pub amount : Option Decimal
  pub currency : String
  pub task_id : Option String
  pub provider_reference : Option String
  pub idempotency_key : Option String
  pub metadata : List (String × String)

-- `if normalized_amount <= 0: raise`
unfoldable pub positive_amount : ℤ → Action ℕ
positive_amount (pos n) = do raise_if (leb n 0) amount_not_positive; pure n
positive_amount (negsuc n) = raise amount_not_positive

unfoldable pub normalize_currency : Platform → String → Action String
normalize_currency chars currency = do
  let normalized = chars.upper (strip currency)
  raise_if
      (is_empty normalized || ltb 12 (count_chars normalized) || not (chars.isalnum normalized))
      invalid_currency
  pure normalized

-- `if task_id:` is false for the empty text.
abbrev pub nonempty : Option String → Option String
nonempty none = none
nonempty (some s) = if is_empty s then none else some s

-- The linked task, whose sender is the buyer and whose recipient is the seller.
unfoldable pub linked_task : Uuid → ℕ → Listing → Option String → Action (Option ℕ)
linked_task uuid buyer listing none = pure none
linked_task uuid buyer listing (some text) = do
  id ← or_raise (uuid.parse text) invalid_task_id
  found ← gets (λ db. lookup id db.tasks)
  task ← or_raise found task_not_found
  raise_if (not (task.from_agent_id == buyer) || not (task.to_agent_id == listing.agent_id))
      participants_differ
  pure (some id)

abbrev pub same_text : String → Option String → Bool
same_text k none = false
same_text k (some j) = str_eq j k

abbrev pub has_key : String → Escrow → Bool
has_key k e = same_text k e.idempotency_key

abbrev pub same_id : ℕ → Option ℕ → Bool
same_id k none = false
same_id k (some j) = j == k

-- `idempotency_key` and `task_id` are unique columns.
abbrev pub conflicts : Escrow → Escrow → Bool
conflicts e d =
    elim e.idempotency_key [ none ↦ false | some k ↦ has_key k d ]
    || elim e.task_id [ none ↦ false | some k ↦ same_id k d.task_id ]

unfoldable pub add_escrow : ℕ → Escrow → Action (Unit {0})
add_escrow id e db =
    (raise_if (is_some (lookup id db.escrows) || any_row (conflicts e) db.escrows) integrity_error
        >> modify (λ s. record s { escrows = add_row id e s.escrows }))
      db

abbrev pub new_escrow :
    ℕ → EscrowRequest → ℕ → ℕ → Listing → Option ℕ → ℕ → String → Option String → Escrow
new_escrow now q buyer listing_id listing task amount currency key = record {
  listing_id = listing_id;
  buyer_agent_id = buyer;
  seller_agent_id = listing.agent_id;
  task_id = task;
  amount = amount;
  currency = currency;
  status = held;
  provider_reference = q.provider_reference;
  idempotency_key = key;
  metadata = record { given = q.metadata; dispute = none; refund = none };
  created_at = now;
  updated_at = now;
  settled_at = none;
}

-- `existing.amount == normalized_amount`, on a stored amount and on n·10^-s.
unfoldable pub same_amount : ℕ → ℕ → ℕ → Bool
same_amount stored n s = stored * 10 ^ s == n * 10 ^ 8

-- The stored escrow is for the buyer, the listing, the amount and the currency of the request.
abbrev pub agrees : Escrow → ℕ → ℕ → ℕ → ℕ → String → Bool
agrees old buyer listing_id n s currency =
    old.buyer_agent_id == buyer
    && old.listing_id == listing_id
    && same_amount old.amount n s
    && str_eq old.currency currency

-- The insert, whose column rounds the amount. The row is returned as the table has it, while the answer
-- of the request that adds it shows the amount with the digits that were given.
unfoldable pub insert_escrow : Platform → ℕ → ℕ → ℕ → (ℕ → Escrow) → Action (ℕ × Escrow)
insert_escrow chars id n s draft = do
  amount ← or_raise (chars.numeric n s) numeric_out_of_range
  add_escrow id (draft amount)
  pure (id, draft amount)

-- The escrow that the key already stands for, or a new row.
unfoldable pub settle_key :
    Platform → ℕ → Option String → ℕ → ℕ → ℕ → ℕ → String → (ℕ → Escrow) → Action (ℕ × Escrow)
settle_key chars id none buyer listing_id n s currency draft = insert_escrow chars id n s draft
settle_key chars id (some key) buyer listing_id n s currency draft = do
  existing ← gets (λ db. find_row (has_key key) db.escrows)
  elim existing [
    | none ↦ insert_escrow chars id n s draft
    | some old ↦ do raise_if (not (agrees old.1 buyer listing_id n s currency)) key_in_use; pure old
  ]

unfoldable pub create_escrow : Uuid → Platform → ℕ → ℕ → EscrowRequest → Action (ℕ × Escrow)
create_escrow uuid chars now fresh q = do
  buyer ← or_raise (parse_agent_id uuid q.buyer_agent_id) invalid_buyer
  given ← or_raise q.amount amount_not_decimal
  n ← positive_amount given.units
  currency ← normalize_currency chars q.currency
  listing_id ← or_raise (uuid.parse q.listing_id) invalid_listing_id
  found ← gets (λ db. lookup listing_id db.listings)
  listing ← or_raise found listing_not_found
  raise_if (listing.agent_id == buyer) own_listing
  task ← linked_task uuid buyer listing (nonempty q.task_id)
  let key = nonempty q.idempotency_key
  settle_key chars fresh key buyer listing_id n given.scale currency
      (λ amount. new_escrow now q buyer listing_id listing task amount currency key)

-- `_require_escrow`
unfoldable pub require_escrow : Uuid → String → Action (ℕ × Escrow)
require_escrow uuid text = do
  id ← or_raise (uuid.parse text) invalid_escrow_id
  found ← gets (λ db. lookup id db.escrows)
  e ← or_raise found escrow_not_found
  pure (id, e)

-- `_authorize_escrow_participant`
abbrev pub is_participant : Option ℕ → Escrow → Bool
is_participant none e = false
is_participant (some a) e = a == e.buyer_agent_id || a == e.seller_agent_id

abbrev pub is_held : EscrowStatus → Bool
is_held held = true
is_held _ = false

abbrev pub is_refundable : EscrowStatus → Bool
is_refundable held = true
is_refundable disputed = true
is_refundable _ = false

abbrev pub write_back : ℕ → Escrow → MarketDb → MarketDb
write_back id e db = record db { escrows = update id e db.escrows }

-- `not task or task.status not in COMPLETED_TASK_STATUSES`
abbrev pub is_incomplete : Option Task → Bool
is_incomplete none = true
is_incomplete (some t) = not (is_success t.status)

unfoldable pub check_completed : Option ℕ → Action (Unit {0})
check_completed none = pure tt
check_completed (some id) = do
  task ← gets (λ db. lookup id db.tasks)
  raise_if (is_incomplete task) task_not_completed

unfoldable pub release_escrow : Uuid → ℕ → String → String → Action Escrow
unfolding require_escrow
release_escrow uuid now escrow_id actor_agent_id = do
  (id, e) ← require_escrow uuid escrow_id
  raise_if (not (is_participant (parse_agent_id uuid actor_agent_id) e)) not_a_participant
  raise_if (not (is_held e.status)) (cannot_release e.status)
  check_completed e.task_id
  let e' = record e { status = released; settled_at = some now; updated_at = now }
  modify (write_back id e')
  pure e'

-- The agent that `_authorize_escrow_participant` has let through.
abbrev pub actor_or_zero : Option ℕ → ℕ
actor_or_zero none = 0
actor_or_zero (some a) = a

unfoldable pub dispute_escrow : Uuid → ℕ → String → String → String → Action Escrow
unfolding require_escrow
dispute_escrow uuid now escrow_id actor_agent_id reason = do
  (id, e) ← require_escrow uuid escrow_id
  let actor = parse_agent_id uuid actor_agent_id
  raise_if (not (is_participant actor e)) not_a_participant
  raise_if (not (is_held e.status)) (cannot_dispute e.status)
  raise_if (is_empty (strip reason)) reason_required
  let e' = record e {
    status = disputed;
    updated_at = now;
    metadata = record e.metadata {
      dispute = some (record {
        dispute_reason = strip reason;
        disputed_by = actor_or_zero actor;
        disputed_at = now;
      });
    };
  }
  modify (write_back id e')
  pure e'

abbrev pub refunder : Uuid → Option String → Option Refunder
refunder uuid none = none
refunder uuid (some s) = elim (parse_agent_id uuid s) [
  | none ↦ some (Refunder.text s)
  | some a ↦ some (Refunder.agent a)
]

-- `refund_escrow` is the operator's: no participant is checked.
unfoldable pub refund_escrow : Uuid → ℕ → String → String → Option String → Action Escrow
unfolding require_escrow
refund_escrow uuid now escrow_id reason actor_agent_id = do
  (id, e) ← require_escrow uuid escrow_id
  raise_if (not (is_refundable e.status)) (cannot_refund e.status)
  raise_if (is_empty (strip reason)) reason_required
  let e' = record e {
    status = refunded;
    settled_at = some now;
    updated_at = now;
    metadata = record e.metadata {
      refund = some (record {
        refund_reason = strip reason;
        refunded_by = refunder uuid (nonempty actor_agent_id);
        refunded_at = now;
      });
    };
  }
  modify (write_back id e')
  pure e'
