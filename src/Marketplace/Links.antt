-- ===== src/Marketplace/Links.antt =====
-- What a change of the listings and the tasks does to the rows that refer to them: the foreign keys
-- of backend/app/models/marketplace.py. No service deletes a row of the agents.
use open_agent_net.Prelude.{ℕ, ◌≡◌, true, Bool, Option, none, some, arith, is_some, if◌then◌else◌}
use open_agent_net.Db.{Table, lookup, map_rows, select, lookup-map_rows, lookup-select-some}
use open_agent_net.Tasks.{Task}
use open_agent_net.Marketplace.State.{Escrow, Listing, MarketDb}

abbrev pub is_listed : Table Listing → ℕ → Bool
is_listed listings id = is_some (lookup id listings)

-- `task_id`: ON DELETE SET NULL.
abbrev pub linked_still : Table Task → Option ℕ → Option ℕ
linked_still tasks none = none
linked_still tasks (some t) = if is_some (lookup t tasks) then some t else none

abbrev pub unlinked : Table Task → Escrow → Escrow
unlinked tasks e = record e { task_id = linked_still tasks e.task_id }

-- `listing_id` of an escrow: ON DELETE CASCADE.
unfoldable pub remaining_escrows : Table Listing → Table Task → Table Escrow → Table Escrow
remaining_escrows listings tasks escrows =
    map_rows (unlinked tasks) (select (λ k e. is_listed listings e.listing_id) escrows)

-- Other operations put other rows in place of the listings and the tasks.
unfoldable pub replace_linked : Table Listing → Table Task → MarketDb → MarketDb
unfolding remaining_escrows
replace_linked listings tasks db = record db {
  listings = listings;
  tasks = tasks;
  escrows = remaining_escrows listings tasks db.escrows;
  usage = select (λ k u. is_listed listings u.listing_id) db.usage;
}

pub lookup-remaining_escrows :
    (listings : Table Listing) (tasks : Table Task) (escrows : Table Escrow) (id : ℕ) (e : Escrow)
    → lookup id escrows ≡ some e
    → is_listed listings e.listing_id ≡ true
    → lookup id (remaining_escrows listings tasks escrows) ≡ some (unlinked tasks e)
unfolding remaining_escrows
lookup-remaining_escrows listings tasks escrows id e at there =
    let kept = lookup-select-some (λ k d. is_listed listings d.listing_id) id e escrows at there in
    ground (
      arith,
      kept,
      lookup-map_rows (unlinked tasks) id (select (λ k d. is_listed listings d.listing_id) escrows),
    )
