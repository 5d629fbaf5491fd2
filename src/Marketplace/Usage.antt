-- ===== src/Marketplace/Usage.antt =====
-- Metering: `record_usage` and `get_metering` of backend/app/services/marketplace/service.py. The numbers
-- of calls are not negative.
use open_agent_net.Prelude.{
  ℕ, ◌+◌, ◌≡◌, String, Bool, false, not, ◌&&◌, ◌||◌, Option, none, some, [], ◌∷◌, ◌==◌,
  if◌then◌else◌, is_some, arith, inl, inr, Bool-cases,
}
use open_agent_net.Identifiers.{Uuid, is_empty, parse_agent_id}
use open_agent_net.Db.{
  ok, err, Tx, pure, gets, or_raise, raise_if, scalar_one_or_none, ◌>>=◌, ◌>>◌, Table, lookup,
  update, add_row, select,
}
use open_agent_net.Marketplace.State.{
  Usage, MarketDb, Error, invalid_listing_id, listing_not_found, invalid_agent_id, integrity_error,
  multiple_rows, AccessTier,
}

abbrev pub Action : Type 0 → Type 0
Action A = Tx MarketDb Error A

abbrev pub is_use : ℕ → ℕ → ℕ → Usage → Bool
is_use listing agent id u = u.listing_id == listing && u.agent_id == agent

abbrev pub put_usage : Table Usage → MarketDb → MarketDb
put_usage t db = record db { usage = t }

-- The row is created with the first use, and counts from then on.
unfoldable pub count_use : ℕ → ℕ → ℕ → ℕ → ℕ → Option (ℕ × Usage) → Action ℕ
count_use now drawn listing agent calls none db =
    if is_some (lookup drawn db.usage)
    then err integrity_error
    else ok (
      calls,
      put_usage
          (add_row drawn
            (record { listing_id = listing; agent_id = agent; calls = calls; last_used_at = now })
            db.usage)
          db,
    )
count_use now drawn listing agent calls (some (id, u)) db = ok (
  u.calls + calls,
  put_usage (update id (record u { calls = u.calls + calls; last_used_at = now }) db.usage) db,
)

-- A use: the time, the drawn key, the listing, the agent and the number of calls.
pub record Use : Type 0 where
  pub now : ℕ
  pub drawn : ℕ
  pub listing_id : String
  pub agent_id : String
  pub calls : ℕ

unfoldable pub record_usage : Uuid → Use → Action ℕ
record_usage uuid q = do
  listing ← or_raise (uuid.parse q.listing_id) invalid_listing_id
  found ← gets (λ db. lookup listing db.listings)
  raise_if (not (is_some found)) listing_not_found
  agent ← or_raise (parse_agent_id uuid q.agent_id) invalid_agent_id
  rows ← gets (λ db. select (is_use listing agent) db.usage)
  usage ← scalar_one_or_none multiple_rows rows
  count_use q.now q.drawn listing agent q.calls usage

pub record Metering : Type 0 where
  pub access_tier : AccessTier
  pub items : Table Usage

abbrev pub is_metered : Uuid → ℕ → Option String → ℕ → Usage → Bool
is_metered uuid listing none id u = u.listing_id == listing
is_metered uuid listing (some text) id u =
    u.listing_id == listing
    && (is_empty text
        || elim (parse_agent_id uuid text) [ none ↦ false | some agent ↦ u.agent_id == agent ])

unfoldable pub get_metering : Uuid → String → Option String → Action Metering
get_metering uuid text agent = do
  id ← or_raise (uuid.parse text) invalid_listing_id
  found ← gets (λ db. lookup id db.listings)
  listing ← or_raise found listing_not_found
  rows ← gets (λ db. select (is_metered uuid id agent) db.usage)
  pure (record { access_tier = listing.access_tier; items = rows })

-- The calls that the rows of a listing and an agent count.
unfoldable pub calls_of : ℕ → ℕ → Table Usage → ℕ
calls_of listing agent [] = 0
calls_of listing agent ((id, u) ∷ rows) =
    (if is_use listing agent id u then u.calls else 0) + calls_of listing agent rows

abbrev pub charge : ℕ → ℕ → Usage → ℕ
charge listing agent u = if is_use listing agent 0 u then u.calls else 0

pub calls_of-add_row :
    (l a k : ℕ) (v : Usage) (t : Table Usage)
    → calls_of l a (add_row k v t) ≡ calls_of l a t + charge l a v
unfolding calls_of add_row
calls_of-add_row l a k v [] = ground arith
calls_of-add_row l a k v ((j, u) ∷ t) = ground (arith, calls_of-add_row l a k v t)

pub calls_of-update :
    (l a k : ℕ) (u v : Usage) (t : Table Usage)
    → lookup k t ≡ some u
    → calls_of l a (update k v t) + charge l a u ≡ calls_of l a t + charge l a v
unfolding calls_of update lookup
calls_of-update l a k u v [] h = cc
calls_of-update l a k u v ((j, w) ∷ t) h = elim (Bool-cases (j == k)) [
  | inl same ↦ ground arith
  | inr other ↦ ground (arith, calls_of-update l a k u v t)
]
