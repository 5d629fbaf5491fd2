-- ===== src/Registry/Service.antt =====
-- `RegistryService` (backend/app/services/registry/service.py). The capability index is in Redis.
use Prim.Native.String.{◌++◌}
use open_agent_net.Prelude.{
  ℕ, ◌+◌, max, String, Bool, true, false, not, ◌&&◌, ◌||◌, Option, none, some, [], ◌∷◌, ◌==◌,
  str_eq, if◌then◌else◌, is_some,
}
use open_agent_net.Identifiers.{build_did, derive_agent_id, parse_agent_id}
use open_agent_net.Agents.{Agent, AgentStatus, ApiKey}
use open_agent_net.Db.{
  ok, pure, raise_if, gets, modify, or_raise, scalar_one_or_none, ◌>>=◌, ◌>>◌, Table, lookup,
  update, map_rows, add_row, select, any_row, find_row,
}
use open_agent_net.Registry.State.{
  Manifest, Updates, AgentVersion, RegistryDb, Libraries, Draws, invalid_key, invalid_proof,
  already_registered, invalid_owner, agent_not_found, key_in_use, multiple_results, integrity_error,
  Action, take_chars,
}

-- `derive_agent_id_from_bytes`
unfoldable pub derive_agent_id_from_bytes : Libraries → String → ℕ
derive_agent_id_from_bytes lib bytes = derive_agent_id lib.uuid (lib.digest bytes)

unfoldable pub did_of : Libraries → ℕ → String
did_of lib id = build_did (lib.spell id)

abbrev pub key_id_of : String → String
key_id_of did = did ++ "#key-1"

-- `func.max(AgentVersion.revision)` of an agent, or 0.
unfoldable pub latest_revision : ℕ → Table AgentVersion → ℕ
latest_revision agent [] = 0
latest_revision agent ((id, v) ∷ rows) =
    let rest = latest_revision agent rows in
    if v.agent_id == agent then max v.revision rest else rest

abbrev pub same_revision : ℕ → ℕ → AgentVersion → Bool
same_revision agent revision v = v.agent_id == agent && v.revision == revision

abbrev pub version_row : ℕ → ℕ → ℕ → Agent → AgentVersion
version_row now agent revision a = record {
  agent_id = agent;
  revision = revision;
  version = a.version;
  endpoint = a.endpoint;
  capabilities = a.capabilities;
  metadata = a.metadata;
  created_at = now;
}

-- `_record_version`, with the flush.
unfoldable pub record_version : ℕ → ℕ → ℕ → Agent → Action AgentVersion
record_version now drawn agent a = do
  latest ← gets (λ db. latest_revision agent db.versions)
  taken ← gets (λ db.
      is_some (lookup drawn db.versions) || any_row (same_revision agent (latest + 1)) db.versions)
  raise_if taken integrity_error
  modify (λ db. record db {
    versions = add_row drawn (version_row now agent (latest + 1) a) db.versions;
  })
  pure (version_row now agent (latest + 1) a)

abbrev pub new_key : Libraries → ℕ → String → ApiKey
new_key lib agent raw = record {
  agent_id = agent;
  key_hash = lib.hash_api_key raw;
  key_prefix = take_chars 12 raw;
  is_active = true;
  last_used_at = none;
}

abbrev pub same_hash : String → ApiKey → Bool
same_hash hash k = str_eq k.key_hash hash

-- `db.add(api_key)` and the flush; the hash is unique.
unfoldable pub add_key : ℕ → ApiKey → Action (Unit {0})
add_key drawn k = do
  taken ← gets (λ db. is_some (lookup drawn db.keys) || any_row (same_hash k.key_hash) db.keys)
  raise_if taken integrity_error
  modify (λ db. record db { keys = add_row drawn k db.keys })

abbrev pub owner_given : Libraries → Option String → Bool
owner_given lib none = true
owner_given lib (some spelled) = is_some (lib.uuid.parse spelled)

abbrev pub new_agent : Libraries → ℕ → ℕ → Manifest → Agent
new_agent lib now id m = record {
  did = did_of lib id;
  name = m.name;
  version = m.version;
  status = AgentStatus.active;
  endpoint = m.endpoint;
  public_key = m.public_key;
  key_id = key_id_of (did_of lib id);
  capabilities = m.capabilities;
  metadata = m.metadata;
  others = m.others;
  last_seen_at = none;
  created_at = now;
  updated_at = now;
  deleted_at = none;
}

abbrev pub is_registered : ℕ → String → ℕ → Agent → Bool
is_registered id key j a = j == id || str_eq a.public_key key

abbrev pub same_did : String → Agent → Bool
same_did did a = str_eq a.did did

-- The flush of the agent's row.
unfoldable pub add_agent : ℕ → Agent → Action (Unit {0})
add_agent id a = do
  taken ← gets (λ db. is_some (lookup id db.agents) || any_row (same_did a.did) db.agents)
  raise_if taken integrity_error
  modify (λ db. record db { agents = add_row id a db.agents })

unfoldable pub register : Libraries → ℕ → Draws → Manifest → String → String → Action ℕ
register lib now draws m timestamp signature = do
  bytes ← or_raise (lib.read_key m.public_key) invalid_key
  raise_if (not (lib.proves m.public_key signature m timestamp)) invalid_proof
  existing ←
      gets
        (λ db. select (is_registered (derive_agent_id_from_bytes lib bytes) m.public_key) db.agents)
  found ← scalar_one_or_none multiple_results existing
  raise_if (is_some found) already_registered
  raise_if (not (owner_given lib m.owner_id)) invalid_owner
  let id = derive_agent_id_from_bytes lib bytes in
      do
        add_agent id (new_agent lib now id m)
        add_key draws.key (new_key lib id draws.api_key)
        record_version now draws.version id (new_agent lib now id m)
        pure id

abbrev pub is_present : Agent → Bool
is_present a = not (is_some a.deleted_at)

abbrev pub present_agent : Option Agent → Option Agent
present_agent none = none
present_agent (some a) = if is_present a then some a else none

abbrev pub kept_or {ℓ} : {A : Type ℓ} → Option A → A → A
kept_or none old = old
kept_or (some a) old = a

-- The assignments of the loop over the updates: `id`, `did` and the keys are not among the fields.
abbrev pub updated : ℕ → Updates → Agent → Agent
updated now u a = record a {
  version = kept_or u.version a.version;
  endpoint = kept_or u.endpoint a.endpoint;
  capabilities = kept_or u.capabilities a.capabilities;
  metadata = kept_or u.metadata a.metadata;
  others = kept_or u.others a.others;
  updated_at = now;
}

abbrev pub put_agent : ℕ → Agent → RegistryDb → RegistryDb
put_agent id a db = record db { agents = update id a db.agents }

unfoldable pub update_agent : Libraries → ℕ → ℕ → String → Updates → Action Agent
update_agent lib now drawn spelled u = do
  id ← or_raise (parse_agent_id lib.uuid spelled) agent_not_found
  found ← gets (λ db. present_agent (lookup id db.agents))
  a ← or_raise found agent_not_found
  modify (put_agent id (updated now u a))
  record_version now drawn id (updated now u a)
  pure (updated now u a)

abbrev pub removed : ℕ → Agent → Agent
removed now a = record a {
  status = AgentStatus.deregistered;
  deleted_at = some now;
  updated_at = now;
}

unfoldable pub deregister_agent : Libraries → ℕ → String → Action (Unit {0})
deregister_agent lib now spelled = do
  id ← or_raise (parse_agent_id lib.uuid spelled) agent_not_found
  found ← gets (λ db. lookup id db.agents)
  a ← or_raise found agent_not_found
  modify (put_agent id (removed now a))

abbrev pub uses_key : ℕ → String → ℕ → Agent → Bool
uses_key id key j a = str_eq a.public_key key && not (j == id)

abbrev pub rekeyed : Libraries → ℕ → String → String → Agent → Agent
rekeyed lib now key bytes a = record a {
  public_key = key;
  key_id = key_id_of (did_of lib (derive_agent_id_from_bytes lib bytes));
  updated_at = now;
}

-- `key.is_active = False` for every key of the agent.
abbrev pub revoke : ℕ → ApiKey → ApiKey
revoke agent k = if k.agent_id == agent then record k { is_active = false } else k

abbrev pub revoke_all : ℕ → RegistryDb → RegistryDb
revoke_all agent db = record db { keys = map_rows (revoke agent) db.keys }

unfoldable pub rotate_key : Libraries → ℕ → Draws → String → String → Action Agent
rotate_key lib now draws spelled key = do
  id ← or_raise (parse_agent_id lib.uuid spelled) agent_not_found
  found ← gets (λ db. present_agent (lookup id db.agents))
  a ← or_raise found agent_not_found
  bytes ← or_raise (lib.read_key key) invalid_key
  existing ← gets (λ db. select (uses_key id key) db.agents)
  other ← scalar_one_or_none multiple_results existing
  raise_if (is_some other) key_in_use
  modify (put_agent id (rekeyed lib now key bytes a))
  modify (revoke_all id)
  add_key draws.key (new_key lib id draws.api_key)
  pure (rekeyed lib now key bytes a)

abbrev pub is_usable : String → ApiKey → Bool
is_usable hash k = same_hash hash k && k.is_active

-- The time of the last use is written before the agent is looked up.
unfoldable pub authenticate_api_key : Libraries → ℕ → String → Action (Option (ℕ × Agent))
authenticate_api_key lib now raw db = elim (find_row (is_usable (lib.hash_api_key raw)) db.keys) [
  | none ↦ ok (none, db)
  | some (key, k) ↦
      let used = record db { keys = update key (record k { last_used_at = some now }) db.keys } in
      elim (lookup k.agent_id db.agents) [
        | none ↦ ok (none, used)
        | some a ↦ ok (some (k.agent_id, a), used)
      ]
]
