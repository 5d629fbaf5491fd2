-- ===== src/Memory/Service.antt =====
-- `MemoryService`: `write_memory`, `read_memory`, `update_memory` and `delete_memory`
-- (backend/app/services/memory/service.py).
use text.Mathlib.Text.{starts_with}
use open_agent_net.Prelude.{
  ℕ, ◌+◌, String, Bool, true, false, not, ◌&&◌, ◌||◌, Option, none, some, List, [], ◌∷◌, ◌++◌, ◌==◌,
  ltb, str_eq, if◌then◌else◌, is_some, any, keep,
}
use open_agent_net.Identifiers.{Uuid, is_empty, strip, drop_chars, parse_agent_id}
use open_agent_net.Db.{
  pure, raise, raise_if, gets, modify, or_raise, scalar_one_or_none, ◌>>=◌, ◌>>◌, lookup, update,
  add_row, delete, find_row,
}
use open_agent_net.Teams.State.{Team, TeamMember, is_active}
use open_agent_net.Memory.State.{
  Texts, Vector, Memory, Permission, MemoryDb, Scope, team, unknown, bad_embedding, bad_scope,
  team_id_required, not_team_owner, invalid_agent, invalid_uuid, namespace_isolation, bad_target,
  missing_permission, integrity_error, not_found, multiple_results, Action, same_id, is_object,
}

abbrev pub parse_opt : Uuid → Option String → Option ℕ
parse_opt uuid none = none
parse_opt uuid (some text) = parse_agent_id uuid text

abbrev pub wrong_size : Option Vector → Bool
wrong_size none = false
wrong_size (some v) = not (v.size == 1536)

abbrev pub is_unknown : Scope → Bool
is_unknown unknown = true
is_unknown _ = false

abbrev pub owns_team : Option ℕ → Option Team → Bool
owns_team (some a) (some t) = is_active t.status && t.owner_agent_id == a
owns_team _ _ = false

-- The team that a team-scoped memory is published to, where the scope is `team`.
unfoldable pub team_scope : Uuid → String → Scope → Option String → Action (Option ℕ)
team_scope uuid agent team team_text = do
  id ← or_raise (parse_opt uuid team_text) team_id_required
  row ← gets (λ db. lookup id db.teams.teams)
  raise_if (not (owns_team (parse_agent_id uuid agent) row)) not_team_owner
  pure (some id)
team_scope uuid agent _ team_text = pure none

-- `namespace.strip().lower().startswith("agent:")` and the owner that it names is another.
abbrev pub violates : Texts → String → ℕ → Bool
violates texts namespace owner =
    starts_with (texts.lower (strip namespace)) "agent:"
    && not (str_eq (texts.lower (strip (drop_chars 6 (strip namespace)))) (texts.show owner))

pub record Spec : Type 0 where
  pub team_id : Option ℕ
  pub grantee_agent_id : Option ℕ
  pub permission : Option String

-- A permission as the request names it; an empty text counts as absent.
pub record RawSpec : Type 0 where
  pub team_id : Option String
  pub grantee_agent_id : Option String
  pub permission : Option String

abbrev pub truthy_id : Uuid → Option String → Option ℕ
truthy_id uuid none = none
truthy_id uuid (some text) = if is_empty text then none else parse_agent_id uuid text

unfoldable pub resolve_specs : Uuid → List RawSpec → List Spec
resolve_specs uuid [] = []
resolve_specs uuid (s ∷ ss) =
    record {
      team_id = truthy_id uuid s.team_id;
      grantee_agent_id = truthy_id uuid s.grantee_agent_id;
      permission = s.permission;
    }
    ∷ resolve_specs uuid ss

-- The permission of the team, whose text reads back as its id.
abbrev pub team_specs : Option ℕ → List Spec
team_specs none = []
team_specs (some id) =
    record { team_id = some id; grantee_agent_id = none; permission = some "read" } ∷ []

abbrev pub same_target : ℕ → Spec → Permission → Bool
same_target id s p =
    p.memory_id == id
    && (if is_some s.team_id
        then same_id p.team_id s.team_id
        else same_id p.grantee_agent_id s.grantee_agent_id)

abbrev pub is_mode : String → Bool
is_mode p = str_eq p "read" || str_eq p "read_write"

abbrev pub with_permission : Permission → MemoryDb → MemoryDb
with_permission p db = record db { permissions = db.permissions ++ p ∷ [] }

abbrev pub permission_of : ℕ → Spec → String → Permission
permission_of id s mode = record {
  memory_id = id;
  grantee_agent_id = s.grantee_agent_id;
  team_id = s.team_id;
  permission = mode;
}

-- `db.add(MemoryPermission(...))`
unfoldable pub add_permission : ℕ → Spec → Option String → Action (Unit {0})
add_permission id s none = raise missing_permission
add_permission id s (some mode) = do
  raise_if (not (is_mode mode)) integrity_error
  modify (with_permission (permission_of id s mode))

abbrev pub one_target : Spec → Bool
one_target s =
    if is_some s.team_id then not (is_some s.grantee_agent_id) else is_some s.grantee_agent_id

-- One permission of `write_memory`: it is added unless its target has one.
unfoldable pub grant_one : ℕ → Spec → Action (Unit {0})
unfolding add_permission
grant_one id s = do
  raise_if (not (one_target s)) bad_target
  present ← gets (λ db. any (same_target id s) db.permissions)
  if present then pure tt else add_permission id s s.permission

unfoldable pub grant : ℕ → List Spec → Action (Unit {0})
unfolding grant_one
grant id [] = pure tt
grant id (s ∷ ss) = grant_one id s >>= λ _. grant id ss

abbrev pub expiry : ℕ → Option ℕ → Option ℕ
expiry now none = none
expiry now (some ttl) = some (now + ttl)

-- What a write stores.
pub record Written : Type 0 where
  pub namespace : String
  pub key : String
  pub object_data : String
  pub data_type : String
  pub ephemeral : Bool
  pub ttl_seconds : Option ℕ
  pub embedding : Option Vector

abbrev pub rewritten : ℕ → Written → Memory → Memory
rewritten now w m = record m {
  object_data = w.object_data;
  data_type = w.data_type;
  is_ephemeral = w.ephemeral;
  embedding = w.embedding;
  version = m.version + 1;
  updated_at = now;
  expires_at = if is_some w.ttl_seconds then expiry now w.ttl_seconds else m.expires_at;
}

abbrev pub new_memory : ℕ → ℕ → Written → Memory
new_memory now owner w = record {
  namespace = w.namespace;
  key = w.key;
  owner_agent_id = owner;
  object_data = w.object_data;
  data_type = w.data_type;
  is_ephemeral = w.ephemeral;
  expires_at = expiry now w.ttl_seconds;
  embedding = w.embedding;
  version = 1;
  created_at = now;
  updated_at = now;
}

abbrev pub put_memory : ℕ → Memory → MemoryDb → MemoryDb
put_memory id m db = record db { memories = update id m db.memories }

-- The row that has the same owner, namespace and key is rewritten, or a new one is added.
unfoldable pub store : ℕ → ℕ → ℕ → ℕ → Written → Option (ℕ × Memory) → Action (ℕ × Memory)
store now draw resolved owner w (some (id, m)) = do
  raise_if (not (m.owner_agent_id == resolved)) namespace_isolation
  modify (put_memory id (rewritten now w m))
  pure (id, rewritten now w m)
store now draw resolved owner w none = do
  taken ← gets (λ db. lookup draw db.memories)
  raise_if (is_some taken) integrity_error
  modify (λ db. record db { memories = add_row draw (new_memory now owner w) db.memories })
  pure (draw, new_memory now owner w)

unfoldable pub write_memory :
    Uuid
    → Texts
    → ℕ
    → ℕ
    → String
    → Written
    → List RawSpec
    → Scope
    → Option String
    → Action (ℕ × Memory)
unfolding grant resolve_specs
write_memory uuid texts now draw agent w specs scope team_text = do
  raise_if (wrong_size w.embedding) bad_embedding
  raise_if (is_unknown scope) bad_scope
  team_id ← team_scope uuid agent scope team_text
  resolved ← or_raise (parse_agent_id uuid agent) invalid_agent
  raise_if (violates texts w.namespace resolved) namespace_isolation
  owner ← or_raise (uuid.parse agent) invalid_uuid
  existing ← gets (λ db. find_row (is_object owner w.namespace w.key) db.memories)
  row ← store now draw resolved owner w existing
  grant row.0 (resolve_specs uuid specs ++ team_specs team_id)
  pure row

-- The rows of the join of permissions, members and active teams for an agent.
abbrev pub team_of_permission : Option ℕ → ℕ → TeamMember → Bool
team_of_permission (some t) agent m = m.team_id == t && m.agent_id == agent
team_of_permission none agent m = false

abbrev pub is_active_team : Option ℕ → MemoryDb → Bool
is_active_team none db = false
is_active_team (some t) db = elim (lookup t db.teams.teams) [
  | some row ↦ is_active row.status
  | none ↦ false
]

unfoldable pub join_members : ℕ → ℕ → MemoryDb → Permission → List TeamMember → List Permission
join_members id agent db p [] = []
join_members id agent db p (m ∷ ms) =
    let rest = join_members id agent db p ms in
    if p.memory_id == id && team_of_permission p.team_id agent m && is_active_team p.team_id db
    then p ∷ rest
    else rest

unfoldable pub team_access : ℕ → ℕ → MemoryDb → List Permission → List Permission
team_access id agent db [] = []
team_access id agent db (p ∷ ps) =
    join_members id agent db p db.teams.members ++ team_access id agent db ps

abbrev pub access_rows : ℕ → Option ℕ → MemoryDb → List Permission
access_rows id none db = []
access_rows id (some agent) db = team_access id agent db db.permissions

abbrev pub is_granted : ℕ → Option ℕ → Permission → Bool
is_granted id agent p = p.memory_id == id && same_id p.grantee_agent_id agent

abbrev pub reads_own : Uuid → Texts → String → Memory → Bool
reads_own uuid texts agent m =
    same_id (some m.owner_agent_id) (parse_agent_id uuid agent)
    || str_eq (texts.show m.owner_agent_id) agent

abbrev pub is_expired : ℕ → Memory → Bool
is_expired now m = elim (m.expires_at) [ some t ↦ ltb t now | none ↦ false ]

abbrev pub one_row : List Permission → Action Bool
one_row rows = scalar_one_or_none multiple_results rows >>= λ found. pure (is_some found)

-- The checks of the permissions, for an agent that is not the owner. A `select` on the grantee None
-- finds the permissions of teams; where it finds several, the query raises.
unfoldable pub may_read : ℕ → Option ℕ → Action Bool
unfolding team_access join_members
may_read id agent = do
  rows ← gets (λ db. keep (is_granted id agent) db.permissions)
  direct ← scalar_one_or_none multiple_results rows
  joined ← gets (λ db. access_rows id agent db)
  if is_some direct then pure true else one_row joined

unfoldable pub read_row : Uuid → Texts → ℕ → String → ℕ → Option Memory → Action (Option Memory)
read_row uuid texts now agent id none = pure none
read_row uuid texts now agent id (some m) = do
  allowed ←
      (if reads_own uuid texts agent m then pure true else may_read id (parse_agent_id uuid agent))
  pure (if not allowed then none else if is_expired now m then none else some m)

unfoldable pub read_memory : Uuid → Texts → ℕ → String → String → Action (Option Memory)
read_memory uuid texts now agent text = do
  id ← or_raise (uuid.parse text) invalid_uuid
  found ← gets (λ db. lookup id db.memories)
  read_row uuid texts now agent id found

-- `update_memory`: `None` leaves a column as it is.
pub record Changes : Type 0 where
  pub object_data : Option String
  pub data_type : Option String
  pub embedding : Option Vector

abbrev pub or_old {ℓ} : {A : Type ℓ} → Option A → A → A
or_old none old = old
or_old (some new) old = new

abbrev pub changed : ℕ → Changes → Memory → Memory
changed now c m = record m {
  object_data = or_old c.object_data m.object_data;
  data_type = or_old c.data_type m.data_type;
  embedding = if is_some c.embedding then c.embedding else m.embedding;
  version = m.version + 1;
  updated_at = now;
}

abbrev pub drop_permissions : ℕ → MemoryDb → MemoryDb
drop_permissions id db = record db {
  permissions = keep (λ p. not (p.memory_id == id)) db.permissions;
}

-- The permissions that replace the old ones; two with the same target break a unique constraint.
unfoldable pub regrant : ℕ → List Spec → Action (Unit {0})
unfolding add_permission
regrant id [] = pure tt
regrant id (s ∷ ss) = do
  raise_if (not (one_target s)) bad_target
  present ← gets (λ db. any (same_target id s) db.permissions)
  raise_if present integrity_error
  add_permission id s (some (or_old s.permission "read"))
  regrant id ss

unfoldable pub replace_permissions : Uuid → ℕ → Option ℕ → Option (List RawSpec) → Action (Unit {0})
unfolding regrant resolve_specs
replace_permissions uuid id team_id none = pure tt
replace_permissions uuid id team_id (some specs) = do
  modify (drop_permissions id)
  regrant id (resolve_specs uuid specs ++ team_specs team_id)

-- `select(MemoryObject).where(id == ..., owner_agent_id == ...)`
unfoldable pub own_memory : Uuid → String → String → Action (ℕ × Memory)
own_memory uuid agent text = do
  id ← or_raise (uuid.parse text) invalid_uuid
  found ← gets (λ db. lookup id db.memories)
  m ← or_raise found not_found
  raise_if (not (same_id (some m.owner_agent_id) (parse_agent_id uuid agent))) not_found
  pure (id, m)

unfoldable pub update_memory :
    Uuid
    → ℕ
    → String
    → String
    → Changes
    → Option (List RawSpec)
    → Scope
    → Option String
    → Action (ℕ × Memory)
unfolding replace_permissions
update_memory uuid now agent text c specs scope team_text = do
  raise_if (wrong_size c.embedding) bad_embedding
  raise_if (is_unknown scope) bad_scope
  team_id ← team_scope uuid agent scope team_text
  row ← own_memory uuid agent text
  modify (put_memory row.0 (changed now c row.1))
  replace_permissions uuid row.0 team_id specs
  pure (row.0, changed now c row.1)

abbrev pub drop_memory : ℕ → MemoryDb → MemoryDb
drop_memory id db = record (drop_permissions id db) { memories = delete id db.memories }

unfoldable pub delete_memory : Uuid → String → String → Action (Unit {0})
delete_memory uuid agent text = do row ← own_memory uuid agent text; modify (drop_memory row.0)
