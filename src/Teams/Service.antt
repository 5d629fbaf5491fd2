-- ===== src/Teams/Service.antt =====
-- `TeamService`: `create_team`, `add_member` and `remove_member`
-- (backend/app/services/team/service.py). Of the set of the members' ids each is added once, in the
-- order in which the ids were first named.
use open_agent_net.Prelude.{
  ℕ, String, Bool, true, false, not, ◌&&◌, Option, none, some, List, [], ◌∷◌, ◌++◌, ◌==◌, ltb,
  str_eq, if◌then◌else◌, is_some,
}
use open_agent_net.Prelude.Occurs.{occurs}
use open_agent_net.Identifiers.{Uuid, is_empty, strip, parse_agent_id}
use open_agent_net.Db.{
  pure, raise_if, gets, modify, or_raise, ◌>>=◌, ◌>>◌, lookup, update, add_row, find_row,
}
use open_agent_net.Teams.State.{
  active, MemberRole, owner, member, Team, TeamMember, TeamDb, invalid_owner, name_required,
  name_taken, invalid_member, members_not_active, integrity_error, invalid_team_id, team_not_found,
  team_not_active, only_owner, member_not_active, already_member, owner_cannot_be_removed,
  not_a_member, Action, is_active, is_row, count_rows,
}

-- `member_ids.add(agent_id)` for each id, or the first that cannot be read.
unfoldable pub read_members : Uuid → List String → List ℕ → Action (List ℕ)
read_members uuid [] ids = pure ids
read_members uuid (raw ∷ raws) ids = or_raise (parse_agent_id uuid raw) invalid_member >>= λ id.
    read_members uuid raws (if occurs id ids then ids else ids ++ id ∷ [])

-- Every member but the owner is an active agent.
unfoldable pub all_active : ℕ → List ℕ → List ℕ → Bool
all_active owner_id actives [] = true
all_active owner_id actives (id ∷ ids) =
    (if id == owner_id then true else occurs id actives) && all_active owner_id actives ids

abbrev pub role_for : ℕ → ℕ → MemberRole
role_for owner_id id = if id == owner_id then owner else member

abbrev pub with_member : TeamMember → TeamDb → TeamDb
with_member m db = record db { members = db.members ++ m ∷ [] }

unfoldable pub add_members : ℕ → ℕ → ℕ → List ℕ → TeamDb → TeamDb
add_members now team owner_id [] db = db
add_members now team owner_id (id ∷ ids) db = add_members now team owner_id ids (
    with_member
      (record { team_id = team; agent_id = id; role = role_for owner_id id; joined_at = now }) db)

abbrev pub same_name : ℕ → String → Team → Bool
same_name owner_id name t = t.owner_agent_id == owner_id && str_eq t.name name

-- `team` is the drawn key.
unfoldable pub create_team :
    Uuid → ℕ → ℕ → String → String → Option String → List String → Action Team
create_team uuid now team owner_text name description members = do
  owner_id ← or_raise (parse_agent_id uuid owner_text) invalid_owner
  raise_if (is_empty (strip name)) name_required
  existing ← gets (λ db. find_row (same_name owner_id (strip name)) db.teams)
  raise_if (is_some existing) name_taken
  ids ← read_members uuid members (owner_id ∷ [])
  actives ← gets (λ db. db.active_agents)
  raise_if (not (all_active owner_id actives ids)) members_not_active
  taken ← gets (λ db. lookup team db.teams)
  raise_if (is_some taken) integrity_error
  let row : Team = record {
    name = strip name;
    description = description;
    owner_agent_id = owner_id;
    status = active;
    created_at = now;
    updated_at = now;
  } in
      do
        modify (λ db. record db { teams = add_row team row db.teams })
        modify (add_members now team owner_id ids)
        pure row

-- `_load_team` and `_require_team`
unfoldable pub require_team : Uuid → String → Action (ℕ × Team)
require_team uuid text = do
  id ← or_raise (uuid.parse text) invalid_team_id
  found ← gets (λ db. lookup id db.teams)
  row ← or_raise found team_not_found
  raise_if (not (is_active row.status)) team_not_active
  pure (id, row)

-- `_authorize_owner`
abbrev pub is_owner : Option ℕ → Team → Bool
is_owner none t = false
is_owner (some a) t = a == t.owner_agent_id

abbrev pub touch : ℕ → ℕ → Team → TeamDb → TeamDb
touch now id row db = record db { teams = update id (record row { updated_at = now }) db.teams }

unfoldable pub add_member : Uuid → ℕ → String → String → String → Action ℕ
add_member uuid now text caller who = do
  team ← require_team uuid text
  raise_if (not (is_owner (parse_agent_id uuid caller) team.1)) only_owner
  id ← or_raise (parse_agent_id uuid who) invalid_member
  actives ← gets (λ db. db.active_agents)
  raise_if (not (occurs id actives)) member_not_active
  present ← gets (λ db. count_rows team.0 id db.members)
  raise_if (ltb 0 present) already_member
  modify (with_member (record { team_id = team.0; agent_id = id; role = member; joined_at = now }))
  modify (touch now team.0 team.1)
  pure id

-- `db.delete(member)`
unfoldable pub drop_row : ℕ → ℕ → List TeamMember → List TeamMember
drop_row team agent [] = []
drop_row team agent (m ∷ ms) =
    let rest = drop_row team agent ms in if is_row team agent m then rest else m ∷ rest

unfoldable pub remove_member : Uuid → ℕ → String → String → String → Action ℕ
unfolding drop_row
remove_member uuid now text caller who = do
  team ← require_team uuid text
  raise_if (not (is_owner (parse_agent_id uuid caller) team.1)) only_owner
  id ← or_raise (parse_agent_id uuid who) invalid_member
  raise_if (id == team.1.owner_agent_id) owner_cannot_be_removed
  present ← gets (λ db. count_rows team.0 id db.members)
  raise_if (present == 0) not_a_member
  modify (λ db. record db { members = drop_row team.0 id db.members })
  modify (touch now team.0 team.1)
  pure id
