-- ===== src/Teams/State.antt =====
-- The tables that the team service uses: backend/app/models/team.py, and the status of the agents of
-- backend/app/models/agent.py. Foreign keys are not checked.
use open_agent_net.Prelude.{
  ℕ, ◌+◌, String, Bool, true, false, ◌&&◌, Option, List, [], ◌∷◌, ◌==◌, if◌then◌else◌,
}
use open_agent_net.Db.{Table, Tx}

pub data TeamStatus : Type 0 where
  active archived : TeamStatus

pub data MemberRole : Type 0 where
  owner member : MemberRole

pub record Team : Type 0 where
  pub name : String
  pub description : Option String
  pub owner_agent_id : ℕ
  pub status : TeamStatus
  pub created_at : ℕ
  pub updated_at : ℕ

pub record TeamMember : Type 0 where
  pub team_id : ℕ
  pub agent_id : ℕ
  pub role : MemberRole
  pub joined_at : ℕ

-- `active_agents` are the ids of the agents whose status is active.
pub record TeamDb : Type 0 where
  pub teams : Table Team
  pub members : List TeamMember
  pub active_agents : List ℕ

pub data TeamError : Type 0 where
  invalid_owner name_required name_taken invalid_member members_not_active : TeamError
  integrity_error invalid_team_id team_not_found team_not_active only_owner : TeamError
  member_not_active already_member owner_cannot_be_removed not_a_member : TeamError

abbrev pub Action : Type 0 → Type 0
Action A = Tx TeamDb TeamError A

abbrev pub is_active : TeamStatus → Bool
is_active active = true
is_active archived = false

abbrev pub is_row : ℕ → ℕ → TeamMember → Bool
is_row team agent m = m.team_id == team && m.agent_id == agent

-- How many rows the primary key (team, agent) has.
abbrev pub count_rows : ℕ → ℕ → List TeamMember → ℕ
count_rows team agent [] = 0
count_rows team agent (m ∷ ms) = (if is_row team agent m then 1 else 0) + count_rows team agent ms
