-- ===== src/Teams/Tests.antt =====
-- Requests about a team of the agents 1 and 2.
use open_agent_net.Prelude.{
  ℕ, ◌≡◌, refl, none, some, List, [], ◌∷◌, inl, arith, str_eq, if◌then◌else◌,
}
use open_agent_net.Identifiers.{Uuid, parse_agent_id}
use open_agent_net.Db.{ok, lookup, update}
use open_agent_net.Teams.State.{active, owner, Team, TeamDb}
use open_agent_net.Teams.Service.{require_team, add_member, remove_member}
use open_agent_net.Teams.Invariant.{IsValid}
use open_agent_net.Teams.Requests.{Request, create, join, leave, run, teams_stay-IsValid}
use open_agent_net.Teams.Membership.{ByOwner, changed-ByOwner, remove_after_add}

abbrev uuid : Uuid
uuid = record {
  parse = λ s.
      if str_eq s "a1"
      then some 1
      else if str_eq s "a2"
      then some 2
      else if str_eq s "t9"
      then some 9
      else none;
  uuid5 = λ s. 0;
}

abbrev team9 : Team
team9 = record {
  name = "crew";
  description = none;
  owner_agent_id = 1;
  status = active;
  created_at = 0;
  updated_at = 0;
}

abbrev db9 : TeamDb
db9 = record {
  teams = (9, team9) ∷ [];
  members = record { team_id = 9; agent_id = 1; role = owner; joined_at = 0 } ∷ [];
  active_agents = 1 ∷ 2 ∷ [];
}

abbrev empty : TeamDb
empty = record { teams = []; members = []; active_agents = 1 ∷ 2 ∷ [] }

empty-IsValid : IsValid empty
unfolding lookup
empty-IsValid = record {
  once = λ t a. omega arith;
  has_owner = λ t r e. absurd cc;
  known = λ t a e. refl;
}

abbrev script : List Request
script =
    create 0 9 "a1" "crew" none ("a2" ∷ []) ∷ leave 1 "t9" "a1" "a2" ∷ join 2 "t9" "a1" "a2" ∷ []

teams_stay-IsValid_example : IsValid (run uuid script empty)
teams_stay-IsValid_example = teams_stay-IsValid uuid script empty empty-IsValid

joined : (r : ℕ × TeamDb) × (add_member uuid 4 "t9" "a1" "a2" db9 ≡ ok r)
unfolding add_member require_team lookup update parse_agent_id
joined = (_, refl)

changed-ByOwner_example : ByOwner uuid "t9" "a1" db9
changed-ByOwner_example = changed-ByOwner uuid 4 "t9" "a1" "a2" db9 joined.0 (inl joined.1)

remove_after_add_example :
    (s : ℕ × TeamDb) × (remove_member uuid 7 "t9" "a1" "a2" joined.0.1 ≡ ok s)
    × (s.1.members ≡ db9.members)
unfolding parse_agent_id joined
remove_after_add_example = remove_after_add uuid 4 7 "t9" "a1" "a2" db9 joined.0 joined.1 (λ e. cc)
