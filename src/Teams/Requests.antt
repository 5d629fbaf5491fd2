-- ===== src/Teams/Requests.antt =====
-- Sequences of requests to the team service.
use open_agent_net.Prelude.{
  ℕ, ◌≡◌, String, Option, none, List, [], ◌∷◌, arith, inl, inr, Option-cases,
}
use open_agent_net.Identifiers.{Uuid, strip, parse_agent_id}
use open_agent_net.Db.{ok, Result-cases, get_db, get_db_inv, lookup, add_row, lookup-add_row}
use open_agent_net.Teams.State.{active, Team, TeamDb}
use open_agent_net.Teams.Service.{read_members, add_members, create_team, add_member, remove_member}
use open_agent_net.Teams.Invariant.{
  IsValid, read_members-Read, add_members_counts, add_member-IsValid, remove_member-IsValid,
}

create_team-IsValid :
    (uuid : Uuid) (now team : ℕ) (owner name : String) (description : Option String)
    (members : List String) (db : TeamDb) (r : Team × TeamDb)
    → IsValid db
    → create_team uuid now team owner name description members db ≡ ok r
    → IsValid r.1
unfolding create_team
create_team-IsValid uuid now team owner name description members db r v h =
    elim (Option-cases (parse_agent_id uuid owner)) [
      | inl bad ↦ absurd (ground arith)
      | inr (oid, e) ↦ elim (Result-cases (read_members uuid members (oid ∷ []) db)) [
        | inl bad ↦ absurd (ground arith)
        | inr ((ids, db1), q) ↦
            let a = read_members-Read uuid members (oid ∷ []) db (ids, db1) (λ c. ground arith) q in
            let row : Team = record {
              name = strip name;
              description = description;
              owner_agent_id = oid;
              status = active;
              created_at = now;
              updated_at = now;
            } in
            let same : db1 ≡ db = a.same in
            let free : lookup team db.teams ≡ none = ground arith in
            let mid : TeamDb = record db { teams = add_row team row db.teams } in
            let is : r.1 ≡ add_members now team oid ids mid = ground arith in
            let counts = λ (t b : ℕ). add_members_counts now team oid ids mid t b in
            rw is (record {
              once =
                  λ t b. ground (arith, counts t b, v.once t b, v.known team b free, a.distinct b);
              has_owner = λ t u f. ground (
                arith,
                counts t u.owner_agent_id,
                lookup-add_row team t row db.teams free,
                v.has_owner t u,
                v.known team oid free,
                a.distinct oid,
                a.kept oid,
              );
              known = λ t b f.
                  ground (arith, counts t b, v.known t b, lookup-add_row team t row db.teams free);
            })
      ]
    ]

pub data Request : Type 0 where
  create : ℕ → ℕ → String → String → Option String → List String → Request
  join : ℕ → String → String → String → Request
  leave : ℕ → String → String → String → Request

unfoldable pub step : Uuid → Request → TeamDb → TeamDb
step uuid (create now team owner name description members) db =
    get_db (create_team uuid now team owner name description members) db
step uuid (join now team caller who) db = get_db (add_member uuid now team caller who) db
step uuid (leave now team caller who) db = get_db (remove_member uuid now team caller who) db

unfoldable pub run : Uuid → List Request → TeamDb → TeamDb
run uuid [] db = db
run uuid (q ∷ qs) db = run uuid qs (step uuid q db)

step-IsValid : (uuid : Uuid) (q : Request) (db : TeamDb) → IsValid db → IsValid (step uuid q db)
unfolding step
step-IsValid uuid (create now team owner name description members) db v =
    get_db_inv IsValid (create_team uuid now team owner name description members) db
      (λ r. create_team-IsValid uuid now team owner name description members db r v) v
step-IsValid uuid (join now team caller who) db v =
    get_db_inv IsValid (add_member uuid now team caller who) db
      (λ r. add_member-IsValid uuid now team caller who db r v) v
step-IsValid uuid (leave now team caller who) db v =
    get_db_inv IsValid (remove_member uuid now team caller who) db
      (λ r. remove_member-IsValid uuid now team caller who db r v) v

-- From tables in which no agent is in a team twice, every team's owner is in it and nobody is in a
-- team that does not exist, every sequence of created teams, added and removed members leads to such
-- tables again.
pub teams_stay-IsValid :
    (uuid : Uuid) (qs : List Request) (db : TeamDb) → IsValid db → IsValid (run uuid qs db)
unfolding run
teams_stay-IsValid uuid [] db v = v
teams_stay-IsValid uuid (q ∷ qs) db v =
    teams_stay-IsValid uuid qs (step uuid q db) (step-IsValid uuid q db v)
