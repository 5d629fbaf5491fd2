-- ===== src/Teams/Membership.antt =====
-- Who may change a team, and that leaving undoes joining.
use open_agent_net.Prelude.{
  ℕ, ◌<◌, ◌≡◌, ◌≢◌, refl, String, true, false, some, List, [], ◌∷◌, ◌++◌, ◌==◌, arith, inl, inr,
  ◌⊎◌, Option-cases,
}
use open_agent_net.Identifiers.{Uuid, parse_agent_id}
use open_agent_net.Db.{ok, lookup, update, lookup-update}
use open_agent_net.Teams.State.{active, member, Team, TeamMember, TeamDb, count_rows, is_row}
use open_agent_net.Teams.Service.{require_team, add_member, remove_member, drop_row, is_owner}

drop_absent :
    (team agent : ℕ) (ms : List TeamMember)
    → count_rows team agent ms ≡ 0
    → drop_row team agent ms ≡ ms
unfolding drop_row
drop_absent team agent [] h = refl
drop_absent team agent (m ∷ ms) h = ground (arith, drop_absent team agent ms)

drop_last :
    (team agent : ℕ) (ms : List TeamMember) (m : TeamMember)
    → count_rows team agent ms ≡ 0
    → is_row team agent m ≡ true
    → drop_row team agent (ms ++ m ∷ []) ≡ ms
unfolding drop_row
drop_last team agent [] m h e = ground arith
drop_last team agent (n ∷ ms) m h e = ground (arith, drop_last team agent ms m)

count_last :
    (team agent : ℕ) (ms : List TeamMember) (m : TeamMember)
    → is_row team agent m ≡ true
    → 0 < count_rows team agent (ms ++ m ∷ [])
count_last team agent [] m e = ground arith
count_last team agent (n ∷ ms) m e = omega (arith, count_last team agent ms m e)

-- Who asked for a change of a team that was made.
abbrev pub ByOwner : Uuid → String → String → TeamDb → Type 0
ByOwner uuid text caller db =
    (id : ℕ) × (row : Team) × (uuid.parse text ≡ some id)
    × (lookup id db.teams ≡ some row)
    × (row.status ≡ active)
    × (parse_agent_id uuid caller ≡ some row.owner_agent_id)

owner_is :
    (uuid : Uuid) (text caller : String) (db : TeamDb)
    → ((id : ℕ) × (row : Team) × (uuid.parse text ≡ some id)
        × (lookup id db.teams ≡ some row)
        × (row.status ≡ active)
        × (is_owner (parse_agent_id uuid caller) row ≡ true))
    → ByOwner uuid text caller db
owner_is uuid text caller db (id, row, a, b, c, d) =
    elim (Option-cases (parse_agent_id uuid caller)) [
      | inl bad ↦ absurd (ground arith)
      | inr (o, e) ↦ (id, row, a, b, c, ground arith)
    ]

-- A member that was added or removed was so at the request of the owner of the team, which exists and
-- is active.
pub changed-ByOwner :
    (uuid : Uuid) (now : ℕ) (text caller who : String) (db : TeamDb) (r : ℕ × TeamDb)
    → (add_member uuid now text caller who db ≡ ok r)
      ⊎ (remove_member uuid now text caller who db ≡ ok r)
    → ByOwner uuid text caller db
unfolding add_member remove_member require_team
changed-ByOwner uuid now text caller who db r h = elim (Option-cases (uuid.parse text)) [
  | inl bad ↦ absurd (ground arith)
  | inr (id, e) ↦ elim (Option-cases (lookup id db.teams)) [
    | inl absent ↦ absurd (ground arith)
    | inr (row, f) ↦ owner_is uuid text caller db (id, row, e, f, ground arith, ground arith)
  ]
]

-- A member that has been added and is not the owner can be removed by the same caller at any later
-- time, and the rows of the members are then those from before.
pub remove_after_add :
    (uuid : Uuid) (now later : ℕ) (text caller who : String) (db : TeamDb) (r : ℕ × TeamDb)
    → add_member uuid now text caller who db ≡ ok r
    → parse_agent_id uuid caller ≢ some r.0
    → (s : ℕ × TeamDb) × (remove_member uuid later text caller who r.1 ≡ ok s)
      × (s.1.members ≡ db.members)
unfolding add_member remove_member require_team
remove_after_add uuid now later text caller who db r h other =
    elim (Option-cases (uuid.parse text)) [
      | inl bad ↦ absurd (ground arith)
      | inr (team, e) ↦ elim (Option-cases (lookup team db.teams)) [
        | inl absent ↦ absurd (ground arith)
        | inr (row, f) ↦ elim (Option-cases (parse_agent_id uuid who)) [
          | inl bad ↦ absurd (ground arith)
          | inr (id, p) ↦ elim (Option-cases (parse_agent_id uuid caller)) [
            | inl bad ↦ absurd (ground arith)
            | inr (c, q) ↦
                let m : TeamMember = record {
                  team_id = team;
                  agent_id = id;
                  role = member;
                  joined_at = now;
                } in
                let row' : Team = record row { updated_at = now } in
                let new : count_rows team id db.members ≡ 0 = ground arith in
                let is : r ≡ (
                  id,
                  record db { members = db.members ++ m ∷ []; teams = update team row' db.teams },
                ) =
                  ground arith in
                let its : is_row team id m ≡ true = ground arith in
                let apart : (id == row.owner_agent_id) ≡ false = ground arith in
                (
                  (
                    id,
                    record db {
                      members = drop_row team id (db.members ++ m ∷ []);
                      teams =
                          update team (record row' { updated_at = later })
                            (update team row' db.teams);
                    },
                  ),
                  ground (
                    arith,
                    is,
                    lookup-update team team row' db.teams,
                    f,
                    count_last team id db.members m its,
                    apart,
                  ),
                  drop_last team id db.members m new its,
                )
          ]
        ]
      ]
    ]
