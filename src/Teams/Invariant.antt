-- ===== src/Teams/Invariant.antt =====
-- The membership of teams over any sequence of requests.
use open_agent_net.Prelude.{
  ℕ, ◌+◌, ◌≤◌, ◌≡◌, refl, String, false, ◌&&◌, none, some, List, [], ◌∷◌, ◌++◌, ◌==◌, if◌then◌else◌,
  arith, inl, inr, Option-cases,
}
use open_agent_net.Prelude.Occurs.{occ, occurs, occ-append}
use open_agent_net.Identifiers.{Uuid, parse_agent_id}
use open_agent_net.Db.{ok, lookup, update, lookup-update}
use open_agent_net.Teams.State.{member, Team, TeamMember, TeamDb, is_row, count_rows}
use open_agent_net.Teams.Service.{
  read_members, role_for, with_member, add_members, require_team, add_member, drop_row,
  remove_member,
}

-- No agent is in a team twice, the owner of every team is in it, and nobody is in a team that does
-- not exist.
pub record IsValid (db : TeamDb) : Type 0 where
  pub once : (team agent : ℕ) → count_rows team agent db.members ≤ 1
  pub has_owner :
      (team : ℕ) (row : Team)
      → lookup team db.teams ≡ some row
      → count_rows team row.owner_agent_id db.members ≡ 1
  pub known : (team agent : ℕ) → lookup team db.teams ≡ none → count_rows team agent db.members ≡ 0

count_rows-append :
    (team agent : ℕ) (ms : List TeamMember) (m : TeamMember)
    → count_rows team agent (ms ++ m ∷ [])
      ≡ count_rows team agent ms + (if is_row team agent m then 1 else 0)
count_rows-append team agent [] m = omega arith
count_rows-append team agent (n ∷ ms) m = omega (arith, count_rows-append team agent ms m)

count_rows-drop_row :
    (team agent t a : ℕ) (ms : List TeamMember)
    → count_rows t a (drop_row team agent ms)
      ≡ (if t == team && a == agent then 0 else count_rows t a ms)
unfolding drop_row
count_rows-drop_row team agent t a [] = ground arith
count_rows-drop_row team agent t a (m ∷ ms) = ground (arith, count_rows-drop_row team agent t a ms)

-- What `add_members` stores: one more row for each id, in the new team.
pub add_members_counts :
    (now team owner_id : ℕ) (ids : List ℕ) (db : TeamDb) (t a : ℕ)
    → (count_rows t a (add_members now team owner_id ids db).members
        ≡ count_rows t a db.members + (if t == team then occ a ids else 0))
      × ((add_members now team owner_id ids db).teams ≡ db.teams)
unfolding add_members
add_members_counts now team owner_id [] db t a = (ground arith, refl)
add_members_counts now team owner_id (id ∷ ids) db t a =
    let m : TeamMember = record {
      team_id = team;
      agent_id = id;
      role = role_for owner_id id;
      joined_at = now;
    } in
    let ih = add_members_counts now team owner_id ids (with_member m db) t a in
    (ground (arith, ih.0, count_rows-append t a db.members m), ih.1)

-- The ids that were read are different, and the first ones are among them.
pub record Read (ids result : List ℕ) (db db' : TeamDb) : Type 0 where
  pub same : db' ≡ db
  pub distinct : (c : ℕ) → occ c result ≤ 1
  pub kept : (c : ℕ) → occ c ids ≤ occ c result

pub read_members-Read :
    (uuid : Uuid) (raws : List String) (ids : List ℕ) (db : TeamDb) (r : List ℕ × TeamDb)
    → ((c : ℕ) → occ c ids ≤ 1)
    → read_members uuid raws ids db ≡ ok r
    → Read ids r.0 db r.1
unfolding read_members
read_members-Read uuid [] ids db r d h =
    let same : r ≡ (ids, db) = ground arith in
    rw same (record { same = refl; distinct = d; kept = λ c. omega arith })
read_members-Read uuid (raw ∷ raws) ids db r d h = elim (Option-cases (parse_agent_id uuid raw)) [
  | inl bad ↦ absurd (ground arith)
  | inr (id, e) ↦
      let ids' = if occurs id ids then ids else ids ++ id ∷ [] in
      let ih =
        read_members-Read uuid raws ids' db r (λ c. ground (arith, d c, occ-append c ids (id ∷ [])))
          (ground arith) in
      record {
        same = ih.same;
        distinct = ih.distinct;
        kept = λ c. ground (arith, ih.kept c, occ-append c ids (id ∷ []));
      }
]

pub add_member-IsValid :
    (uuid : Uuid) (now : ℕ) (text caller who : String) (db : TeamDb) (r : ℕ × TeamDb)
    → IsValid db
    → add_member uuid now text caller who db ≡ ok r
    → IsValid r.1
unfolding add_member require_team
add_member-IsValid uuid now text caller who db r v h = elim (Option-cases (uuid.parse text)) [
  | inl bad ↦ absurd (ground arith)
  | inr (team, e) ↦ elim (Option-cases (lookup team db.teams)) [
    | inl absent ↦ absurd (ground arith)
    | inr (row, f) ↦ elim (Option-cases (parse_agent_id uuid who)) [
      | inl bad ↦ absurd (ground arith)
      | inr (id, p) ↦
          let m : TeamMember = record {
            team_id = team;
            agent_id = id;
            role = member;
            joined_at = now;
          } in
          let row' : Team = record row { updated_at = now } in
          let is : r.1
              ≡ record db { members = db.members ++ m ∷ []; teams = update team row' db.teams } =
            ground arith in
          let new : count_rows team id db.members ≡ 0 = ground arith in
          rw is (record {
            once = λ t a. ground (arith, v.once t a, new, count_rows-append t a db.members m);
            has_owner = λ t u q. ground (
              arith,
              v.has_owner t u,
              v.has_owner team row f,
              new,
              lookup-update team t row' db.teams,
              f,
              count_rows-append t u.owner_agent_id db.members m,
            );
            known = λ t a q. ground (
              arith,
              v.known t a,
              lookup-update team t row' db.teams,
              f,
              count_rows-append t a db.members m,
            );
          })
    ]
  ]
]

pub remove_member-IsValid :
    (uuid : Uuid) (now : ℕ) (text caller who : String) (db : TeamDb) (r : ℕ × TeamDb)
    → IsValid db
    → remove_member uuid now text caller who db ≡ ok r
    → IsValid r.1
unfolding remove_member require_team
remove_member-IsValid uuid now text caller who db r v h = elim (Option-cases (uuid.parse text)) [
  | inl bad ↦ absurd (ground arith)
  | inr (team, e) ↦ elim (Option-cases (lookup team db.teams)) [
    | inl absent ↦ absurd (ground arith)
    | inr (row, f) ↦ elim (Option-cases (parse_agent_id uuid who)) [
      | inl bad ↦ absurd (ground arith)
      | inr (id, p) ↦
          let row' : Team = record row { updated_at = now } in
          let is : r.1 ≡ record db {
            members = drop_row team id db.members;
            teams = update team row' db.teams;
          } =
            ground arith in
          let other : (id == row.owner_agent_id) ≡ false = ground arith in
          rw is (record {
            once = λ t a. ground (arith, v.once t a, count_rows-drop_row team id t a db.members);
            has_owner = λ t u q. ground (
              arith,
              v.has_owner t u,
              v.has_owner team row f,
              other,
              lookup-update team t row' db.teams,
              f,
              count_rows-drop_row team id t u.owner_agent_id db.members,
            );
            known = λ t a q. ground (
              arith,
              v.known t a,
              lookup-update team t row' db.teams,
              f,
              count_rows-drop_row team id t a db.members,
            );
          })
    ]
  ]
]
