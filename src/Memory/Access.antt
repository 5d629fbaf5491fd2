-- ===== src/Memory/Access.antt =====
-- Who can read a memory.
use open_agent_net.Prelude.{
  ℕ, ◌≡◌, refl, String, Bool, true, false, ◌&&◌, Option, none, some, List, [], ◌∷◌, ◌++◌, ◌==◌,
  arith, inl, inr, ◌⊎◌, Bool-cases, Option-cases, keep, str_eq,
}
use open_agent_net.Identifiers.{Uuid, parse_agent_id}
use open_agent_net.Db.{ok, Result-cases, lookup}
use open_agent_net.Teams.State.{TeamMember}
use open_agent_net.Memory.State.{Texts, Memory, Permission, MemoryDb, same_id}
use open_agent_net.Memory.Service.{
  is_granted, team_access, join_members, is_active_team, team_of_permission, reads_own, is_expired,
  may_read, read_row, read_memory,
}

abbrev pub Member : {A : Type 0} → A → List A → Type 0
Member x [] = ⊥
Member x (y ∷ ys) = (y ≡ x) ⊎ Member x ys

-- A permission of the memory for the agent itself.
pub record Direct (id agent : ℕ) (db : MemoryDb) : Type 0 where
  pub granted : Permission
  pub stored : Member granted db.permissions
  pub of_memory : granted.memory_id ≡ id
  pub to_agent : granted.grantee_agent_id ≡ some agent

-- A permission of the memory for an active team that the agent is a member of.
pub record ThroughTeam (id agent : ℕ) (db : MemoryDb) : Type 0 where
  pub granted : Permission
  pub membership : TeamMember
  pub stored : Member granted db.permissions
  pub joined : Member membership db.teams.members
  pub of_memory : granted.memory_id ≡ id
  pub to_team : granted.team_id ≡ some membership.team_id
  pub is_agent : membership.agent_id ≡ agent
  pub team_active : is_active_team granted.team_id db ≡ true

keep-head :
    (id agent : ℕ) (ps rest : List Permission) (p : Permission)
    → keep (is_granted id (some agent)) ps ≡ p ∷ rest
    → Member p ps × (is_granted id (some agent) p ≡ true)
unfolding keep
keep-head id agent [] rest p e = absurd cc
keep-head id agent (q ∷ ps) rest p e = elim (Bool-cases (is_granted id (some agent) q)) [
  | inl fits ↦ (let same : q ≡ p = ground arith in (inl same, rw (← same) fits))
  | inr misfit ↦ (let ih = keep-head id agent ps rest p (ground arith) in (inr ih.0, ih.1))
]

record Joined (id agent : ℕ) (db : MemoryDb) (p : Permission) (ms : List TeamMember) : Type 0 where
  membership : TeamMember
  joined : Member membership ms
  of_memory : p.memory_id ≡ id
  to_team : p.team_id ≡ some membership.team_id
  is_agent : membership.agent_id ≡ agent
  team_active : is_active_team p.team_id db ≡ true

fits-Joined :
    (id agent : ℕ) (db : MemoryDb) (p : Permission) (m : TeamMember) (ms : List TeamMember)
    (t : Option ℕ)
    → p.team_id ≡ t
    → (p.memory_id == id && team_of_permission t agent m && is_active_team t db) ≡ true
    → Joined id agent db p (m ∷ ms)
fits-Joined id agent db p m ms none e h = absurd (ground arith)
fits-Joined id agent db p m ms (some t) e h = record {
  membership = m;
  joined = inl refl;
  of_memory = ground arith;
  to_team = ground arith;
  is_agent = ground arith;
  team_active = rw e (ground arith);
}

join_members-head :
    (id agent : ℕ) (db : MemoryDb) (p : Permission) (ms : List TeamMember) (q : Permission)
    (rest : List Permission)
    → join_members id agent db p ms ≡ q ∷ rest
    → (q ≡ p) × Joined id agent db p ms
unfolding join_members
join_members-head id agent db p [] q rest e = absurd cc
join_members-head id agent db p (m ∷ ms) q rest e =
    elim (Bool-cases
      (p.memory_id == id && team_of_permission p.team_id agent m && is_active_team p.team_id db)) [
        | inl fits ↦ (ground arith, fits-Joined id agent db p m ms p.team_id refl fits)
        | inr misfit ↦
            let ih = join_members-head id agent db p ms q rest (ground arith) in
            (
              ih.0,
              record {
                membership = ih.1.membership;
                joined = inr ih.1.joined;
                of_memory = ih.1.of_memory;
                to_team = ih.1.to_team;
                is_agent = ih.1.is_agent;
                team_active = ih.1.team_active;
              },
            )
      ]

team_access-head :
    (id agent : ℕ) (db : MemoryDb) (ps : List Permission) (q : Permission) (rest : List Permission)
    → team_access id agent db ps ≡ q ∷ rest
    → Member q ps × Joined id agent db q db.teams.members
unfolding team_access
team_access-head id agent db [] q rest e = absurd cc
team_access-head id agent db (p ∷ ps) q rest e =
    go (join_members id agent db p db.teams.members) refl e (team_access-head id agent db ps q rest)
  where
    go :
        (js : List Permission)
        → join_members id agent db p db.teams.members ≡ js
        → js ++ team_access id agent db ps ≡ q ∷ rest
        → (team_access id agent db ps ≡ q ∷ rest
            → Member q ps × Joined id agent db q db.teams.members)
        → Member q (p ∷ ps) × Joined id agent db q db.teams.members
    go [] f k later = (inr (later k).0, (later k).1)
    go (j ∷ js) f k later =
        let a = join_members-head id agent db p db.teams.members j js f in
        let same : j ≡ q = ground arith in
        let it : p ≡ q = ground (arith, a.0) in (inl it, rw (← it) a.1)

may_read-Granted :
    (id agent : ℕ) (db : MemoryDb) (r : Bool × MemoryDb)
    → may_read id (some agent) db ≡ ok r
    → r.0 ≡ true
    → Direct id agent db ⊎ ThroughTeam id agent db
unfolding may_read
may_read-Granted id agent db r h allowed =
    go (keep (is_granted id (some agent)) db.permissions) refl
      (team_access id agent db db.permissions) refl
  where
    go :
        (ds : List Permission)
        → keep (is_granted id (some agent)) db.permissions ≡ ds
        → (js : List Permission) → team_access id agent db db.permissions ≡ js
        → Direct id agent db ⊎ ThroughTeam id agent db
    go (d ∷ ds) e js f =
        let a = keep-head id agent db.permissions ds d e in
        inl (record {
          granted = d;
          stored = a.0;
          of_memory = ground (arith, a.1);
          to_agent = grantee d.grantee_agent_id (ground (arith, a.1));
        })
      where
        grantee : (o : Option ℕ) → same_id o (some agent) ≡ true → o ≡ some agent
        grantee none k = cc
        grantee (some x) k = ground arith
    go [] e [] f = absurd (ground arith)
    go [] e (j ∷ js) f =
        let a = team_access-head id agent db db.permissions j js f in
        inr (record {
          granted = j;
          membership = a.1.membership;
          stored = a.0;
          joined = a.1.joined;
          of_memory = a.1.of_memory;
          to_team = a.1.to_team;
          is_agent = a.1.is_agent;
          team_active = a.1.team_active;
        })

-- A memory that an agent whose identity can be read has read is the stored one, has not expired, and
-- the agent is its owner or has the text of the owner's id as its identity, or there is a permission
-- of the memory for the agent, or for an active team that the agent is a member of.
pub read_memory_allowed :
    (uuid : Uuid) (texts : Texts) (now : ℕ) (who text : String) (agent : ℕ) (db : MemoryDb)
    (m : Memory) (db' : MemoryDb)
    → parse_agent_id uuid who ≡ some agent
    → read_memory uuid texts now who text db ≡ ok (some m, db')
    → (id : ℕ) × (uuid.parse text ≡ some id)
      × (lookup id db.memories ≡ some m)
      × (is_expired now m ≡ false)
      × ((m.owner_agent_id ≡ agent)
          ⊎ (str_eq (texts.show m.owner_agent_id) who ≡ true)
          ⊎ Direct id agent db
          ⊎ ThroughTeam id agent db)
unfolding read_memory read_row
read_memory_allowed uuid texts now who text agent db m db' is h =
    elim (Option-cases (uuid.parse text)) [
      | inl bad ↦ absurd (ground arith)
      | inr (id, e) ↦ elim (Option-cases (lookup id db.memories)) [
        | inl absent ↦ absurd (ground arith)
        | inr (row, f) ↦ elim (Bool-cases (reads_own uuid texts who row)) [
          | inl own ↦ (
            id,
            e,
            ground arith,
            ground arith,
            elim (Bool-cases (row.owner_agent_id == agent)) [
              | inl same ↦ inl (ground arith)
              | inr other ↦ inr (inl (ground arith))
            ],
          )
          | inr foreign ↦ elim (Result-cases (may_read id (some agent) db)) [
            | inl bad ↦ absurd (ground arith)
            | inr (r, g) ↦ (
              id,
              e,
              ground arith,
              ground arith,
              inr (inr (may_read-Granted id agent db r g (ground arith))),
            )
          ]
        ]
      ]
    ]
