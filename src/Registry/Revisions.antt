-- ===== src/Registry/Revisions.antt =====
-- The recorded versions of an agent are numbered from 1 without gaps.
use open_agent_net.Prelude.{
  ℕ, zero, suc, ◌+◌, max, ◌≡◌, refl, ap, ◌∙◌, String, Option, none, some, List, [], ◌∷◌, ◌++◌, ◌==◌,
  eq_of_==, if◌then◌else◌, length, length-append, arith, inl, inr, ◌⊎◌, Bool-cases, Option-cases,
}
use open_agent_net.Identifiers.{parse_agent_id}
use open_agent_net.Agents.{Agent, ApiKey}
use open_agent_net.Db.{
  ok, Result-cases, scalar_one_or_none, Table, lookup, update, map_rows, add_row, select, find_row,
}
use open_agent_net.Registry.State.{
  Manifest, Updates, AgentVersion, RegistryDb, Libraries, Draws, multiple_results,
}
use open_agent_net.Registry.Service.{
  derive_agent_id_from_bytes, latest_revision, version_row, record_version, add_key, add_agent,
  new_key, new_agent, is_registered, register, present_agent, updated, put_agent, update_agent,
  deregister_agent, uses_key, rekeyed, revoke, revoke_all, rotate_key, is_usable,
  authenticate_api_key,
}

-- The revisions of an agent, in the order of their rows.
unfoldable pub revisions : ℕ → Table AgentVersion → List ℕ
revisions agent [] = []
revisions agent ((id, v) ∷ rows) =
    let rest = revisions agent rows in if v.agent_id == agent then v.revision ∷ rest else rest

-- 1, 2, …, n
unfoldable pub up_to : ℕ → List ℕ
up_to zero = []
up_to (suc n) = up_to n ++ suc n ∷ []

unfoldable pub Numbered : Table AgentVersion → Type 0
Numbered rows = (agent : ℕ) → revisions agent rows ≡ up_to (length (revisions agent rows))

maximum : List ℕ → ℕ
maximum [] = 0
maximum (n ∷ ns) = max n (maximum ns)

maximum-append : (xs : List ℕ) (n : ℕ) → maximum (xs ++ n ∷ []) ≡ max (maximum xs) n
unfolding maximum
maximum-append [] n = omega arith
maximum-append (x ∷ xs) n = omega (arith, maximum-append xs n)

maximum-up_to : (n : ℕ) → maximum (up_to n) ≡ n
unfolding maximum up_to
maximum-up_to zero = refl
maximum-up_to (suc n) = omega (arith, maximum-append (up_to n) (suc n), maximum-up_to n)

latest_revision-maximum :
    (agent : ℕ) (rows : Table AgentVersion)
    → latest_revision agent rows ≡ maximum (revisions agent rows)
unfolding latest_revision revisions maximum
latest_revision-maximum agent [] = refl
latest_revision-maximum agent ((id, v) ∷ rows) = ground (arith, latest_revision-maximum agent rows)

revisions-add_row :
    (agent k : ℕ) (v : AgentVersion) (rows : Table AgentVersion)
    → revisions agent (add_row k v rows) ≡ (
        if v.agent_id == agent
        then revisions agent rows ++ v.revision ∷ []
        else revisions agent rows)
unfolding revisions add_row
revisions-add_row agent k v [] = refl
revisions-add_row agent k v ((id, w) ∷ rows) = ground (arith, revisions-add_row agent k v rows)

-- One more than the greatest is the next.
next_up_to :
    (xs : List ℕ)
    → xs ≡ up_to (length xs)
    → xs ++ (maximum xs + 1) ∷ [] ≡ up_to (length (xs ++ (maximum xs + 1) ∷ []))
unfolding up_to
next_up_to xs h =
    let top : maximum xs ≡ length xs = ap maximum h ∙ maximum-up_to (length xs) in
    let next : maximum xs + 1 ≡ suc (length xs) = omega (arith, top) in
    let longer : length (xs ++ (maximum xs + 1) ∷ []) ≡ suc (length xs) =
      omega (arith, length-append xs ((maximum xs + 1) ∷ [])) in
    rw longer (ap (λ n. xs ++ n ∷ []) next ∙ ap (λ ys. ys ++ suc (length xs) ∷ []) h)

-- The next revision keeps the numbering.
Numbered-next :
    (k agent now : ℕ) (a : Agent) (rows : Table AgentVersion)
    → Numbered rows
    → Numbered (add_row k (version_row now agent (latest_revision agent rows + 1) a) rows)
unfolding Numbered
Numbered-next k agent now a rows h b =
    let v = version_row now agent (latest_revision agent rows + 1) a in
    let added = revisions-add_row b k v rows in
    elim (Bool-cases (agent == b)) [
      | inl this ↦
          let is : revisions b (add_row k v rows)
              ≡ revisions b rows ++ (maximum (revisions b rows) + 1) ∷ [] =
            ground (arith, added, latest_revision-maximum b rows, eq_of_== agent b this) in
          rw is (next_up_to (revisions b rows) (h b))
      | inr other ↦
          let is : revisions b (add_row k v rows) ≡ revisions b rows = ground (arith, added) in
          rw is (h b)
    ]

-- What an operation does to the versions: nothing, or the next revision of an agent.
unfoldable pub Advances : Table AgentVersion → Table AgentVersion → Type 0
Advances old new =
    (new ≡ old)
    ⊎ ((k agent now : ℕ) × (a : Agent) × (new
          ≡ add_row k (version_row now agent (latest_revision agent old + 1) a) old))

pub Advances-Numbered :
    (old new : Table AgentVersion) → Advances old new → Numbered old → Numbered new
unfolding Advances
Advances-Numbered old new (inl same) h = rw same h
Advances-Numbered old new (inr (k, agent, now, a, is)) h = rw is (Numbered-next k agent now a old h)

record_version-ok :
    (now drawn agent : ℕ) (a : Agent) (db : RegistryDb) (x : AgentVersion × RegistryDb)
    → record_version now drawn agent a db ≡ ok x
    → (x.1.versions
        ≡ add_row drawn
            (version_row now agent (latest_revision agent db.versions + 1) a)
            db.versions)
unfolding record_version
record_version-ok now drawn agent a db x h = ground arith

add_agent-ok :
    (id : ℕ) (a : Agent) (db : RegistryDb) (x : Unit × RegistryDb)
    → add_agent id a db ≡ ok x
    → x.1 ≡ record db { agents = add_row id a db.agents }
unfolding add_agent
add_agent-ok id a db x h = ground arith

pub add_key-ok :
    (drawn : ℕ) (k : ApiKey) (db : RegistryDb) (x : Unit × RegistryDb)
    → add_key drawn k db ≡ ok x
    → (x.1 ≡ record db { keys = add_row drawn k db.keys }) × (lookup drawn db.keys ≡ none)
unfolding add_key
add_key-ok drawn k db x h = elim (Option-cases (lookup drawn db.keys)) [
  | inl free ↦ (ground arith, free)
  | inr (o, taken) ↦ absurd (ground arith)
]

pub single-ok :
    (rows : Table Agent) (db : RegistryDb) (x : Option (ℕ × Agent) × RegistryDb)
    → scalar_one_or_none multiple_results rows db ≡ ok x
    → x.1 ≡ db
single-ok [] db x h = ground arith
single-ok (r ∷ []) db x h = ground arith
single-ok (r ∷ q ∷ rows) db x h = absurd (ground arith)

module _ (lib : Libraries) where
  pub update_agent-Advances :
      (now drawn : ℕ) (spelled : String) (u : Updates) (db : RegistryDb) (x : Agent × RegistryDb)
      → update_agent lib now drawn spelled u db ≡ ok x
      → Advances db.versions x.1.versions
  unfolding update_agent Advances
  update_agent-Advances now drawn spelled u db x h =
      elim (Option-cases (parse_agent_id lib.uuid spelled)) [
        | inl bad ↦ absurd (ground arith)
        | inr (id, parsed) ↦ elim (Option-cases (present_agent (lookup id db.agents))) [
          | inl missing ↦ absurd (ground arith)
          | inr (a, there) ↦
              let b = updated now u a in
              elim (Result-cases (record_version now drawn id b (put_agent id b db))) [
                | inl bad ↦ absurd (ground arith)
                | inr ((v, s), recorded) ↦ inr (
                  drawn,
                  id,
                  now,
                  b,
                  ground
                      (arith, record_version-ok now drawn id b (put_agent id b db) (v, s) recorded),
                )
              ]
        ]
      ]

  pub deregister_agent-Advances :
      (now : ℕ) (spelled : String) (db : RegistryDb) (x : Unit × RegistryDb)
      → deregister_agent lib now spelled db ≡ ok x
      → Advances db.versions x.1.versions
  unfolding deregister_agent Advances
  deregister_agent-Advances now spelled db x h =
      elim (Option-cases (parse_agent_id lib.uuid spelled)) [
        | inl bad ↦ absurd (ground arith)
        | inr (id, parsed) ↦ elim (Option-cases (lookup id db.agents)) [
          | inl missing ↦ absurd (ground arith)
          | inr (a, there) ↦ inl (ground arith)
        ]
      ]

  pub authenticate-Advances :
      (now : ℕ) (raw : String) (db : RegistryDb) (x : Option (ℕ × Agent) × RegistryDb)
      → authenticate_api_key lib now raw db ≡ ok x
      → Advances db.versions x.1.versions
  unfolding authenticate_api_key Advances
  authenticate-Advances now raw db x h =
      elim (Option-cases (find_row (is_usable (lib.hash_api_key raw)) db.keys)) [
        | inl none_fits ↦ inl (ground arith)
        | inr ((j, k), found) ↦ elim (Option-cases (lookup k.agent_id db.agents)) [
          | inl missing ↦ inl (ground arith)
          | inr (a, there) ↦ inl (ground arith)
        ]
      ]

  -- What a rotation that returned has done.
  pub record Rotated (now : ℕ) (draws : Draws) (spelled key : String) (db db' : RegistryDb)
      : Type 0 where
    pub id : ℕ
    pub agent : Agent
    pub bytes : String
    pub parsed : parse_agent_id lib.uuid spelled ≡ some id
    pub found : present_agent (lookup id db.agents) ≡ some agent
    pub free : lookup draws.key (map_rows (revoke id) db.keys) ≡ none
    pub ended : db' ≡ record db {
      agents = update id (rekeyed lib now key bytes agent) db.agents;
      keys = add_row draws.key (new_key lib id draws.api_key) (map_rows (revoke id) db.keys);
    }

  pub rotate_key-Rotated :
      (now : ℕ) (draws : Draws) (spelled key : String) (db : RegistryDb) (x : Agent × RegistryDb)
      → rotate_key lib now draws spelled key db ≡ ok x
      → Rotated now draws spelled key db x.1
  unfolding rotate_key
  rotate_key-Rotated now draws spelled key db x h =
      elim (Option-cases (parse_agent_id lib.uuid spelled)) [
        | inl bad ↦ absurd (ground arith)
        | inr (id, parsed) ↦ elim (Option-cases (present_agent (lookup id db.agents))) [
          | inl missing ↦ absurd (ground arith)
          | inr (a, there) ↦ elim (Option-cases (lib.read_key key)) [
            | inl bad ↦ absurd (ground arith)
            | inr (bytes, read) ↦
                let rows = select (uses_key id key) db.agents in
                let mid = revoke_all id (put_agent id (rekeyed lib now key bytes a) db) in
                let k = new_key lib id draws.api_key in
                elim (Result-cases (scalar_one_or_none multiple_results rows db)) [
                  | inl bad ↦ absurd (ground arith)
                  | inr ((other, s0), single) ↦
                      let same = single-ok rows db (other, s0) single in
                      elim (Result-cases (add_key draws.key k mid)) [
                        | inl bad ↦ absurd (ground arith)
                        | inr ((u, s1), added) ↦
                            let (is, free) = add_key-ok draws.key k mid (u, s1) added in
                            record {
                              id = id;
                              agent = a;
                              bytes = bytes;
                              parsed = parsed;
                              found = there;
                              free = free;
                              ended = ground (arith, is, same);
                            }
                      ]
                ]
          ]
        ]
      ]

  pub rotate_key-Advances :
      (now : ℕ) (draws : Draws) (spelled key : String) (db : RegistryDb) (x : Agent × RegistryDb)
      → rotate_key lib now draws spelled key db ≡ ok x
      → Advances db.versions x.1.versions
  unfolding Advances
  rotate_key-Advances now draws spelled key db x h =
      let r = rotate_key-Rotated now draws spelled key db x h in inl (ap (λ s. s.versions) r.ended)

  pub register-Advances :
      (now : ℕ) (draws : Draws) (m : Manifest) (timestamp signature : String) (db : RegistryDb)
      (x : ℕ × RegistryDb)
      → register lib now draws m timestamp signature db ≡ ok x
      → Advances db.versions x.1.versions
  unfolding register Advances
  register-Advances now draws m timestamp signature db x h =
      elim (Option-cases (lib.read_key m.public_key)) [
        | inl bad ↦ absurd (ground arith)
        | inr (bytes, read) ↦
            let id = derive_agent_id_from_bytes lib bytes in
            let rows = select (is_registered id m.public_key) db.agents in
            let a = new_agent lib now id m in
            let k = new_key lib id draws.api_key in
            elim (Result-cases (scalar_one_or_none multiple_results rows db)) [
              | inl bad ↦ absurd (ground arith)
              | inr ((found, s0), single) ↦
                  let same = single-ok rows db (found, s0) single in
                  elim (Result-cases (add_agent id a db)) [
                    | inl bad ↦ absurd (ground arith)
                    | inr ((u, s1), first) ↦
                        let is1 = add_agent-ok id a db (u, s1) first in
                        elim (Result-cases (add_key draws.key k s1)) [
                          | inl bad ↦ absurd (ground arith)
                          | inr ((w, s2), second) ↦
                              let (is2, free) = add_key-ok draws.key k s1 (w, s2) second in
                              elim (Result-cases (record_version now draws.version id a s2)) [
                                | inl bad ↦ absurd (ground arith)
                                | inr ((v, s3), third) ↦ inr (
                                  draws.version,
                                  id,
                                  now,
                                  a,
                                  ground (
                                    arith,
                                    record_version-ok now draws.version id a s2 (v, s3) third,
                                    is2,
                                    is1,
                                  ),
                                )
                              ]
                        ]
                  ]
            ]
      ]
