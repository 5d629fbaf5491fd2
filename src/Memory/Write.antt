-- ===== src/Memory/Write.antt =====
-- What has been written can be read.
use open_agent_net.Prelude.{
  ℕ, ◌≡◌, String, false, Option, none, some, List, [], ◌∷◌, ◌++◌, arith, inl, inr, Bool-cases,
  Option-cases, any,
}
use open_agent_net.Identifiers.{Uuid, parse_agent_id}
use open_agent_net.Db.{
  ok, Result-cases, lookup, find_row, find_row_fits, lookup-update, lookup-add_row, KeysDiffer,
  find_row-lookup,
}
use open_agent_net.Memory.State.{
  Texts, Memory, MemoryDb, Scope, only_private, shared_with, team, unknown, is_object,
}
use open_agent_net.Memory.Service.{
  Spec, RawSpec, Written, add_permission, grant_one, grant, store, team_scope, team_specs,
  resolve_specs, write_memory, is_expired, read_row, read_memory, same_target,
}

grant_one-memories :
    (id : ℕ) (s : Spec) (db : MemoryDb) (r : Unit {0} × MemoryDb)
    → grant_one id s db ≡ ok r
    → r.1.memories ≡ db.memories
unfolding grant_one add_permission
grant_one-memories id s db r h = elim (Bool-cases (any (same_target id s) db.permissions)) [
  | inl present ↦ ground arith
  | inr absent ↦ elim (Option-cases s.permission) [
    | inl missing ↦ absurd (ground arith)
    | inr (mode, e) ↦ ground arith
  ]
]

grant-memories :
    (id : ℕ) (ss : List Spec) (db : MemoryDb) (r : Unit {0} × MemoryDb)
    → grant id ss db ≡ ok r
    → r.1.memories ≡ db.memories
unfolding grant
grant-memories id [] db r h = ground arith
grant-memories id (s ∷ ss) db r h = elim (Result-cases (grant_one id s db)) [
  | inl bad ↦ absurd (ground arith)
  | inr (q, e) ↦ ground (arith, grant_one-memories id s db q e, grant-memories id ss q.1 r)
]

-- The row that `store` returns stands in the table, under the owner of the request.
store_stores :
    (now draw resolved owner : ℕ) (w : Written) (db : MemoryDb) (r : (ℕ × Memory) × MemoryDb)
    → KeysDiffer db.memories
    → store now draw resolved owner w (find_row (is_object owner w.namespace w.key) db.memories) db
      ≡ ok r
    → (lookup r.0.0 r.1.memories ≡ some r.0.1)
      × (r.0.1.owner_agent_id ≡ owner)
      × (r.0.1.object_data ≡ w.object_data)
unfolding store
store_stores now draw resolved owner w db r d h =
    elim (Option-cases (find_row (is_object owner w.namespace w.key) db.memories)) [
      | inl absent ↦
          (ground (arith, lookup-add_row draw draw r.0.1 db.memories), ground arith, ground arith)
      | inr ((id, m), found) ↦ (
        ground (
          arith,
          lookup-update id id r.0.1 db.memories,
          find_row-lookup (is_object owner w.namespace w.key) id m db.memories d found,
        ),
        ground (arith, find_row_fits (is_object owner w.namespace w.key) db.memories (id, m) found),
        ground arith,
      )
    ]

team_scope_same :
    (uuid : Uuid) (who : String) (scope : Scope) (team_text : Option String) (db : MemoryDb)
    (r : Option ℕ × MemoryDb)
    → team_scope uuid who scope team_text db ≡ ok r
    → r.1 ≡ db
unfolding team_scope
team_scope_same uuid who only_private team_text db r h = ground arith
team_scope_same uuid who shared_with team_text db r h = ground arith
team_scope_same uuid who unknown team_text db r h = ground arith
team_scope_same uuid who team none db r h = absurd (ground arith)
team_scope_same uuid who team (some t) db r h = elim (Option-cases (parse_agent_id uuid t)) [
  | inl bad ↦ absurd (ground arith)
  | inr (id, e) ↦ ground arith
]

-- What a write that returns has written, its owner reads at any time at which it has not expired: the
-- row under the identity returned, with the data of the write. No key stands twice in the table, and
-- the owner's identity is a text that `uuid.UUID`, which the write uses, and `parse_agent_id`, which
-- the read uses, turn into the same id.
pub read_after_write :
    (uuid : Uuid) (texts : Texts) (now draw : ℕ) (who : String) (w : Written) (specs : List RawSpec)
    (scope : Scope) (team_text : Option String) (db : MemoryDb) (r : (ℕ × Memory) × MemoryDb)
    (later : ℕ) (text : String)
    → KeysDiffer db.memories
    → write_memory uuid texts now draw who w specs scope team_text db ≡ ok r
    → uuid.parse text ≡ some r.0.0
    → uuid.parse who ≡ parse_agent_id uuid who
    → is_expired later r.0.1 ≡ false
    → (read_memory uuid texts later who text r.1 ≡ ok (some r.0.1, r.1))
      × (r.0.1.object_data ≡ w.object_data)
unfolding write_memory read_memory read_row
read_after_write uuid texts now draw who w specs scope team_text db r later text d h at plain
      fresh =
    elim (Result-cases (team_scope uuid who scope team_text db)) [
      | inl bad ↦ absurd (ground arith)
      | inr ((team_id, db1), e) ↦ elim (Option-cases (parse_agent_id uuid who)) [
        | inl bad ↦ absurd (ground arith)
        | inr (owner, f) ↦
            let same : db1 ≡ db = team_scope_same uuid who scope team_text db (team_id, db1) e in
            elim (Result-cases (
              store now draw owner owner w
                (find_row (is_object owner w.namespace w.key) db.memories) db)) [
                  | inl bad ↦ absurd (ground arith)
                  | inr (s, g) ↦
                      let specs' = resolve_specs uuid specs ++ team_specs team_id in
                      let a = store_stores now draw owner owner w db s d g in
                      elim (Result-cases (grant s.0.0 specs' s.1)) [
                        | inl bad ↦ absurd (ground arith)
                        | inr (q, k) ↦
                            let is : r ≡ (s.0, q.1) = ground arith in
                            (
                              ground (arith, is, a, grant-memories s.0.0 specs' s.1 q k),
                              ground (arith, is, a),
                            )
                      ]
                ]
      ]
    ]
