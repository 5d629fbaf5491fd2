-- ===== src/Registry/Keys.antt =====
-- Key rotation: which API keys are active after it.
use open_agent_net.Prelude.{
  ℕ, ◌≡◌, refl, ap, ◌∙◌, String, Bool, ◌&&◌, some, [], ◌∷◌, ◌++◌, ◌==◌, eq_of_==, if◌then◌else◌,
  arith, inl, inr, Bool-cases,
}
use open_agent_net.Identifiers.{parse_agent_id}
use open_agent_net.Agents.{Agent, ApiKey}
use open_agent_net.Db.{ok, Table, map_rows, add_row, select}
use open_agent_net.Registry.State.{RegistryDb, Libraries, Draws}
use open_agent_net.Registry.Service.{revoke, new_key, rotate_key}
use open_agent_net.Registry.Revisions.{rotate_key-Rotated}

abbrev is_active_of : ℕ → ℕ → ApiKey → Bool
is_active_of agent id k = k.agent_id == agent && k.is_active

-- The active API keys of an agent.
unfoldable pub active_keys : ℕ → Table ApiKey → Table ApiKey
active_keys agent keys = select (is_active_of agent) keys

select-add_row :
    (p : ℕ → ApiKey → Bool) (k : ℕ) (v : ApiKey) (t : Table ApiKey)
    → select p (add_row k v t) ≡ select p t ++ (if p k v then (k, v) ∷ [] else [])
unfolding select add_row
select-add_row p k v [] = ground arith
select-add_row p k v ((j, w) ∷ t) = ground (arith, select-add_row p k v t)

active_keys-revoke :
    (agent id : ℕ) (t : Table ApiKey)
    → active_keys agent (map_rows (revoke id) t) ≡ (if agent == id then [] else active_keys agent t)
unfolding active_keys select map_rows
active_keys-revoke agent id [] = ground arith
active_keys-revoke agent id ((j, k) ∷ t) = elim (Bool-cases (k.agent_id == id)) [
  | inl this ↦ ground (arith, active_keys-revoke agent id t, eq_of_== k.agent_id id this)
  | inr other ↦ elim (Bool-cases (agent == id)) [
    | inl same ↦ ground (arith, active_keys-revoke agent id t, eq_of_== agent id same)
    | inr differ ↦ ground (arith, active_keys-revoke agent id t)
  ]
]

append-nil : (t : Table ApiKey) → t ++ [] ≡ t
append-nil [] = refl
append-nil (x ∷ t) = ap (λ r. x ∷ r) (append-nil t)

active_keys-replaced :
    (lib : Libraries) (agent id drawn : ℕ) (raw : String) (t : Table ApiKey)
    → active_keys agent (add_row drawn (new_key lib id raw) (map_rows (revoke id) t))
      ≡ (if agent == id then (drawn, new_key lib id raw) ∷ [] else active_keys agent t)
unfolding active_keys
active_keys-replaced lib agent id drawn raw t =
    let one =
      select-add_row (is_active_of agent) drawn (new_key lib id raw) (map_rows (revoke id) t) in
    let others = active_keys-revoke agent id t in
    elim (Bool-cases (agent == id)) [
      | inl this ↦ ground (arith, one, others, eq_of_== agent id this)
      | inr other ↦ ground (arith, one, others, append-nil (active_keys agent t))
    ]

-- After a rotation the agent has exactly one active API key, the new one; the active keys of every
-- other agent are what they were. The keys from before are dead at once: there is no overlap in which
-- docs/SECURITY.md has both keys valid.
pub rotate_key_revokes :
    (lib : Libraries) (now : ℕ) (draws : Draws) (spelled key : String) (agent : ℕ) (db : RegistryDb)
    (x : Agent × RegistryDb)
    → rotate_key lib now draws spelled key db ≡ ok x
    → (id : ℕ) × (parse_agent_id lib.uuid spelled ≡ some id)
      × (active_keys agent x.1.keys ≡ (
          if agent == id
          then (draws.key, new_key lib id draws.api_key) ∷ []
          else active_keys agent db.keys))
rotate_key_revokes lib now draws spelled key agent db x h =
    let r = rotate_key-Rotated lib now draws spelled key db x h in
    (
      r.id,
      r.parsed,
      ap (λ s. active_keys agent s.keys) r.ended
          ∙ active_keys-replaced lib agent r.id draws.key draws.api_key db.keys,
    )
