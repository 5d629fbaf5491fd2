-- ===== src/Registry/Requests.antt =====
-- Sequences of requests to the registry.
use open_agent_net.Prelude.{ℕ, ◌≡◌, refl, String, List, [], ◌∷◌, length, inl}
use open_agent_net.Db.{get_db, get_db_inv}
use open_agent_net.Registry.State.{Manifest, Updates, RegistryDb, Libraries, Draws}
use open_agent_net.Registry.Service.{
  register, update_agent, deregister_agent, rotate_key, authenticate_api_key,
}
use open_agent_net.Registry.Revisions.{
  revisions, up_to, Numbered, Advances, Advances-Numbered, register-Advances, update_agent-Advances,
  deregister_agent-Advances, rotate_key-Advances, authenticate-Advances,
}

pub data Request : Type 0 where
  registering : ℕ → Draws → Manifest → String → String → Request
  updating : ℕ → ℕ → String → Updates → Request
  deregistering : ℕ → String → Request
  rotating : ℕ → Draws → String → String → Request
  authenticating : ℕ → String → Request

module _ (lib : Libraries) where
  unfoldable pub step : Request → RegistryDb → RegistryDb
  step (registering now draws m timestamp signature) db =
      get_db (register lib now draws m timestamp signature) db
  step (updating now drawn spelled u) db = get_db (update_agent lib now drawn spelled u) db
  step (deregistering now spelled) db = get_db (deregister_agent lib now spelled) db
  step (rotating now draws spelled key) db = get_db (rotate_key lib now draws spelled key) db
  step (authenticating now raw) db = get_db (authenticate_api_key lib now raw) db

  unfoldable pub run : List Request → RegistryDb → RegistryDb
  run [] db = db
  run (q ∷ qs) db = run qs (step q db)

  abbrev Next : RegistryDb → RegistryDb → Type 0
  Next db s = Advances db.versions s.versions

  step-Advances : (q : Request) (db : RegistryDb) → Next db (step q db)
  unfolding step Advances
  step-Advances (registering now draws m timestamp signature) db =
      get_db_inv (Next db) (register lib now draws m timestamp signature) db
        (λ x. register-Advances lib now draws m timestamp signature db x) (inl refl)
  step-Advances (updating now drawn spelled u) db =
      get_db_inv (Next db) (update_agent lib now drawn spelled u) db
        (λ x. update_agent-Advances lib now drawn spelled u db x) (inl refl)
  step-Advances (deregistering now spelled) db =
      get_db_inv (Next db) (deregister_agent lib now spelled) db
        (λ x. deregister_agent-Advances lib now spelled db x) (inl refl)
  step-Advances (rotating now draws spelled key) db =
      get_db_inv (Next db) (rotate_key lib now draws spelled key) db
        (λ x. rotate_key-Advances lib now draws spelled key db x) (inl refl)
  step-Advances (authenticating now raw) db =
      get_db_inv (Next db) (authenticate_api_key lib now raw) db
        (λ x. authenticate-Advances lib now raw db x) (inl refl)

  -- The recorded versions of every agent stay numbered 1, 2, …, n in the order of their recording,
  -- whatever registrations, updates, removals, rotations and authentications are asked for.
  pub revisions_consecutive :
      (qs : List Request) (db : RegistryDb) (agent : ℕ)
      → Numbered db.versions
      → revisions agent (run qs db).versions ≡ up_to (length (revisions agent (run qs db).versions))
  unfolding run Numbered
  revisions_consecutive [] db agent h = h agent
  revisions_consecutive (q ∷ qs) db agent h =
      revisions_consecutive qs (step q db) agent
        (Advances-Numbered db.versions (step q db).versions (step-Advances q db) h)
