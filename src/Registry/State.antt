-- ===== src/Registry/State.antt =====
-- What the registry reads and writes: manifests, updates, and the tables of
-- backend/app/models/agent.py and backend/app/models/agent_version.py.
use open_agent_net.Prelude.{ℕ, zero, suc, String, Bool, Option, List}
use open_agent_net.Identifiers.{Uuid}
use open_agent_net.Agents.{Agent, ApiKey, Capability}
use open_agent_net.Db.{Table, Tx}

-- The fields of `AgentManifest` that the service reads; the others are kept as a text.
pub record Manifest : Type 0 where
  pub name : String
  pub version : String
  pub owner_id : Option String
  pub endpoint : String
  pub public_key : String
  pub capabilities : List Capability
  pub metadata : String
  pub others : String

-- The fields of `AgentUpdateRequest`; `none` is a field that is missing or null.
pub record Updates : Type 0 where
  pub version : Option String
  pub endpoint : Option String
  pub capabilities : Option (List Capability)
  pub metadata : Option String
  pub others : Option String

pub record AgentVersion : Type 0 where
  pub agent_id : ℕ
  pub revision : ℕ
  pub version : String
  pub endpoint : String
  pub capabilities : List Capability
  pub metadata : String
  pub created_at : ℕ

pub record RegistryDb : Type 0 where
  pub agents : Table Agent
  pub keys : Table ApiKey
  pub versions : Table AgentVersion

-- The libraries: the bytes of a public key in base64 (`none` is a key that cannot be read), the base58
-- digest of SHA-256, the text of a UUID, the signature of a manifest with its timestamp, and the hash
-- of an API key.
pub record Libraries : Type 0 where
  pub uuid : Uuid
  pub read_key : String → Option String
  pub digest : String → String
  pub spell : ℕ → String
  pub proves : String → String → Manifest → String → Bool
  pub hash_api_key : String → String

-- The drawn keys of the new rows, and the drawn API key.
pub record Draws : Type 0 where
  pub key : ℕ
  pub version : ℕ
  pub api_key : String

pub data RegistryError : Type 0 where
  invalid_key invalid_proof already_registered invalid_owner agent_not_found key_in_use :
      RegistryError
  revisions_not_found multiple_results integrity_error : RegistryError

abbrev pub Action : Type 0 → Type 0
Action A = Tx RegistryDb RegistryError A

-- `s[:n]`
unfoldable pub take_chars : ℕ → String → String
take_chars zero s = String.[]
take_chars (suc n) String.[] = String.[]
take_chars (suc n) (String.◌∷◌ c s) = String.◌∷◌ c (take_chars n s)
