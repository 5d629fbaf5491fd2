-- ===== src/Memory/State.antt =====
-- The tables of backend/app/models/memory.py, and those of the teams, which decide on access.
-- Deleting a memory deletes its permissions, as their foreign key says.
use open_agent_net.Prelude.{
  ℕ, String, Bool, true, false, ◌&&◌, Option, none, some, List, ◌==◌, str_eq,
}
use open_agent_net.Db.{Table, Tx}
use open_agent_net.Teams.State.{TeamDb}

-- What the code uses of `str`: lower case, and the text of a UUID.
pub record Texts : Type 0 where
  pub lower : String → String
  pub show : ℕ → String

-- A vector is stored and measured.
pub record Vector : Type 0 where
  pub size : ℕ
  pub text : String

pub record Memory : Type 0 where
  pub namespace : String
  pub key : String
  pub owner_agent_id : ℕ
  pub object_data : String
  pub data_type : String
  pub is_ephemeral : Bool
  pub expires_at : Option ℕ
  pub embedding : Option Vector
  pub version : ℕ
  pub created_at : ℕ
  pub updated_at : ℕ

pub record Permission : Type 0 where
  pub memory_id : ℕ
  pub grantee_agent_id : Option ℕ
  pub team_id : Option ℕ
  pub permission : String

pub record MemoryDb : Type 0 where
  pub memories : Table Memory
  pub permissions : List Permission
  pub teams : TeamDb

pub data Scope : Type 0 where
  only_private shared_with team unknown : Scope

pub data MemoryError : Type 0 where
  bad_embedding bad_scope team_id_required not_team_owner invalid_agent invalid_uuid : MemoryError
  namespace_isolation bad_target missing_permission integrity_error not_found multiple_results :
      MemoryError

abbrev pub Action : Type 0 → Type 0
Action A = Tx MemoryDb MemoryError A

-- `column == value`, which is `column IS NULL` for the value None.
abbrev pub same_id : Option ℕ → Option ℕ → Bool
same_id none none = true
same_id (some a) (some b) = a == b
same_id _ _ = false

abbrev pub is_object : ℕ → String → String → Memory → Bool
is_object owner namespace key m =
    m.owner_agent_id == owner && str_eq m.namespace namespace && str_eq m.key key
