-- ===== src/Memory/Tests.antt =====
-- Writes and reads of the agents 1 and 2.
use open_agent_net.Prelude.{
  ℕ, ◌≡◌, refl, true, false, none, some, [], ◌∷◌, ◌⊎◌, ◌==◌, str_eq, if◌then◌else◌, keep, any,
}
use open_agent_net.Identifiers.{Uuid, parse_agent_id, is_empty, strip}
use open_agent_net.Db.{ok, lookup, add_row, find_row}
use open_agent_net.Memory.State.{Texts, Memory, MemoryDb, shared_with}
use open_agent_net.Memory.Service.{
  Written, RawSpec, write_memory, read_memory, read_row, may_read, team_access, join_members,
  team_scope, store, grant, resolve_specs, grant_one, add_permission, is_expired,
}
use open_agent_net.Memory.Access.{Direct, ThroughTeam, read_memory_allowed}
use open_agent_net.Memory.Write.{read_after_write}

abbrev uuid : Uuid
uuid = record {
  parse = λ s.
      if str_eq s "a1"
      then some 1
      else if str_eq s "a2"
      then some 2
      else if str_eq s "m5"
      then some 5
      else none;
  uuid5 = λ s. 0;
}

abbrev texts : Texts
texts = record { lower = λ s. s; show = λ n. if n == 1 then "a1" else "a2" }

abbrev empty : MemoryDb
empty = record {
  memories = [];
  permissions = [];
  teams = record { teams = []; members = []; active_agents = [] };
}

abbrev note : Written
note = record {
  namespace = "notes";
  key = "k";
  object_data = "{}";
  data_type = "json";
  ephemeral = false;
  ttl_seconds = some 10;
  embedding = none;
}

abbrev for_two : RawSpec
for_two = record { team_id = none; grantee_agent_id = some "a2"; permission = some "read" }

written :
    (r : (ℕ × Memory) × MemoryDb) × (write_memory uuid texts 3 5 "a1" note
        (for_two ∷ [])
        shared_with
        none
        empty
      ≡ ok r)
unfolding write_memory team_scope store grant grant_one add_permission resolve_specs find_row lookup
    parse_agent_id is_empty strip any add_row
written = (_, refl)

read_after_write_example :
    (read_memory uuid texts 13 "a1" "m5" written.0.1 ≡ ok (some written.0.0.1, written.0.1))
    × (written.0.0.1.object_data ≡ "{}")
unfolding written parse_agent_id
read_after_write_example =
    read_after_write uuid texts 3 5 "a1" note (for_two ∷ []) shared_with none empty written.0 13
      "m5" tt written.1 refl refl refl

has_read : read_memory uuid texts 12 "a2" "m5" written.0.1 ≡ ok (some written.0.0.1, written.0.1)
unfolding written read_memory read_row may_read keep team_access join_members lookup parse_agent_id
has_read = refl

read_memory_allowed_example :
    (id : ℕ) × (uuid.parse "m5" ≡ some id)
    × (lookup id written.0.1.memories ≡ some written.0.0.1)
    × (is_expired 12 written.0.0.1 ≡ false)
    × ((written.0.0.1.owner_agent_id ≡ 2)
        ⊎ (str_eq (texts.show written.0.0.1.owner_agent_id) "a2" ≡ true)
        ⊎ Direct id 2 written.0.1
        ⊎ ThroughTeam id 2 written.0.1)
unfolding parse_agent_id
read_memory_allowed_example =
    read_memory_allowed uuid texts 12 "a2" "m5" 2 written.0.1 written.0.0.1 written.0.1 refl
      has_read
