-- ===== src/Registry/Tests.antt =====
-- An agent registers, updates itself and rotates its key.
use open_agent_net.Prelude.{
  ℕ, ◌≡◌, refl, String, true, none, some, List, [], ◌∷◌, ◌==◌, str_eq, if◌then◌else◌, length,
}
use open_agent_net.Identifiers.{parse_agent_id, derive_agent_id}
use open_agent_net.Agents.{Agent}
use open_agent_net.Db.{Result, ok, err, lookup, select, add_row, update, map_rows, any_row}
use open_agent_net.Registry.State.{Manifest, Updates, RegistryDb, RegistryError, Libraries, Draws}
use open_agent_net.Registry.Service.{
  register, rotate_key, derive_agent_id_from_bytes, add_agent, add_key, record_version,
  latest_revision, new_key, new_agent, did_of,
}
use open_agent_net.Registry.Revisions.{revisions, up_to, Numbered}
use open_agent_net.Registry.Keys.{active_keys, rotate_key_revokes}
use open_agent_net.Registry.Requests.{
  Request, registering, updating, deregistering, rotating, run, revisions_consecutive,
}

abbrev lib : Libraries
lib = record {
  uuid = record { parse = λ s. if str_eq s "a1" then some 1 else none; uuid5 = λ s. 1 };
  read_key = λ s. some s;
  digest = λ s. s;
  spell = λ n. "a1";
  proves = λ key signature m timestamp. true;
  hash_api_key = λ s. s;
}

abbrev manifest : Manifest
manifest = record {
  name = "adder";
  version = "1.0.0";
  owner_id = none;
  endpoint = "http://a1";
  public_key = "k1";
  capabilities = [];
  metadata = "";
  others = "";
}

abbrev empty : RegistryDb
empty = record { agents = []; keys = []; versions = [] }

abbrev faster : Updates
faster = record {
  version = some "1.1.0";
  endpoint = none;
  capabilities = none;
  metadata = none;
  others = none;
}

abbrev draws : ℕ → String → Draws
draws n raw = record { key = n; version = n; api_key = raw }

abbrev script : List Request
script =
    registering 1 (draws 10 "raw-1") manifest "now" "signed"
    ∷ updating 2 20 "a1" faster
    ∷ rotating 3 (draws 30 "raw-2") "a1" "k2"
    ∷ deregistering 4 "a1"
    ∷ []

empty-Numbered : Numbered empty.versions
unfolding Numbered revisions up_to
empty-Numbered agent = refl

revisions_consecutive_example :
    revisions 1 (run lib script empty).versions
    ≡ up_to (length (revisions 1 (run lib script empty).versions))
revisions_consecutive_example = revisions_consecutive lib script empty 1 empty-Numbered

abbrev result_db : {A : Type 0} → Result RegistryError (A × RegistryDb) → RegistryDb
result_db (ok x) = x.1
result_db (err e) = empty

abbrev registered : RegistryDb
registered = result_db (register lib 1 (draws 10 "raw-1") manifest "now" "signed" empty)

abbrev rotation : Result RegistryError (Agent × RegistryDb)
rotation = rotate_key lib 3 (draws 30 "raw-2") "a1" "k2" registered

abbrev rotated : Agent × RegistryDb
rotated = elim rotation [ ok x ↦ x | err e ↦ (new_agent lib 1 1 manifest, empty) ]

rotated_now : rotation ≡ ok rotated
unfolding rotate_key register add_agent add_key record_version latest_revision
    derive_agent_id_from_bytes derive_agent_id did_of lookup select add_row update map_rows any_row
    parse_agent_id
rotated_now = refl

rotate_key_revokes_example :
    (id : ℕ) × (parse_agent_id lib.uuid "a1" ≡ some id)
    × (active_keys 1 rotated.1.keys
        ≡ (if 1 == id then (30, new_key lib id "raw-2") ∷ [] else active_keys 1 registered.keys))
rotate_key_revokes_example =
    rotate_key_revokes lib 3 (draws 30 "raw-2") "a1" "k2" 1 registered rotated rotated_now
