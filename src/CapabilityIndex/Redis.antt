-- ===== src/CapabilityIndex/Redis.antt =====
-- The state in Redis and the writes of backend/app/core/capability_index.py.
use open_agent_net.Prelude.{
  ℕ, String, Bool, false, ◌||◌, List, [], ◌∷◌, ◌==◌, str_eq, if◌then◌else◌, is_some,
}
use open_agent_net.Identifiers.{is_empty}
use open_agent_net.Agents.{Capability}
use open_agent_net.Db.{Table, lookup, update, add_row, delete}

-- The set of an agent's capabilities, and for each capability the agents with their scores.
pub record Index (F : Type 0) : Type 0 where
  pub members : ℕ → List String
  pub ranks : String → Table F

unfoldable pub has : String → List String → Bool
has name [] = false
has name (m ∷ ms) = str_eq name m || has name ms

-- The names that are not empty.
unfoldable pub names_of : List Capability → List String
names_of [] = []
names_of (c ∷ cs) = let rest = names_of cs in if is_empty c.name then rest else c.name ∷ rest

-- `previous - names`
unfoldable pub minus : List String → List String → List String
minus [] names = []
minus (m ∷ ms) names = let rest = minus ms names in if has m names then rest else m ∷ rest

module _ {F : Type 0} where
  abbrev pub set_rank : String → Table F → Index F → Index F
  set_rank name t x = record x { ranks = λ n. if str_eq n name then t else x.ranks n }

  unfoldable pub put_score : ℕ → F → Table F → Table F
  put_score id score t = if is_some (lookup id t) then update id score t else add_row id score t

  unfoldable pub zadd : String → ℕ → F → Index F → Index F
  zadd name id score x = set_rank name (put_score id score (x.ranks name)) x

  unfoldable pub zrem : String → ℕ → Index F → Index F
  zrem name id x = set_rank name (delete id (x.ranks name)) x

  unfoldable pub zadd_all : List String → ℕ → F → Index F → Index F
  zadd_all [] id score x = x
  zadd_all (m ∷ ms) id score x = zadd_all ms id score (zadd m id score x)

  unfoldable pub zrem_all : List String → ℕ → Index F → Index F
  zrem_all [] id x = x
  zrem_all (m ∷ ms) id x = zrem_all ms id (zrem m id x)

  abbrev pub set_members : ℕ → List String → Index F → Index F
  set_members id names x = record x { members = λ j. if j == id then names else x.members j }

  unfoldable pub sync_agent : ℕ → List Capability → F → Bool → Index F → Index F
  sync_agent id capabilities score active x =
      let names = names_of capabilities in
      let fresh = set_members id names (zrem_all (minus (x.members id) names) id x) in
      if active then zadd_all names id score fresh else zrem_all names id fresh

  unfoldable pub remove_agent : ℕ → Index F → Index F
  remove_agent id x = set_members id [] (zrem_all (x.members id) id x)

  unfoldable pub update_agent_score : ℕ → F → Index F → Index F
  update_agent_score id score x = zadd_all (x.members id) id score x
