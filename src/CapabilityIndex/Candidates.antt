-- ===== src/CapabilityIndex/Candidates.antt =====
-- `candidate_ids` of backend/app/core/capability_index.py. `reaches` is the test of the least score.
use open_agent_net.Prelude.{
  ℕ, String, Bool, false, Option, none, some, List, [], ◌∷◌, ◌==◌, ◌||◌, if◌then◌else◌,
}
use open_agent_net.Identifiers.{is_empty}
use open_agent_net.Db.{Table}
use open_agent_net.CapabilityIndex.Redis.{Index}

unfoldable pub is_in : ℕ → List ℕ → Bool
is_in id [] = false
is_in id (j ∷ ids) = j == id || is_in id ids

unfoldable pub intersect : List ℕ → List ℕ → List ℕ
intersect [] others = []
intersect (id ∷ ids) others =
    let rest = intersect ids others in if is_in id others then id ∷ rest else rest

-- `[name for name in capabilities if name]`
unfoldable pub given : List String → List String
given [] = []
given (n ∷ ns) = let rest = given ns in if is_empty n then rest else n ∷ rest

module _ {F : Type 0} (reaches : F → Bool) where
  -- `zrangebyscore`
  unfoldable pub in_range : Table F → List ℕ
  in_range [] = []
  in_range ((id, score) ∷ t) = let rest = in_range t in if reaches score then id ∷ rest else rest

  unfoldable pub intersection : String → List String → Index F → List ℕ
  intersection name [] x = in_range (x.ranks name)
  intersection name (m ∷ ms) x = intersect (in_range (x.ranks name)) (intersection m ms x)

  abbrev pub candidates : List String → Index F → Option (List ℕ)
  candidates [] x = none
  candidates (n ∷ ns) x = some (intersection n ns x)

  unfoldable pub candidate_ids : List String → Index F → Option (List ℕ)
  candidate_ids capabilities x = candidates (given capabilities) x
