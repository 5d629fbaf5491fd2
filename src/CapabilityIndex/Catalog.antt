-- ===== src/CapabilityIndex/Catalog.antt =====
-- The abstract view of the index: one entry for each agent, and no sets.
use open_agent_net.Prelude.{
  ℕ, String, Bool, true, false, ◌&&◌, Option, none, some, List, [], ◌∷◌, ◌==◌, if◌then◌else◌,
}
use open_agent_net.Agents.{Capability}
use open_agent_net.CapabilityIndex.Redis.{
  Index, has, names_of, sync_agent, remove_agent, update_agent_score,
}

pub record Entry (F : Type 0) : Type 0 where
  pub names : List String
  pub score : Option F

pub data Command (F : Type 0) : Type 0 where
  sync : ℕ → List Capability → F → Bool → Command F
  remove : ℕ → Command F
  rescore : ℕ → F → Command F

module _ {F : Type 0} where
  abbrev pub nobody : ℕ → Entry F
  nobody id = record { names = []; score = none }

  abbrev pub set_entry : ℕ → Entry F → (ℕ → Entry F) → ℕ → Entry F
  set_entry id e cat j = if j == id then e else cat j

  -- A synchronization replaces the entry; one that is not active has no score, until a new score is
  -- written.
  unfoldable pub spec_step : Command F → (ℕ → Entry F) → ℕ → Entry F
  spec_step (sync id cs s active) cat =
      set_entry id (record { names = names_of cs; score = if active then some s else none }) cat
  spec_step (remove id) cat = set_entry id (record { names = []; score = none }) cat
  spec_step (rescore id s) cat =
      set_entry id (record { names = (cat id).names; score = some s }) cat

  unfoldable pub spec_run : List (Command F) → (ℕ → Entry F) → ℕ → Entry F
  spec_run [] cat = cat
  spec_run (c ∷ cs) cat = spec_run cs (spec_step c cat)

  unfoldable pub step : Command F → Index F → Index F
  step (sync id cs s active) x = sync_agent id cs s active x
  step (remove id) x = remove_agent id x
  step (rescore id s) x = update_agent_score id s x

  unfoldable pub run : List (Command F) → Index F → Index F
  run [] x = x
  run (c ∷ cs) x = run cs (step c x)

  abbrev pub listed : Entry F → String → Option F
  listed e name = if has name e.names then e.score else none

  -- The agent offers every one of the names with a score that reaches the least one.
  abbrev pub reached : (F → Bool) → Option F → Bool
  reached reaches none = false
  reached reaches (some s) = reaches s

  unfoldable pub offers : (F → Bool) → Entry F → List String → Bool
  offers reaches e [] = true
  offers reaches e (n ∷ ns) = reached reaches (listed e n) && offers reaches e ns

  abbrev pub spec_candidate : (F → Bool) → Entry F → List String → Option Bool
  spec_candidate reaches e [] = none
  spec_candidate reaches e (n ∷ ns) = some (offers reaches e (n ∷ ns))
