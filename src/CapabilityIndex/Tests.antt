-- ===== src/CapabilityIndex/Tests.antt =====
-- Two agents are synchronized, one is scored again and the other removed.
use mathlib.Core.Option
use open_agent_net.Prelude.{ℕ, ◌≡◌, true, false, none, List, [], ◌∷◌, leb}
use open_agent_net.Agents.{Capability}
use open_agent_net.CapabilityIndex.Candidates.{is_in, given, candidate_ids}
use open_agent_net.CapabilityIndex.Catalog.{
  Command, sync, remove, rescore, nobody, spec_run, run, spec_candidate,
}
use open_agent_net.CapabilityIndex.Refines.{empty_index, index_refines}

abbrev adds : Capability
adds = record { name = "sum"; input_schema = none; latency_estimate_ms = none; others = "" }

abbrev script : List (Command ℕ)
script = sync 1 (adds ∷ []) 500 true ∷ sync 2 (adds ∷ []) 500 false ∷ rescore 2 700 ∷ remove 1 ∷ []

index_refines_example :
    Option.map (is_in 2) (candidate_ids (leb 600) ("sum" ∷ []) (run script (empty_index (leb 600))))
    ≡ spec_candidate (leb 600) (spec_run script nobody 2) (given ("sum" ∷ []))
index_refines_example = index_refines (leb 600) script ("sum" ∷ []) 2
