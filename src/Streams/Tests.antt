-- ===== src/Streams/Tests.antt =====
-- Chunks of one task, one of them too early and one twice.
use open_agent_net.Prelude.{ℕ, String, false, none, some, [], ◌∷◌, arith, str_eq, if◌then◌else◌}
use open_agent_net.Identifiers.{Uuid}
use open_agent_net.Tasks.{Task, TaskStatus}
use open_agent_net.Streams.Chunks.{StreamDb}
use open_agent_net.Streams.Contiguous.{Contiguous, Request, run, run-Contiguous}

abbrev uuid : Uuid
uuid = record { parse = λ s. if str_eq s "t7" then some 7 else none; uuid5 = λ s. 0 }

abbrev show : ℕ → String
show n = "a1"

abbrev task7 : Task
task7 = record {
  from_agent_id = 1;
  to_agent_id = 2;
  capability_name = "sum";
  payload = record { name = some "sum"; slug = none; payload = none; others = "{}" };
  constraints = record {
    max_latency_ms = none;
    latency_target_ms = none;
    sla_max_latency_ms = none;
    others = "{}";
  };
  conversation_id = none;
  status = TaskStatus.pending;
  result = none;
  error_code = none;
  error_message = none;
  negotiation_id = none;
  contract_id = none;
  execution_ms = none;
  created_at = 0;
  completed_at = none;
  ttl_seconds = 60;
  envelope_hash = none;
}

abbrev db7 : StreamDb
db7 = record { tasks = (7, task7) ∷ []; chunks = [] }

abbrev part : ℕ → Request
part n = record {
  now = n;
  task_id = "t7";
  actor = "a1";
  sequence = n;
  chunk = "x";
  is_final = false;
}

none-Contiguous : Contiguous db7.chunks
none-Contiguous = record { once = λ t n. omega arith; below = λ t n h. absurd (omega arith) }

run-Contiguous_example :
    Contiguous (run uuid show (part 0 ∷ part 2 ∷ part 1 ∷ part 0 ∷ part 2 ∷ []) db7).chunks
run-Contiguous_example =
    run-Contiguous uuid show (part 0 ∷ part 2 ∷ part 1 ∷ part 0 ∷ part 2 ∷ []) db7 none-Contiguous
