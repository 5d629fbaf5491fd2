-- ===== src/Streams/Chunks.antt =====
-- The table of chunks, and the handler that appends one.
use open_agent_net.Prelude.{
  ℕ, zero, suc, String, Bool, true, false, not, ◌&&◌, ◌||◌, Option, none, some, List, [], ◌∷◌, ◌++◌,
  ◌==◌, str_eq, if◌then◌else◌, is_some,
}
use open_agent_net.Identifiers.{Uuid}
use open_agent_net.Tasks.{Task, TaskStatus, pending, acked, running}
use open_agent_net.Db.{
  Tx, pure, raise_if, gets, modify, or_raise, ◌>>=◌, ◌>>◌, Table, lookup, update,
}

-- `chunk` is kept as its text.
pub record TaskStreamChunk : Type 0 where
  pub task_id : ℕ
  pub sequence : ℕ
  pub chunk : String
  pub is_final : Bool
  pub created_at : ℕ

pub record StreamDb : Type 0 where
  pub tasks : Table Task
  pub chunks : List TaskStreamChunk

pub data StreamError : Type 0 where
  invalid_task_id task_not_found only_participants different_data not_contiguous : StreamError

abbrev pub Action : Type 0 → Type 0
Action A = Tx StreamDb StreamError A

-- `select(...).where(task_id == task, sequence == n)`
unfoldable pub find_chunk : ℕ → ℕ → List TaskStreamChunk → Option TaskStreamChunk
find_chunk task n [] = none
find_chunk task n (c ∷ cs) =
    let rest = find_chunk task n cs in if c.task_id == task && c.sequence == n then some c else rest

abbrev pub is_participant : (ℕ → String) → String → Task → Bool
is_participant show actor t =
    str_eq (show t.to_agent_id) actor || str_eq (show t.from_agent_id) actor

abbrev pub start_running : TaskStatus → TaskStatus
start_running pending = running
start_running acked = running
start_running s = s

abbrev pub same_bool : Bool → Bool → Bool
same_bool true b = b
same_bool false b = not b

-- A sequence above 0 wants the one before it.
abbrev pub has_previous : ℕ → ℕ → List TaskStreamChunk → Bool
has_previous task zero cs = true
has_previous task (suc n) cs = is_some (find_chunk task n cs)

abbrev pub with_chunk : TaskStreamChunk → Task → StreamDb → StreamDb
with_chunk c t db = record db {
  tasks = update c.task_id (record t { status = start_running t.status }) db.tasks;
  chunks = db.chunks ++ c ∷ [];
}

-- A repeated chunk is answered with the stored one, or refused where it differs.
unfoldable pub put_chunk : TaskStreamChunk → Task → Option TaskStreamChunk → Action TaskStreamChunk
put_chunk c t (some old) = do
  raise_if (not (str_eq old.chunk c.chunk && same_bool old.is_final c.is_final)) different_data
  pure old
put_chunk c t none = do
  cs ← gets (λ db. db.chunks)
  raise_if (not (has_previous c.task_id c.sequence cs)) not_contiguous
  modify (with_chunk c t)
  pure c

abbrev pub chunk_of : ℕ → ℕ → ℕ → String → Bool → TaskStreamChunk
chunk_of now task n body final = record {
  task_id = task;
  sequence = n;
  chunk = body;
  is_final = final;
  created_at = now;
}

-- `show` is the text of a UUID.
unfoldable pub append_chunk :
    Uuid → (ℕ → String) → ℕ → String → String → ℕ → String → Bool → Action TaskStreamChunk
append_chunk uuid show now text actor n body final = do
  task ← or_raise (uuid.parse text) invalid_task_id
  found ← gets (λ db. lookup task db.tasks)
  t ← or_raise found task_not_found
  raise_if (not (is_participant show actor t)) only_participants
  existing ← gets (λ db. find_chunk task n db.chunks)
  put_chunk (chunk_of now task n body final) t existing
