-- ===== src/Streams/Contiguous.antt =====
-- The chunks of a task are the first so many, each once.
use open_agent_net.Prelude.{
  ℕ, zero, suc, ◌+◌, ◌≤◌, ◌<◌, ◌≡◌, refl, String, Bool, true, ◌&&◌, none, List, [], ◌∷◌, ◌++◌, ◌==◌,
  ltb, if◌then◌else◌, is_some, arith, inl, inr, Option-cases,
}
use open_agent_net.Identifiers.{Uuid}
use open_agent_net.Db.{ok, get_db, get_db_inv, lookup}
use open_agent_net.Streams.Chunks.{
  TaskStreamChunk, StreamDb, find_chunk, has_previous, put_chunk, chunk_of, append_chunk,
}

abbrev pub count_chunks : ℕ → ℕ → List TaskStreamChunk → ℕ
count_chunks task n [] = 0
count_chunks task n (c ∷ cs) =
    (if c.task_id == task && c.sequence == n then 1 else 0) + count_chunks task n cs

pub record Contiguous (cs : List TaskStreamChunk) : Type 0 where
  pub once : (task n : ℕ) → count_chunks task n cs ≤ 1
  pub below : (task n : ℕ) → 0 < count_chunks task (suc n) cs → 0 < count_chunks task n cs

count_chunks-append :
    (task n : ℕ) (cs : List TaskStreamChunk) (c : TaskStreamChunk)
    → count_chunks task n (cs ++ c ∷ [])
      ≡ count_chunks task n cs + (if c.task_id == task && c.sequence == n then 1 else 0)
count_chunks-append task n [] c = omega arith
count_chunks-append task n (d ∷ cs) c = omega (arith, count_chunks-append task n cs c)

find_chunk-count :
    (task n : ℕ) (cs : List TaskStreamChunk)
    → is_some (find_chunk task n cs) ≡ ltb 0 (count_chunks task n cs)
unfolding find_chunk
find_chunk-count task n [] = ground arith
find_chunk-count task n (c ∷ cs) = ground (arith, find_chunk-count task n cs)

append-Contiguous :
    (cs : List TaskStreamChunk) (c : TaskStreamChunk) (n : ℕ)
    → c.sequence ≡ n
    → Contiguous cs
    → find_chunk c.task_id n cs ≡ none
    → has_previous c.task_id n cs ≡ true
    → Contiguous (cs ++ c ∷ [])
append-Contiguous cs c zero s v absent previous = record {
  once = λ t k.
      ground (arith, v.once t k, count_chunks-append t k cs c, find_chunk-count c.task_id 0 cs);
  below = λ t k h.
      ground (arith, v.below t k, count_chunks-append t k cs c, count_chunks-append t (suc k) cs c);
}
append-Contiguous cs c (suc n) s v absent previous = record {
  once = λ t k.
      ground
        (arith, v.once t k, count_chunks-append t k cs c, find_chunk-count c.task_id (suc n) cs);
  below = λ t k h. ground (
    arith,
    v.below t k,
    count_chunks-append t k cs c,
    count_chunks-append t (suc k) cs c,
    find_chunk-count c.task_id n cs,
  );
}

append_chunk-Contiguous :
    (uuid : Uuid) (show : ℕ → String) (now : ℕ) (text actor : String) (n : ℕ) (body : String)
    (final : Bool) (db : StreamDb) (r : TaskStreamChunk × StreamDb)
    → Contiguous db.chunks
    → append_chunk uuid show now text actor n body final db ≡ ok r
    → Contiguous r.1.chunks
unfolding append_chunk put_chunk
append_chunk-Contiguous uuid show now text actor n body final db r v h =
    elim (Option-cases (uuid.parse text)) [
      | inl bad ↦ absurd (ground arith)
      | inr (task, e) ↦ elim (Option-cases (lookup task db.tasks)) [
        | inl missing ↦ absurd (ground arith)
        | inr (t, f) ↦ elim (Option-cases (find_chunk task n db.chunks)) [
          | inr (old, g) ↦ (let same : r.1.chunks ≡ db.chunks = ground arith in rw same v)
          | inl absent ↦
              let c = chunk_of now task n body final in
              let is : r.1.chunks ≡ db.chunks ++ c ∷ [] = ground arith in
              rw is (append-Contiguous db.chunks c n refl v absent (ground arith))
        ]
      ]
    ]

pub record Request : Type 0 where
  pub now : ℕ
  pub task_id : String
  pub actor : String
  pub sequence : ℕ
  pub chunk : String
  pub is_final : Bool

unfoldable pub run : Uuid → (ℕ → String) → List Request → StreamDb → StreamDb
run uuid show [] db = db
run uuid show (q ∷ qs) db =
    run uuid show qs
      (get_db (append_chunk uuid show q.now q.task_id q.actor q.sequence q.chunk q.is_final) db)

-- Whatever chunks are appended, in whatever order and however often: where no sequence of a task is
-- stored twice and with every sequence above 0 the one before it is stored, this stays so.
pub run-Contiguous :
    (uuid : Uuid) (show : ℕ → String) (qs : List Request) (db : StreamDb)
    → Contiguous db.chunks
    → Contiguous (run uuid show qs db).chunks
unfolding run
run-Contiguous uuid show [] db v = v
run-Contiguous uuid show (q ∷ qs) db v = run-Contiguous uuid show qs _ (
    get_db_inv (λ s. Contiguous s.chunks)
      (append_chunk uuid show q.now q.task_id q.actor q.sequence q.chunk q.is_final) db
      (λ r.
        append_chunk-Contiguous uuid show q.now q.task_id q.actor q.sequence q.chunk q.is_final db r
          v)
      v)
