-- ===== src/Streams.antt =====
-- Streamed results of tasks: `append_task_stream_chunk` (backend/app/api/v1/messages.py) with
-- backend/app/models/task_stream.py. The sequence of a chunk is not negative.
pub mod Chunks
pub mod Contiguous
mod Tests
