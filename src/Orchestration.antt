-- ===== src/Orchestration.antt =====
-- Workflow orchestration (backend/app/services/orchestration/service.py). `Dag` is the check and the
-- ordering of a workflow's steps, with its proofs below it.
pub mod Dag
pub mod Engine
pub mod Run
