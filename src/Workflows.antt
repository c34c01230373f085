-- ===== src/Workflows.antt =====
-- The workflow engine (domains/workflows/engine).
pub mod Samples
pub mod Json
pub mod Types
pub mod Condition
pub mod Engine
