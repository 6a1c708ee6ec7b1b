-- ===== src/Eval.antt =====
-- The flag evaluation engine: server/internal/eval.
pub mod Hash
pub mod Std
pub mod Rules
pub mod Engine
