-- ===== src/Eval.antt =====
-- stage0/src/frontend/eval: compile-time values, their environment and the evaluator.
pub mod Value
pub mod Env
pub mod Evaluator
