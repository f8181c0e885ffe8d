-- ===== src/Pass.antt =====
-- stage0/src/middleend/pass: the optimisation passes on HIR bodies.
pub mod DeadCode
pub mod ConstFold
pub mod DeadStore
pub mod Manager
