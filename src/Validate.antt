-- ===== src/Validate.antt =====
-- stage0/src/middleend/validate: the checks on HIR bodies.
pub mod Cfg
pub mod Local
pub mod Types
pub mod Body
