-- ===== src/TypeCheck.antt =====
-- stage0/src/frontend/typecheck: the type checker.
pub mod Types
pub mod Context
pub mod Monad
pub mod Rules
pub mod Checker
pub mod Forms
pub mod Typing
pub mod Sound
pub mod Complete
pub mod Module
mod Tests
