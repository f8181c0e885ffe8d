-- ===== src/Escape.antt =====
-- stage0/src/frontend/escape: the check of ownership and of borrows that escape.
pub mod Context
pub mod Branch
pub mod Use
pub mod Checker
