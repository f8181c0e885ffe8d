-- ===== src/Resolve.antt =====
-- stage0/src/frontend/resolve: scopes, symbols and the walk that fills them.
pub mod Scope
pub mod Symbols
pub mod Builder
