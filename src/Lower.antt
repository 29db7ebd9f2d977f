-- ===== src/Lower.antt =====
-- internal/lower: Go ABI thunks.
pub mod Types
pub mod Layout
pub mod Returns
pub mod GoArgs
pub mod GoTypes
mod Examples
