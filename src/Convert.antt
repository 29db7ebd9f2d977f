-- ===== src/Convert.antt =====
-- internal/convert: from .gocobj to Go objects.
pub mod Arm64
pub mod PcTab
pub mod RelocMap
mod Examples
